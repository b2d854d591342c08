-- ===== src/Writer/Memory.antt =====
-- A writer that keeps the bytes in memory, for the tests.
use wandio.Base.{refl, ◌++◌, [], length, pos, Bytes}
use wandio.Reader.Memory.{Any, all_of}
use wandio.Writer.{Sink}
use wandio.Writer.Contract.{TakesAll, Flushes}

abbrev pub memory : Sink Bytes
memory = record {
  name = [];
  write = λ w bytes. (pos (length bytes), w ++ bytes);
  flush = λ w. (pos 0, w);
}

pub memory-TakesAll : TakesAll Any all_of memory.write
memory-TakesAll = record { takes = λ w bytes good. (tt, refl, refl) }

pub memory-Flushes : Flushes Any all_of memory
memory-Flushes = record { keeps = λ w good. (tt, refl) }
