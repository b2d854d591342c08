-- ===== src/Zstd/Tests.antt =====
-- The zstd writer with a library that keeps what it is given.
use wandio.Base.{
  ℕ, ◌≡◌, refl, Bool, true, false, [], ◌∷◌, ◌++◌, Option, some, length, minus_one, Bytes,
}
use wandio.Reader.Memory.{Any, all_of}
use wandio.Writer.{done}
use wandio.Writer.Contract.{TakesAll-IsSink}
use wandio.Writer.Memory.{memory, memory-TakesAll}
use wandio.Codec.{err_ok, err_error, Call}
use wandio.Zstd.{ZstdWriter, zstd_wwrite}
use wandio.Zstd.Faults.{zstd_wwrite_buffered}

abbrev keeps : Bytes → Bytes → ℕ → Call Bytes Bool
keeps e input room = record { used = length input; made = []; code = false; next = e ++ input }

abbrev ends : Bytes → ℕ → Call Bytes (Option ℕ)
ends e room = record { used = 0; made = e; code = some 0; next = [] }

abbrev fresh : ZstdWriter Bytes Bytes
fresh = record { coder = []; child = []; err = err_ok; set = false }

zstd_wwrite_buffered_example :
    zstd_wwrite keeps ends memory.write 1 fresh (5 ∷ 6 ∷ [])
    ≡ done minus_one (record { coder = 5 ∷ 6 ∷ []; child = []; err = err_error; set = true })
zstd_wwrite_buffered_example =
    zstd_wwrite_buffered Any all_of keeps ends memory.write
      (TakesAll-IsSink Any all_of memory.write memory-TakesAll) [] (5 ∷ 6 ∷ []) [] false 5 (6 ∷ [])
      2 0 tt refl
