-- ===== src/Bzip/Tests.antt =====
-- The bzip2 modules with a toy library, over bytes in memory, and the theorems at such inputs.
use wandio.Writer.Memory.{memory, memory-TakesAll}
use wandio.Writer.Contract.{TakesAll-IsSink}
use wandio.Base.{ℕ, ◌≡◌, refl, Bool, true, false, [], ◌∷◌, ◌++◌, some, pos, Bytes, arith}
use wandio.Reader.{ret}
use wandio.Reader.Contract.{Served}
use wandio.Reader.Memory.{from_memory, Any, all_of, from_memory-IsReader}
use wandio.Codec.{err_ok, Call, buff_size}
use wandio.Codec.Toy.{
  text_of, plain, Complete, decode, decode-IsDecoder, emitted, encode, bound, encode-IsEncoder,
}
use wandio.Codec.Read.{Stream}
use wandio.Codec.Read.Served.{Blamed, left}
use wandio.Codec.Write.Took.{Linked, Wrote}
use wandio.Codec.Write.{Deflater}
use wandio.Bzip.{
  opened, Action, bz_run, bz_finish, Returned, bz_run_ok, bz_finish_ok, bz_read, bz_wwrite,
  bz_wclose,
}
use wandio.Bzip.Reads.{Ready, bz_read-Served}
use wandio.Bzip.Writes.{bz_wwrite-Wrote, bz_wclose_once}

abbrev start : Stream Bool Bytes
start = opened false (8 ∷ 9 ∷ 0 ∷ 4 ∷ 0 ∷ [])

start-Ready : Ready Any all_of plain Complete false start
start-Ready = record { parent = tt; whole = (tt, (λ h. absurd h)) }

bz_read-Served_example :
    let r = bz_read false decode from_memory 10 start 2 in
    Served (Ready Any all_of plain Complete false) (left all_of plain) start 2 r
    × Blamed Any from_memory start.err r
bz_read-Served_example =
    bz_read-Served Any all_of plain Complete false decode from_memory decode-IsDecoder
      from_memory-IsReader start 10 2 (omega arith) start-Ready (omega arith)

-- in the midst of a stream, with no more input
abbrev cut_short : Stream Bool Bytes
cut_short = record { coder = true; input = []; parent = []; err = err_ok; sincelastend = 9 }

memory_end : from_memory [] 0 buff_size ≡ ret (pos 0) [] []
unfolding from_memory
memory_end = refl

-- a library that ends a stream with two bytes, one at each finishing call
abbrev bz_compress : Bytes → Bytes → Action → ℕ → Call Bytes Returned
bz_compress e input bz_run room =
    let c = encode e input room in
    record { used = c.used; made = c.made; code = bz_run_ok; next = c.next }
bz_compress e input bz_finish room = record {
  used = 0;
  made = 0 ∷ [];
  code = bz_finish_ok;
  next = e ++ 0 ∷ [];
}

abbrev fresh : Deflater Bytes Bytes
fresh = record { coder = []; held = []; child = []; err = err_ok }

fresh-Linked : Linked Any all_of text_of emitted fresh
fresh-Linked = record { child = tt; few = omega arith; linked = refl }

bz_wwrite-Wrote_example :
    Wrote Any all_of text_of emitted memory.write []
      (5 ∷ 6 ∷ [])
      (bz_wwrite bz_compress memory 10 fresh (5 ∷ 6 ∷ []))
bz_wwrite-Wrote_example =
    bz_wwrite-Wrote Any all_of text_of emitted bz_compress memory bound encode-IsEncoder
      (TakesAll-IsSink Any all_of memory.write memory-TakesAll) fresh (5 ∷ 6 ∷ []) 10 (omega arith)
      fresh-Linked refl (omega arith)

bz_wclose_once_example :
    (w : Bytes) × (bz_wclose bz_compress memory 1 fresh ≡ some (0 ∷ [], w)) × (w ≡ 0 ∷ [])
bz_wclose_once_example =
    bz_wclose_once Any all_of text_of emitted bz_compress memory memory-TakesAll (λ e room. refl)
      fresh 0 fresh-Linked (λ h. cc h)
