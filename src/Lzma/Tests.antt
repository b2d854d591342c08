-- ===== src/Lzma/Tests.antt =====
-- The xz modules with a toy library, over bytes in memory, and the theorems at such inputs.
use wandio.Writer.Memory.{memory, memory-TakesAll}
use wandio.Writer.Contract.{TakesAll-IsSink}
use wandio.Base.{
  ℕ, zero, suc, ◌+◌, ◌≤◌, ◌<◌, ◌≢◌, ap, refl, [], ◌∷◌, ◌++◌, none, drop, length, Bytes, arith,
}
use wandio.Reader.Contract.{Served}
use wandio.Reader.Memory.{from_memory, Any, all_of, from_memory-IsReader}
use wandio.Codec.{err_ok, Code, code_ok, code_end, code_error, Call}
use wandio.Codec.Toy.{text_of, emitted, encode, bound, encode-IsEncoder}
use wandio.Codec.Read.{Stream}
use wandio.Codec.Read.Served.{Blamed, left}
use wandio.Codec.Write.{Deflater}
use wandio.Codec.Write.Took.{Linked, Wrote}
use wandio.Codec.Decoder.{Finds, IsDecoder}
use wandio.Lzma.{opened, lzma_read, lzma_wwrite}
use wandio.Lzma.Reads.{Ready, lzma_read-Served}
use wandio.Lzma.Writes.{lzma_wwrite-Wrote}

-- the text of the first stream, and that it is whole
abbrev first : Unit {0} → Bytes → Bytes
first d [] = []
first d (zero ∷ x) = []
first d (suc c ∷ x) = c ∷ first d x

abbrev Whole : Unit {0} → Bytes → Type 0
Whole d [] = ⊥
Whole d (zero ∷ x) = Unit
Whole d (suc c ∷ x) = Whole d x

abbrev decode_one : Unit {0} → Bytes → ℕ → Call (Unit {0}) Code
decode_one d (zero ∷ x) room = record { used = 1; made = []; code = code_end; next = tt }
decode_one d (suc c ∷ x) (suc room) = record { used = 1; made = c ∷ []; code = code_ok; next = tt }
decode_one d x room = record { used = 0; made = []; code = code_error; next = tt }

decode_one-IsDecoder : IsDecoder first Whole none decode_one
decode_one-IsDecoder = record {
  no_more = λ d h. absurd h;
  takes = takes;
  fits = fits;
  moves = moves;
  finds = finds;
}
  where
    takes :
        (d : Unit {0}) (input : Bytes) (room : ℕ) → (decode_one d input room).used ≤ length input
    takes d [] room = omega arith
    takes d (zero ∷ x) room = omega arith
    takes d (suc c ∷ x) zero = omega arith
    takes d (suc c ∷ x) (suc room) = omega arith

    fits : (d : Unit {0}) (input : Bytes) (room : ℕ) → length (decode_one d input room).made ≤ room
    fits d [] room = omega arith
    fits d (zero ∷ x) room = omega arith
    fits d (suc c ∷ x) zero = omega arith
    fits d (suc c ∷ x) (suc room) = omega arith

    moves :
        (d : Unit {0}) (input more : Bytes) (room : ℕ)
        → Whole d (input ++ more)
        → 0 < length input
        → 0 < room
        → let c = decode_one d input room in 0 < c.used + length c.made
    moves d [] more room h a b = absurd (omega arith)
    moves d (zero ∷ x) more room h a b = omega arith
    moves d (suc c ∷ x) more zero h a b = absurd (omega arith)
    moves d (suc c ∷ x) more (suc room) h a b = omega arith

    not_empty : (x : Bytes) → Whole tt x → x ≢ []
    not_empty [] h e = h
    not_empty (c ∷ x) h e = absurd (omega (arith, ap length e))

    finds :
        (d : Unit {0}) (input more : Bytes) (room : ℕ)
        → Whole d (input ++ more)
        → 0 < length input
        → 0 < room
        → let c = decode_one d input room in
          Finds first Whole none c.code c.next
            (first d (input ++ more))
            c.made
            (drop c.used input ++ more)
    finds d [] more room h a b = absurd (omega arith)
    finds d (zero ∷ x) more room h a b = refl
    finds d (suc c ∷ x) more zero h a b = absurd (omega arith)
    finds d (suc c ∷ x) more (suc room) h a b = (h, not_empty (x ++ more) h, refl)

-- two streams, of which the second is not read
abbrev start : Stream (Unit {0}) Bytes
start = opened tt (8 ∷ 9 ∷ 0 ∷ 4 ∷ 0 ∷ [])

start-Ready : Ready Any all_of first Whole start
start-Ready = record { parent = tt; whole = (tt, (λ h. absurd h)) }

lzma_read-Served_example :
    let r = lzma_read decode_one from_memory 20 start 5 in
    Served (Ready Any all_of first Whole) (left all_of first) start 5 r
    × Blamed Any from_memory start.err r
lzma_read-Served_example =
    lzma_read-Served Any all_of first Whole decode_one from_memory decode_one-IsDecoder
      from_memory-IsReader start 20 5 (omega arith) start-Ready (omega arith)

abbrev fresh : Deflater Bytes Bytes
fresh = record { coder = []; held = []; child = []; err = err_ok }

fresh-Linked : Linked Any all_of text_of emitted fresh
fresh-Linked = record { child = tt; few = omega arith; linked = refl }

abbrev finish : Bytes → ℕ → Call Bytes Code
finish e (suc room) = record { used = 0; made = 0 ∷ []; code = code_end; next = e ++ 0 ∷ [] }
finish e room = record { used = 0; made = []; code = code_ok; next = e }

lzma_wwrite-Wrote_example :
    Wrote Any all_of text_of emitted memory.write []
      (5 ∷ 6 ∷ [])
      (lzma_wwrite encode finish memory 10 fresh (5 ∷ 6 ∷ []))
lzma_wwrite-Wrote_example =
    lzma_wwrite-Wrote Any all_of text_of emitted encode finish memory bound encode-IsEncoder
      (TakesAll-IsSink Any all_of memory.write memory-TakesAll) fresh (5 ∷ 6 ∷ []) 10 (omega arith)
      fresh-Linked refl (omega arith)
