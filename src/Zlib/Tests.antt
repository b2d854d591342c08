-- ===== src/Zlib/Tests.antt =====
-- The gzip modules with a toy library, over bytes in memory, and the theorems at such inputs.
use wandio.Writer.Memory.{memory, memory-TakesAll}
use wandio.Writer.Contract.{TakesAll-IsSink}
use wandio.Base.{
  ℕ, zero, suc, subst, ◌+◌, ◌≤◌, ◌≡◌, ◌≢◌, ◌∙◌, sym, ap, refl, Bool, true, false, [], ◌∷◌, ◌++◌,
  append-nil, length, length-append, pos, minus_one, Bytes, arith,
}
use mathlib.Core.Bool.{false≢true}
use wandio.Reader.{ret}
use wandio.Reader.Contract.{Served}
use wandio.Reader.Memory.{from_memory, Any, all_of, from_memory-IsReader}
use wandio.Codec.{err_ok, Code, code_error, Call}
use wandio.Codec.Toy.{
  text_of, text_of-append, plain, Complete, decode, decode-IsDecoder, emitted, encode, bound,
  encode-IsEncoder,
}
use wandio.Codec.Read.{Stream}
use wandio.Codec.Read.Served.{Blamed, left}
use wandio.Codec.Write.{Deflater}
use wandio.Codec.Write.Took.{Linked, Wrote}
use wandio.Codec.Close.Closed.{IsFinisher}
use wandio.Zlib.{
  opened, Flush, z_no_flush, z_sync_flush, z_finish, Returned, z_ok, z_stream_end, z_other, goes_on,
  deflate_finish, zlib_read, zlib_wwrite,
}
use wandio.Zlib.Reads.{Ready, zlib_read-Served}
use wandio.Zlib.Writes.{zlib_wwrite-Wrote}
use wandio.Zlib.RoundTrip.{write_and_close, Stored, write_and_close-Stored}
use wandio.Zlib.Faults.{zlib_read_corrupt}

-- two streams, of two bytes and of one
abbrev packed : Bytes
packed = 8 ∷ 9 ∷ 0 ∷ 4 ∷ 0 ∷ []

abbrev start : Stream Bool Bytes
start = opened false packed

start-Ready : Ready Any all_of plain Complete false start
start-Ready = record { parent = tt; whole = (tt, (λ h e. absurd (omega (arith, ap length e)))) }

zlib_read-Served_example :
    let r = zlib_read false decode from_memory 10 start 2 in
    Served (Ready Any all_of plain Complete false) (left all_of plain) start 2 r
    × Blamed Any from_memory start.err r
zlib_read-Served_example =
    zlib_read-Served Any all_of plain Complete false decode from_memory decode-IsDecoder
      from_memory-IsReader start 10 2 (omega arith) start-Ready (omega arith)

abbrev corrupt : Stream Bool Bytes
corrupt = record { coder = true; input = 1 ∷ []; parent = []; err = err_ok; sincelastend = 1 }

-- a decoder that fails on everything
abbrev fails : Bool → Bytes → ℕ → Call Bool Code
fails d input room = record { used = 0; made = []; code = code_error; next = d }

zlib_read_corrupt_example :
    (s' : Stream Bool Bytes) × (zlib_read false fails from_memory 2 corrupt 5 ≡ ret (pos 0) [] s')
    × (zlib_read false fails from_memory 1 s' 4 ≡ ret minus_one [] s')
zlib_read_corrupt_example =
    zlib_read_corrupt false fails from_memory true true 1 [] [] 1 0 0 5 1 4 (omega arith)
      (omega arith) refl

abbrev deflate : Bytes → Bytes → Flush → ℕ → Call Bytes Returned
deflate e input z_no_flush room =
    let c = encode e input room in
    record { used = c.used; made = c.made; code = z_ok; next = c.next }
deflate e input z_sync_flush room = record { used = 0; made = []; code = z_ok; next = e }
deflate e input z_finish (suc room) = record {
  used = 0;
  made = 0 ∷ [];
  code = z_stream_end;
  next = e ++ 0 ∷ [];
}
deflate e input z_finish room = record { used = 0; made = []; code = z_other; next = e }

-- a file in memory
abbrev fresh : Deflater Bytes Bytes
fresh = record { coder = []; held = []; child = []; err = err_ok }

fresh-Linked : Linked Any all_of text_of emitted fresh
fresh-Linked = record { child = tt; few = omega arith; linked = refl }

zlib_wwrite-Wrote_example :
    Wrote Any all_of text_of emitted memory.write []
      (5 ∷ 6 ∷ [])
      (zlib_wwrite deflate memory 10 fresh (5 ∷ 6 ∷ []))
zlib_wwrite-Wrote_example =
    zlib_wwrite-Wrote Any all_of text_of emitted deflate memory bound encode-IsEncoder
      (TakesAll-IsSink Any all_of memory.write memory-TakesAll) fresh (5 ∷ 6 ∷ []) 10 (omega arith)
      fresh-Linked refl (omega arith)

abbrev Ended : Bytes → Type 0
Ended e = (front : Bytes) × (e ≡ front ++ 0 ∷ [])

finishes : IsFinisher text_of emitted Ended (λ e. 0) goes_on (deflate_finish deflate memory)
finishes = record {
  fits = fits;
  keeps = keeps;
  emits = emits;
  bounded = bounded;
  ends = ends;
  fills = fills;
}
  where
    fits : (e : Bytes) (room : ℕ) → length (deflate e [] z_finish room).made ≤ room
    fits e zero = omega arith
    fits e (suc room) = omega arith

    keeps : (e : Bytes) (room : ℕ) → text_of (deflate e [] z_finish room).next ≡ text_of e
    keeps e zero = refl
    keeps e (suc room) = text_of-append e (0 ∷ []) ∙ append-nil (text_of e)

    emits :
        (e : Bytes) (room : ℕ)
        → (deflate e [] z_finish room).next ≡ e ++ (deflate e [] z_finish room).made
    emits e zero = sym (append-nil e)
    emits e (suc room) = refl

    bounded :
        (e : Bytes) (room : ℕ)
        → goes_on (deflate e [] z_finish room).code ≡ true
        → length (deflate e [] z_finish room).made + 0 ≤ 0
    bounded e zero h = omega arith
    bounded e (suc room) h = absurd (false≢true h)

    ends :
        (e : Bytes) (room : ℕ)
        → goes_on (deflate e [] z_finish room).code ≡ false
        → Ended (deflate e [] z_finish room).next
    ends e zero h = absurd (false≢true (sym h))
    ends e (suc room) h = (e, refl)

    fills :
        (e : Bytes) (room : ℕ)
        → goes_on (deflate e [] z_finish room).code ≡ true
        → length (deflate e [] z_finish room).made ≡ room
    fills e zero h = refl
    fills e (suc room) h = absurd (false≢true h)

ends_complete : (d : Bool) (front : Bytes) → Complete d (front ++ 0 ∷ [])
ends_complete true [] = tt
ends_complete false [] = tt
ends_complete true (zero ∷ front) = ends_complete false front
ends_complete false (zero ∷ front) = ends_complete false front
ends_complete true (suc c ∷ front) = ends_complete true front
ends_complete false (suc c ∷ front) = ends_complete true front

agrees : (e : Bytes) → Ended e → Complete false e × (e ≢ []) × (plain false e ≡ text_of e)
agrees e (front, is) = (
  subst (Complete false) (sym is) (ends_complete false front),
  (λ h. absurd (omega (arith, ap length (sym is ∙ h), length-append front (0 ∷ [])))),
  refl,
)

reopened : (w : Bytes) → Any w → Any w × (all_of w ≡ w)
reopened w good = (tt, refl)

write_and_close-Stored_example :
    Stored {S = Bytes} Any all_of plain Complete false Any all_of text_of emitted Ended bound
      (λ e. 0)
      deflate
      memory
      encode-IsEncoder
      finishes
      memory-TakesAll
      agrees
      (λ w. w)
      reopened
      (5 ∷ 6 ∷ [])
      (write_and_close deflate memory 10 (λ e. 0) fresh (5 ∷ 6 ∷ []))
write_and_close-Stored_example =
    write_and_close-Stored Any all_of plain Complete false Any all_of text_of emitted Ended bound
      (λ e. 0) deflate memory encode-IsEncoder finishes memory-TakesAll agrees (λ w. w) reopened
      fresh (5 ∷ 6 ∷ []) 10 (omega arith) fresh-Linked refl refl (omega arith)
