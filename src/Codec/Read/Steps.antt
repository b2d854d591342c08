-- ===== src/Codec/Read/Steps.antt =====
-- The loop's hypotheses from those on the decompression library.
use wandio.Base.{
  ℕ, ◌+◌, ◌≤◌, ◌<◌, ◌≡◌, subst, refl, Bool, true, Option, length, length-append, length-drop, drop,
  Bytes, arith,
}
use wandio.Codec.{err_ok, Code, Call}
use wandio.Codec.Read.{Stream, AtEnd, unexpected, ended}
use wandio.Codec.Read.Served.{ahead, Whole, Decoded, Sound}
use wandio.Codec.Decoder.{Finds, IsDecoder}

module _ {D S : Type 0} (Valid : S → Type 0) (rest : S → Bytes) (plain : D → Bytes → Bytes)
    (Complete : D → Bytes → Type 0) (Open : ℕ → Type 0) (restart : Option D)
    (switch : Code → Stream D S → Stream D S) where
  -- what a reader's `switch` makes of a call of the library, where `s1` has the decoder's new state
  -- and what is left of its input
  abbrev pub Switches : Type 0
  Switches =
      (code : Code) (s s1 : Stream D S) (room : ℕ) (c : Call D Code)
      → s.err ≡ err_ok
      → s1.err ≡ err_ok
      → Valid s1.parent
      → s1.coder ≡ c.next
      → length (ahead rest s1) + c.used ≡ length (ahead rest s)
      → length c.made ≤ room
      → 0 < c.used + length c.made
      → Finds plain Complete restart code c.next (plain s.coder (ahead rest s)) c.made
          (ahead rest s1)
      → Decoded Valid rest plain Complete Open s (switch code s1) room c

  pub Switches-Sound :
      (decode : D → Bytes → ℕ → Call D Code) (at_end : ℕ → Bool → AtEnd)
      → IsDecoder plain Complete restart decode
      → Switches
      → ((n : ℕ) (u : Bool) → at_end n u ≡ unexpected → Open n)
      → ((n : ℕ) (u : Bool) → at_end n u ≡ ended → u ≡ true)
      → Sound Valid rest plain Complete Open decode at_end switch
  Switches-Sound decode at_end library switches expected untouched = record {
    no_more = library.no_more;
    expected = expected;
    untouched = untouched;
    decodes = λ s room good e more space.
        let c = decode s.coder s.input room in
        let r = rest s.parent in
        let s1 : Stream D S = record s { coder = c.next; input = drop c.used s.input } in
        let whole =
          (subst (λ z. Whole rest Complete Open z s.coder s.sincelastend (ahead rest s)) e
            good.whole).0 in
        switches c.code s s1 room c e e good.parent refl
          (omega (
            arith,
            library.takes s.coder s.input room,
            length-append s.input r,
            length-append (drop c.used s.input) r,
            length-drop c.used s.input,
          ))
          (library.fits s.coder s.input room)
          (library.moves s.coder s.input r room whole more space)
          (library.finds s.coder s.input r room whole more space);
  }
