-- ===== src/Bzip/Reads.antt =====
-- `bz_read` against the contract of `read`.
use wandio.Base.{
  ℕ, ◌+◌, ◌^◌, ◌<◌, ◌≡◌, ◌∙◌, sym, subst, ap, Bool, true, ◌++◌, some, length, Bytes, arith,
}
use wandio.Reader.{Reply}
use wandio.Reader.Contract.{Served, IsReader}
use wandio.Codec.{Code, code_ok, code_end, code_error, Call, to_uint}
use wandio.Codec.Read.{Stream, unexpected, ended, decompress}
use wandio.Codec.Read.Served.{
  ahead, text, left, Whole, Good, decompress-Served, Blamed, ok_not_error,
}
use wandio.Codec.Read.Steps.{Switches, Switches-Sound}
use wandio.Codec.Decoder.{IsDecoder}
use wandio.Bzip.{bz_switch, bz_at_end, bz_read}

-- the parent's end is never an error
abbrev pub Open : ℕ → Type 0
Open n = ⊥

module _ {D S : Type 0} (Valid : S → Type 0) (rest : S → Bytes) (plain : D → Bytes → Bytes)
    (Complete : D → Bytes → Type 0) (init : D) where
  -- a reader whose parent is valid and, before an error, whose input ahead is complete
  abbrev pub Ready : Stream D S → Type 0
  Ready = Good Valid rest plain Complete Open

  switches : Switches {S = S} Valid rest plain Complete Open (some init) (bz_switch init)
  switches code_ok s s1 room c e e1 v d used fits moves (whole, more, is) = record {
    good = record {
      parent = v;
      whole = (subst (λ z. Complete z (ahead rest s1)) (sym d) whole, (λ _. more));
    };
    sound = ok_not_error;
    next =
        ap (λ z. text rest plain z s.coder (ahead rest s)) e
        ∙ is
        ∙ ap (λ z. c.made ++ plain z (ahead rest s1)) (sym d);
    fits = fits;
    used = used;
    moves = moves;
  }
  switches code_end s s1 room c e e1 v d used fits moves (whole, is) =
      let text_of : text rest plain s1.err init (ahead rest s1) ≡ plain init (ahead rest s1) =
        ap (λ z. text rest plain z init (ahead rest s1)) e1 in
      record {
        good = record {
          parent = v;
          whole =
              subst (λ z. Whole rest Complete Open z init s1.sincelastend (ahead rest s1)) (sym e1)
                (whole, (λ h. absurd h));
        };
        sound = λ f. ok_not_error (sym e1 ∙ f);
        next =
            ap (λ z. text rest plain z s.coder (ahead rest s)) e
            ∙ is
            ∙ ap (λ z. c.made ++ z) (sym text_of);
        fits = fits;
        used = used;
        moves = moves;
      }
  switches code_error s s1 room c e e1 v d used fits moves f = absurd f

  at_end-Open : (n : ℕ) (u : Bool) → bz_at_end n u ≡ unexpected → Open n
  at_end-Open n u h = ground arith

  at_end_untouched : (n : ℕ) (u : Bool) → bz_at_end n u ≡ ended → u ≡ true
  at_end_untouched n u h = ground arith

  -- Over a parent that keeps the reader contract and a complete input, with fuel for the bytes of
  -- both: a read of less than 2^32 bytes keeps the contract with the text of the input; it returns
  -- its next bytes, none only at the end of all of it, and -1 only where
  -- the reader was in the state ERR_ERROR already or the parent's last read has failed.
  pub bz_read-Served :
      (bz_decompress : D → Bytes → ℕ → Call D Code) (read : S → ℕ → ℕ → Reply S)
      → IsDecoder plain Complete (some init) bz_decompress
      → IsReader Valid rest read
      → (s : Stream D S) (fuel len : ℕ) → len < 2 ^ 32
      → Ready s
      → length (ahead rest s) + len < fuel
      → let r = bz_read init bz_decompress read fuel s len in
        Served Ready (left rest plain) s len r × Blamed Valid read s.err r
  unfolding bz_read
  bz_read-Served bz_decompress read bzip reads s fuel len short good enough =
      subst
        (λ k.
          let r = decompress bz_decompress read bz_at_end (bz_switch init) fuel s len k in
          Served Ready (left rest plain) s len r × Blamed Valid read s.err r)
        (let e : len ≡ to_uint len = omega arith in e)
        (decompress-Served Valid rest plain Complete Open bz_decompress read bz_at_end
          (bz_switch init) reads
          (Switches-Sound Valid rest plain Complete Open (some init) (bz_switch init) bz_decompress
            bz_at_end bzip switches at_end-Open at_end_untouched)
          len short s fuel good enough)
