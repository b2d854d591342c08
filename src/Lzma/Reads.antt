-- ===== src/Lzma/Reads.antt =====
-- `lzma_read` against the contract of `read`.
use wandio.Base.{
  none, append-nil, ℕ, ◌+◌, ◌^◌, ◌<◌, ◌≡◌, ◌∙◌, sym, subst, ap, Bool, true, ◌++◌, length, Bytes,
  arith,
}
use wandio.Reader.{Reply}
use wandio.Reader.Contract.{Served, IsReader}
use wandio.Codec.{Code, code_ok, code_end, code_error, Call}
use wandio.Codec.Read.{Stream, unexpected, ended}
use wandio.Codec.Read.Served.{
  ahead, text, left, Good, decompress-Served, Blamed, ok_not_error, eof_not_error,
}
use wandio.Codec.Read.Steps.{Switches, Switches-Sound}
use wandio.Codec.Decoder.{IsDecoder}
use wandio.Lzma.{lzma_switch, lzma_at_end, lzma_read}

-- the parent's end is never an error
abbrev pub Open : ℕ → Type 0
Open n = ⊥

module _ {D S : Type 0} (Valid : S → Type 0) (rest : S → Bytes) (plain : D → Bytes → Bytes)
    (Complete : D → Bytes → Type 0) where
  -- a reader whose parent is valid and, before an error, whose input ahead is complete
  abbrev pub Ready : Stream D S → Type 0
  Ready = Good Valid rest plain Complete Open

  switches : Switches {S = S} Valid rest plain Complete Open none (lzma_switch)
  switches code_ok s s1 room c e e1 v d used fits moves (whole, more, is) = record {
    good = record {
      parent = v;
      whole = (subst (λ z. Complete z (ahead rest s1)) (sym d) whole, (λ _. more));
    };
    sound = ok_not_error;
    next =
        ap (λ z. text rest plain z s.coder (ahead rest s)) e
        ∙ is
        ∙ ap (λ z. c.made ++ plain z (ahead rest s1)) (sym d);
    fits = fits;
    used = used;
    moves = moves;
  }
  switches code_end s s1 room c e e1 v d used fits moves is = record {
    good = record { parent = v; whole = tt };
    sound = eof_not_error;
    next = ap (λ z. text rest plain z s.coder (ahead rest s)) e ∙ is ∙ sym (append-nil c.made);
    fits = fits;
    used = used;
    moves = moves;
  }
  switches code_error s s1 room c e e1 v d used fits moves f = absurd f

  at_end-Open : (n : ℕ) (u : Bool) → lzma_at_end n u ≡ unexpected → Open n
  at_end-Open n u h = ground arith

  at_end_untouched : (n : ℕ) (u : Bool) → lzma_at_end n u ≡ ended → u ≡ true
  at_end_untouched n u h = ground arith

  -- Over a parent that keeps the reader contract and a complete input, with fuel for the bytes of
  -- both: a read of less than 2^32 bytes keeps the contract with the text of the first stream of the
  -- input; it returns its next bytes, none only at its end, and -1 only where
  -- the reader was in the state ERR_ERROR already or the parent's last read has failed.
  pub lzma_read-Served :
      (lzma_code : D → Bytes → ℕ → Call D Code) (read : S → ℕ → ℕ → Reply S)
      → IsDecoder plain Complete none lzma_code
      → IsReader Valid rest read
      → (s : Stream D S) (fuel len : ℕ) → len < 2 ^ 32
      → Ready s
      → length (ahead rest s) + len < fuel
      → let r = lzma_read lzma_code read fuel s len in
        Served Ready (left rest plain) s len r × Blamed Valid read s.err r
  unfolding lzma_read
  lzma_read-Served lzma_code read lzma reads s fuel len short good enough =
      decompress-Served Valid rest plain Complete Open lzma_code read lzma_at_end lzma_switch reads
        (Switches-Sound Valid rest plain Complete Open none lzma_switch lzma_code lzma_at_end lzma
          switches at_end-Open at_end_untouched)
        len short s fuel good enough
