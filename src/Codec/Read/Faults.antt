-- ===== src/Codec/Read/Faults.antt =====
-- The loop on corrupt data, at the parent's end, and for lengths that do not fit.
use wandio.Base.{
  ℕ, suc, ◌-◌, ◌<◌, ◌≡◌, ◌∙◌, ap, refl, Bool, false, ◌&&◌, [], ◌∷◌, drop, ltb, lt→ltb, ◌==◌, pos,
  minus_one, Bytes, arith,
}
use mathlib.Core.Bool.{false≢true}
use wandio.Reader.{Reply, ret}
use wandio.Codec.{
  Err, err_ok, err_eof, err_error, is_ok, Code, code_error, Call, buff_size, to_uint,
}
use wandio.Codec.Read.Served.{ok_not_error, eof_not_error}
use wandio.Codec.Read.{Stream, AtEnd, so_far, read_loop, decompress, round, refilled, end_of_parent}

module _ {D S : Type 0} (decode : D → Bytes → ℕ → Call D Code) (read : S → ℕ → ℕ → Reply S)
    (at_end : ℕ → Bool → AtEnd) (switch : Code → Stream D S → Stream D S) where
  stops :
      (fuel len room : ℕ) (got : Bytes) (s : Stream D S) (e : Err)
      → s.err ≡ e
      → (is_ok e && ltb 0 room) ≡ false
      → read_loop decode read at_end switch (suc fuel) len s room got ≡ ret (pos (len - room)) got s
  unfolding read_loop
  stops fuel len room got s e is test =
      let out : (is_ok s.err && ltb 0 room) ≡ false = ap (λ z. is_ok z && ltb 0 room) is ∙ test in
      rw (out, read_loop)

  pub read_loop_corrupt :
      (coder next : D) (x : ℕ) (input : Bytes) (parent : S) (since used fuel len : ℕ)
      → let s : Stream D S = record {
        coder = coder;
        input = x ∷ input;
        parent = parent;
        err = err_ok;
        sincelastend = since;
      } in
        0 < len
        → decode coder (x ∷ input) len
          ≡ record { used = used; made = []; code = code_error; next = next }
        → let s' = switch code_error (record s { coder = next; input = drop used (x ∷ input) }) in
          s'.err ≡ err_error
          → decompress decode read at_end switch (suc (suc fuel)) s len len ≡ ret (pos 0) [] s'
  unfolding decompress read_loop round
  read_loop_corrupt coder next x input parent since used fuel len some bad e =
      let s : Stream D S = record {
        coder = coder;
        input = x ∷ input;
        parent = parent;
        err = err_ok;
        sincelastend = since;
      } in
      let s' = switch code_error (record s { coder = next; input = drop used (x ∷ input) }) in
      let loop = read_loop decode read at_end switch (suc fuel) len in
      let enters : read_loop decode read at_end switch (suc (suc fuel)) len s len []
          ≡ round decode read at_end switch loop s len [] =
        rw (lt→ltb 0 len some, read_loop) in
      let turns : round decode read at_end switch loop s len [] ≡ loop s' (len - 0) [] =
        rw (bad, round) in
      enters
      ∙ turns
      ∙ (stops fuel len (len - 0) [] s' err_error e refl
          ∙ ap (λ k. ret (pos k) [] s') (omega arith))

  -- a length of which nothing is left as an `unsigned int`
  pub decompress_wraps :
      (s : Stream D S) (fuel len : ℕ)
      → s.err ≡ err_ok
      → decompress decode read at_end switch (suc fuel) s len 0 ≡ ret (pos len) [] s
  unfolding decompress
  decompress_wraps s fuel len e = by_err s.err e
    where
      by_err :
          (e : Err)
          → e ≡ err_ok
          → elim e [
            | err_eof ↦ ret (pos 0) [] s
            | err_error ↦ ret minus_one [] s
            | err_ok ↦ read_loop decode read at_end switch (suc fuel) len s 0 []
          ]
            ≡ ret (pos len) [] s
      by_err err_ok h =
          stops fuel len 0 [] s err_ok e refl ∙ ap (λ k. ret (pos k) [] s) (omega arith)
      by_err err_eof h = absurd (false≢true (ap is_ok h))
      by_err err_error h = absurd (false≢true (ap is_ok h))

  -- the parent's end, where that is taken for the end of the text
  pub decompress_end :
      (coder : D) (parent p : S) (bytes : Bytes) (since fuel len : ℕ)
      → let s : Stream D S = record {
        coder = coder;
        input = [];
        parent = parent;
        err = err_ok;
        sincelastend = since;
      } in
        0 < len
        → read parent 0 buff_size ≡ ret (pos 0) bytes p
        → ((u : Bool) → at_end since u ≡ so_far)
        → decompress decode read at_end switch (suc fuel) s len len
          ≡ ret (pos 0) [] (record s { parent = p })
  unfolding decompress read_loop refilled end_of_parent
  decompress_end coder parent p bytes since fuel len some over quiet =
      let s : Stream D S = record {
        coder = coder;
        input = [];
        parent = parent;
        err = err_ok;
        sincelastend = since;
      } in
      let s' : Stream D S = record s { parent = p } in
      let loop = read_loop decode read at_end switch fuel len in
      let enters : read_loop decode read at_end switch (suc fuel) len s len []
          ≡ refilled decode read at_end switch loop s len len [] (read parent 0 buff_size) =
        rw (lt→ltb 0 len some, read_loop) in
      let ends : end_of_parent decode read at_end switch s' len len [] so_far ≡ ret (pos 0) [] s' =
        ap (λ k. ret (pos k) [] s') (omega arith) in
      enters
      ∙ ap (refilled decode read at_end switch loop s len len []) over
      ∙ ap (end_of_parent decode read at_end switch s' len len []) (quiet (len == to_uint len))
      ∙ ends

  pub decompress_broken :
      (s : Stream D S) (fuel len room : ℕ)
      → s.err ≡ err_error
      → decompress decode read at_end switch fuel s len room ≡ ret minus_one [] s
  unfolding decompress
  decompress_broken s fuel len room e = by_err s.err e
    where
      by_err :
          (e : Err)
          → e ≡ err_error
          → elim e [
            | err_eof ↦ ret (pos 0) [] s
            | err_error ↦ ret minus_one [] s
            | err_ok ↦ read_loop decode read at_end switch fuel len s room []
          ]
            ≡ ret minus_one [] s
      by_err err_ok h = absurd (ok_not_error h)
      by_err err_eof h = absurd (eof_not_error h)
      by_err err_error h = refl
