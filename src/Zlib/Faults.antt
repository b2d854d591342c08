-- ===== src/Zlib/Faults.antt =====
-- `zlib_read` on corrupt data and on lengths that do not fit.
use wandio.Base.{
  ℕ, suc, ◌*◌, ◌^◌, ◌<◌, ◌≡◌, ◌∙◌, ap, refl, [], ◌∷◌, drop, pos, minus_one, Bytes, arith,
}
use wandio.Reader.{Reply, ret}
use wandio.Codec.{err_ok, err_error, Code, code_error, Call, to_uint}
use wandio.Codec.Read.{Stream, decompress}
use wandio.Codec.Read.Faults.{read_loop_corrupt, decompress_wraps, decompress_broken}
use wandio.Zlib.{zlib_switch, zlib_at_end, zlib_read}

module _ {D S : Type 0} (init : D) (inflate : D → Bytes → ℕ → Call D Code)
    (read : S → ℕ → ℕ → Reply S) where
  -- Where `inflate` reports an error on the data at hand and has made no bytes, the read returns 0,
  -- as at the end of the file. Only a read after it returns -1.
  pub zlib_read_corrupt :
      (coder next : D) (x : ℕ) (input : Bytes) (parent : S) (since used fuel len later n : ℕ)
      → let s : Stream D S = record {
        coder = coder;
        input = x ∷ input;
        parent = parent;
        err = err_ok;
        sincelastend = since;
      } in
        0 < len
        → len < 2 ^ 32
        → inflate coder (x ∷ input) len
          ≡ record { used = used; made = []; code = code_error; next = next }
        → (s' : Stream D S) × (zlib_read init inflate read (suc (suc fuel)) s len
            ≡ ret (pos 0) [] s')
          × (zlib_read init inflate read later s' n ≡ ret minus_one [] s')
  unfolding zlib_read
  zlib_read_corrupt coder next x input parent since used fuel len later n some short bad =
      let s : Stream D S = record {
        coder = coder;
        input = x ∷ input;
        parent = parent;
        err = err_ok;
        sincelastend = since;
      } in
      let s' : Stream D S = record s {
        coder = next;
        input = drop used (x ∷ input);
        err = err_error;
      } in
      let room : to_uint len ≡ len = omega arith in
      (
        s',
        ap (decompress inflate read zlib_at_end (zlib_switch init) (suc (suc fuel)) s len) room
            ∙ read_loop_corrupt inflate read zlib_at_end (zlib_switch init) coder next x input
                parent since used fuel len some bad refl,
        decompress_broken inflate read zlib_at_end (zlib_switch init) s' later n (to_uint n) refl,
      )

  -- A read of a positive multiple of 2^32 bytes returns its length as if all were read, and stores
  -- nothing.
  zlib_read_wraps :
      (s : Stream D S) (fuel k : ℕ)
      → s.err ≡ err_ok
      → zlib_read init inflate read (suc fuel) s (k * 2 ^ 32) ≡ ret (pos (k * 2 ^ 32)) [] s
  unfolding zlib_read
  zlib_read_wraps s fuel k e =
      let len = k * 2 ^ 32 in
      let room : to_uint len ≡ 0 = omega arith in
      ap (decompress inflate read zlib_at_end (zlib_switch init) (suc fuel) s len) room
      ∙ decompress_wraps inflate read zlib_at_end (zlib_switch init) s fuel len e
