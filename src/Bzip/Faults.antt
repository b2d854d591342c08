-- ===== src/Bzip/Faults.antt =====
-- `bz_read` at the end of a file that is cut short.
use wandio.Base.{ℕ, suc, ◌^◌, ◌<◌, ◌≡◌, ◌∙◌, ap, refl, [], pos, Bytes, arith}
use wandio.Reader.{Reply, ret}
use wandio.Codec.{err_ok, Code, Call, buff_size, to_uint}
use wandio.Codec.Read.{Stream, decompress}
use wandio.Codec.Read.Faults.{decompress_end}
use wandio.Bzip.{bz_switch, bz_at_end, bz_read}

module _ {D S : Type 0} (init : D) (bz_decompress : D → Bytes → ℕ → Call D Code)
    (read : S → ℕ → ℕ → Reply S) where
  -- Where all input is used and the parent is at its end, `bz_read` returns 0, as at the end of the
  -- text, in whatever state the decoder is, also in the midst of a stream.
  bz_read_cut :
      (coder : D) (parent p : S) (bytes : Bytes) (since fuel len : ℕ)
      → let s : Stream D S = record {
        coder = coder;
        input = [];
        parent = parent;
        err = err_ok;
        sincelastend = since;
      } in
        0 < len
        → len < 2 ^ 32
        → read parent 0 buff_size ≡ ret (pos 0) bytes p
        → bz_read init bz_decompress read (suc fuel) s len
          ≡ ret (pos 0) [] (record s { parent = p })
  unfolding bz_read
  bz_read_cut coder parent p bytes since fuel len some short over =
      let s : Stream D S = record {
        coder = coder;
        input = [];
        parent = parent;
        err = err_ok;
        sincelastend = since;
      } in
      let room : to_uint len ≡ len = omega arith in
      ap (decompress bz_decompress read bz_at_end (bz_switch init) (suc fuel) s len) room
      ∙ decompress_end bz_decompress read bz_at_end (bz_switch init) coder parent p bytes since fuel
          len some over (λ u. refl)
