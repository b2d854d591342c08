-- ===== src/Zstd/Faults.antt =====
-- `zstd_wwrite` where the library keeps the input to itself.
use wandio.Base.{
  ℕ, zero, suc, ◌≡◌, ◌∙◌, ap, refl, Bool, true, false, [], ◌∷◌, Option, length, drop, ℤ, pos,
  negsuc, minus_one, Bytes, arith, lt→ltb, if◌then◌else◌,
}
use wandio.Writer.{Outcome, done, Accepted, IsSink}
use wandio.Codec.{err_ok, err_error, Call, buff_size}
use wandio.Zstd.{ZstdWriter, child_wrote, compressed, stream_round, zstd_loop, zstd_wwrite}

module _ {E W : Type 0} (Valid : W → Type 0) (taken : W → Bytes)
    (compress_stream : E → Bytes → ℕ → Call E Bool) (end_stream : E → ℕ → Call E (Option ℕ))
    (write : W → Bytes → ℤ × W) where
  -- a child that keeps its contract does not return a positive value for no bytes
  refused :
      (continue : ZstdWriter E W → Bytes → Outcome (ZstdWriter E W)) (s : ZstdWriter E W) (w : W)
      (input : Bytes) (r : ℤ × W)
      → Accepted Valid taken w [] r
      → child_wrote compress_stream end_stream write continue s input r
        ≡ done minus_one (record s { child = r.1; err = err_error })
  unfolding child_wrote
  refused continue s w input (pos zero, w') h = refl
  refused continue s w input (pos (suc k), w') h = absurd (omega (arith, h.0))
  refused continue s w input (negsuc e, w') h = refl

  -- Over a child that keeps its contract: where the library takes input without an error and makes no
  -- output yet, as it may with less than a block, `zstd_wwrite` takes the 0 that the child returns for
  -- no bytes for a failure: it returns -1, and the writer is in its error state.
  pub zstd_wwrite_buffered :
      IsSink Valid taken write
      → (coder next : E) (child : W) (set : Bool) (x : ℕ) (input : Bytes) (used fuel : ℕ)
      → Valid child
      → compress_stream coder (x ∷ input) buff_size
        ≡ record { used = used; made = []; code = false; next = next }
      → zstd_wwrite compress_stream end_stream write
          (suc fuel)
          (record { coder = coder; child = child; err = err_ok; set = set })
          (x ∷ input)
        ≡ done minus_one
            (record { coder = next; child = (write child []).1; err = err_error; set = true })
  unfolding zstd_wwrite zstd_loop stream_round compressed
  zstd_wwrite_buffered sink coder next child set x input used fuel good keeps =
      let go_on = zstd_loop compress_stream end_stream write fuel (length (x ∷ input)) in
      let go_on' : ZstdWriter E W → Outcome (ZstdWriter E W) = λ s.
        zstd_loop compress_stream end_stream write (suc fuel) (length (x ∷ input)) s (x ∷ input) in
      let s' : ZstdWriter E W = record { coder = next; child = child; err = err_ok; set = true } in
      let s : ZstdWriter E W = record { coder = coder; child = child; err = err_ok; set = set } in
      ap (λ z. if z then go_on' s else done (pos 0) s) (lt→ltb 0 (length (x ∷ input)) (omega arith))
      ∙ ap (compressed compress_stream end_stream write go_on s (x ∷ input)) keeps
      ∙ refused go_on s' child (drop used (x ∷ input)) (write child []) (sink.accepts child [] good)
