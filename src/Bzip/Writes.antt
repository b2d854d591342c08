-- ===== src/Bzip/Writes.antt =====
-- `bz_wwrite` and `bz_wclose`: what becomes of the bytes written.
use wandio.Writer.Contract.{TakesAll}
use wandio.Base.{
  ℕ, suc, ◌+◌, ◌^◌, ◌<◌, ◌≡◌, ◌≢◌, ◌∙◌, sym, ap, refl, false, ◌++◌, append_assoc, some, length,
  Bytes, arith,
}
use wandio.Writer.{Sink, IsSink}
use wandio.Codec.{err_ok, Call, to_uint}
use wandio.Codec.Write.{Deflater, space}
use wandio.Codec.Write.Encoder.{IsEncoder}
use wandio.Codec.Write.Took.{Linked, Wrote, compress-Wrote}
use wandio.Codec.Close.Closed.{close_once}
use wandio.Bzip.{
  Action, Returned, bz_ok, bz_run_ok, bz_flush_ok, bz_finish_ok, bz_stream_end, bz_error,
  compress_run, compress_finish, goes_on, bz_wwrite, bz_wclose,
}

module _ {E W : Type 0} (Valid : W → Type 0) (taken : W → Bytes) (fed emitted : E → Bytes)
    (bz_compress : E → Bytes → Action → ℕ → Call E Returned) (child : Sink W) where
  -- With fewer than 2^32 bytes handed over, fuel for the encoder's bound and a child that keeps its
  -- contract, `bz_wwrite` ends. Either it returns the length, all bytes are fed to the encoder, and
  -- all of the encoder's output is with the child or in the buffer; or the child has failed, the
  -- writer is in its error state, and the value tells how many bytes have been fed, or is -1 for none.
  pub bz_wwrite-Wrote :
      (bound : E → Bytes → ℕ)
      → IsEncoder fed emitted bound (compress_run bz_compress child)
      → IsSink Valid taken child.write
      → (s : Deflater E W) (buffer : Bytes) (fuel : ℕ) → length buffer < 2 ^ 32
      → Linked Valid taken fed emitted s
      → s.err ≡ err_ok
      → bound s.coder buffer + 1 < fuel
      → Wrote Valid taken fed emitted child.write
          (fed s.coder)
          buffer
          (bz_wwrite bz_compress child fuel s buffer)
  unfolding bz_wwrite
  bz_wwrite-Wrote bound library sink s buffer fuel short ready e enough =
      compress-Wrote Valid taken fed emitted bound (compress_run bz_compress child) child.write
        library sink (fed s.coder) buffer short s fuel (to_uint (length buffer)) (omega arith) ready
        e refl enough

  not_again : (z : Returned) → z ≢ bz_ok → goes_on z ≡ false
  not_again bz_ok h = absurd (h refl)
  not_again bz_run_ok h = refl
  not_again bz_flush_ok h = refl
  not_again bz_finish_ok h = refl
  not_again bz_stream_end h = refl
  not_again bz_error h = refl

  -- Where the first finishing call returns anything but BZ_OK, also BZ_FINISH_OK, by which the library
  -- asks to be called again, `bz_wclose` calls it no more: over a child that takes all it is given,
  -- the file ends with what this one call has made.
  pub bz_wclose_once :
      TakesAll Valid taken child.write
      → ((e : E) (room : ℕ)
          → let c = compress_finish bz_compress child e room in
            emitted c.next ≡ emitted e ++ c.made)
      → (s : Deflater E W) (fuel : ℕ) → Linked Valid taken fed emitted s
      → let c = compress_finish bz_compress child s.coder (space s.held) in
        c.code ≢ bz_ok
        → (w : W) × (bz_wclose bz_compress child (suc fuel) s ≡ some (c.next, w))
          × (taken w ≡ emitted c.next)
  unfolding bz_wclose
  bz_wclose_once all emits s fuel ready stops =
      let finish = compress_finish bz_compress child in
      let c = finish s.coder (space s.held) in
      let held = s.held ++ c.made in
      (
        (child.write s.child held).1,
        close_once finish goes_on child.write s fuel (not_again c.code stops),
        (all.takes s.child held ready.child).1
            ∙ sym (append_assoc (taken s.child) s.held c.made)
            ∙ ap (λ z. z ++ c.made) (sym ready.linked)
            ∙ sym (emits s.coder (space s.held)),
      )
