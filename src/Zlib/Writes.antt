-- ===== src/Zlib/Writes.antt =====
-- `zlib_wwrite`, `zlib_wflush` and `zlib_wclose`: what becomes of the bytes written.
use wandio.Base.{ℕ, ◌+◌, ◌^◌, ◌<◌, ◌≡◌, refl, length, Bytes, arith}
use wandio.Writer.{Sink, IsSink}
use wandio.Codec.{err_ok, Call, to_uint}
use wandio.Codec.Write.{Deflater}
use wandio.Codec.Write.Encoder.{IsEncoder}
use wandio.Codec.Write.Took.{Linked, Wrote, compress-Wrote}
use wandio.Zlib.{Flush, Returned, deflate_run, zlib_wwrite}

module _ {E W : Type 0} (Valid : W → Type 0) (taken : W → Bytes) (fed emitted : E → Bytes)
    (deflate : E → Bytes → Flush → ℕ → Call E Returned) (child : Sink W) where
  -- With fewer than 2^32 bytes handed over, fuel for the encoder's bound and a child that keeps its
  -- contract, `zlib_wwrite` ends. Either it returns the length, all bytes are fed to the encoder, and
  -- all of the encoder's output is with the child or in the buffer; or the child has failed, the
  -- writer is in its error state, and the value tells how many bytes have been fed, or is -1 for none.
  pub zlib_wwrite-Wrote :
      (bound : E → Bytes → ℕ)
      → IsEncoder fed emitted bound (deflate_run deflate child)
      → IsSink Valid taken child.write
      → (s : Deflater E W) (buffer : Bytes) (fuel : ℕ) → length buffer < 2 ^ 32
      → Linked Valid taken fed emitted s
      → s.err ≡ err_ok
      → bound s.coder buffer + 1 < fuel
      → Wrote Valid taken fed emitted child.write
          (fed s.coder)
          buffer
          (zlib_wwrite deflate child fuel s buffer)
  unfolding zlib_wwrite
  zlib_wwrite-Wrote bound library sink s buffer fuel short ready e enough =
      compress-Wrote Valid taken fed emitted bound (deflate_run deflate child) child.write library
        sink (fed s.coder) buffer short s fuel (to_uint (length buffer)) (omega arith) ready e refl
        enough
