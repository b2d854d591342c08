-- ===== src/Lzma/Writes.antt =====
-- `lzma_wwrite` and `lzma_wclose`: what becomes of the bytes written.
use wandio.Writer.Contract.{TakesAll}
use wandio.Base.{ℕ, ◌+◌, ◌^◌, ◌<◌, ◌≡◌, refl, length, Bytes}
use wandio.Writer.{Sink, IsSink}
use wandio.Codec.{err_ok, Code, Call}
use wandio.Codec.Write.{Deflater}
use wandio.Codec.Write.Encoder.{IsEncoder}
use wandio.Codec.Write.Took.{Linked, Wrote, compress-Wrote}
use wandio.Codec.Close.Closed.{IsFinisher, AllWritten, close_stream-AllWritten}
use wandio.Lzma.{code_run, goes_on, lzma_wwrite, lzma_wclose}

module _ {E W : Type 0} (Valid : W → Type 0) (taken : W → Bytes) (fed emitted : E → Bytes)
    (lzma_run : E → Bytes → ℕ → Call E Code) (lzma_finish : E → ℕ → Call E Code)
    (child : Sink W) where
  -- With fewer than 2^32 bytes handed over, fuel for the encoder's bound and a child that keeps its
  -- contract, `lzma_wwrite` ends. Either it returns the length, all bytes are fed to the encoder, and
  -- all of the encoder's output is with the child or in the buffer; or the child has failed, the
  -- writer is in its error state, and the value tells how many bytes have been fed, or is -1 for none.
  pub lzma_wwrite-Wrote :
      (bound : E → Bytes → ℕ)
      → IsEncoder fed emitted bound (code_run lzma_run lzma_finish child)
      → IsSink Valid taken child.write
      → (s : Deflater E W) (buffer : Bytes) (fuel : ℕ) → length buffer < 2 ^ 32
      → Linked Valid taken fed emitted s
      → s.err ≡ err_ok
      → bound s.coder buffer + 1 < fuel
      → Wrote Valid taken fed emitted child.write
          (fed s.coder)
          buffer
          (lzma_wwrite lzma_run lzma_finish child fuel s buffer)
  unfolding lzma_wwrite
  lzma_wwrite-Wrote bound library sink s buffer fuel short ready e enough =
      compress-Wrote Valid taken fed emitted bound (code_run lzma_run lzma_finish child) child.write
        library sink (fed s.coder) buffer short s fuel (length buffer) refl ready e refl enough

  -- Over a child that takes all it is given, with fuel for what the encoder is still to make,
  -- `lzma_wclose` ends, the encoder has finished what it was fed, and the child has all of its output.
  pub lzma_wclose-AllWritten :
      (Finished : E → Type 0) (to_come : E → ℕ)
      → (library : IsFinisher fed emitted Finished to_come goes_on lzma_finish)
      → (all : TakesAll Valid taken child.write) → (s : Deflater E W) (fuel : ℕ)
      → Linked Valid taken fed emitted s
      → to_come s.coder + length s.held < fuel
      → AllWritten Valid taken fed emitted Finished to_come goes_on lzma_finish child.write library
          all
          (fed s.coder)
          (lzma_wclose lzma_run lzma_finish child fuel s)
  unfolding lzma_wclose
  lzma_wclose-AllWritten Finished to_come library all s fuel ready enough =
      close_stream-AllWritten Valid taken fed emitted Finished to_come goes_on lzma_finish
        child.write library all s fuel ready enough
