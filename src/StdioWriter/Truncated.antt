-- ===== src/StdioWriter/Truncated.antt =====
-- Where `stdio_wwrite` does not take what it is handed: lengths that do not fit an `int`, by themselves
-- or with the bytes held, and writes
-- shorter than the bytes held.
use wandio.Base.{
  ℕ, suc, ◌+◌, ◌-◌, ◌%◌, ◌^◌, ◌≤◌, ◌<◌, ◌≡◌, ap, true, false, append-nil, min, length, drop,
  length-drop, take_of_length_le, leb, le→leb, lt→not_leb, le→ltb, ==_ne, pos, negsuc, Bytes, arith,
}
use wandio.StdioWriter.{
  Stdiow, to_int, Calls, offered, after_writev, copied, wwrite_loop, with_len, stdio_wwrite,
  min_write_size,
}
use wandio.Writer.{Outcome, done, aborted}
use wandio.StdioWriter.Written.{to_int_small}

module _ {F : Type 0} (sys : Calls F) (s : Stdiow F) (buffer : Bytes) where
  to_int_low : length buffer % 2 ^ 32 ≡ 0 → to_int (length buffer) ≡ pos 0
  unfolding to_int
  to_int_low h = rw h

  to_int_high :
      2 ^ 31 ≤ length buffer % 2 ^ 32
      → to_int (length buffer) ≡ negsuc (2 ^ 32 - 1 - length buffer % 2 ^ 32)
  unfolding to_int
  to_int_high h = rw (le→ltb (length buffer % 2 ^ 32) (2 ^ 31) h)

  -- the sum of what is held and handed over, where it does not fit an `int`
  to_int_over : (n : ℕ) → 2 ^ 31 ≤ n → n < 2 ^ 32 → to_int n ≡ negsuc (2 ^ 32 - 1 - n)
  unfolding to_int
  to_int_over n least below =
      let low : n % 2 ^ 32 ≡ n = omega arith in rw (low, le→ltb n (2 ^ 31) least)

  -- the copy beyond the end of the buffer
  stdio_wwrite_overrun :
      length s.held < min_write_size
      → length buffer < 2 ^ 31
      → 2 ^ 31 ≤ length s.held + length buffer
      → stdio_wwrite sys s buffer ≡ aborted
  unfolding stdio_wwrite with_len wwrite_loop copied
  stdio_wwrite_overrun few short over =
      let n = length buffer in
      rw (
        to_int_small n short,
        stdio_wwrite,
        take_of_length_le n buffer (omega arith),
        to_int_over (length s.held + n) over (omega arith),
        wwrite_loop,
        copied,
        take_of_length_le n buffer (omega arith),
        lt→not_leb (length s.held + n) min_write_size (omega arith),
      )

  -- The length is cut to an `int`. A length that is a multiple of 2^32 is reported as written, and
  -- nothing of it is written or held; one whose low 32 bits are a negative `int` fails an assertion.
  -- Where the length fits an `int` and its sum with the number of bytes held does not, the bytes are
  -- copied beyond the end of the buffer.
  pub stdio_wwrite_cut :
      length s.held < min_write_size
      → (length buffer % 2 ^ 32 ≡ 0 → stdio_wwrite sys s buffer ≡ done (pos (length buffer)) s)
        × (2 ^ 31 ≤ length buffer % 2 ^ 32 → stdio_wwrite sys s buffer ≡ aborted)
        × (length buffer < 2 ^ 31
            → 2 ^ 31 ≤ length s.held + length buffer
            → stdio_wwrite sys s buffer ≡ aborted)
  unfolding stdio_wwrite with_len wwrite_loop copied
  stdio_wwrite_cut few = (
    λ low.
        rw (to_int_low low, stdio_wwrite, sum, wwrite_loop, full, fits)
          (ap (λ h. done (pos (length buffer)) (record s { held = h })) (append-nil s.held)),
    λ high. rw (to_int_high high, stdio_wwrite),
    stdio_wwrite_overrun few,
  )
    where
      sum : to_int (length s.held + 0) ≡ pos (length s.held + 0)
      sum = to_int_small (length s.held + 0) (omega arith)

      full : leb min_write_size (length s.held + 0) ≡ false
      full = lt→not_leb min_write_size (length s.held + 0) (omega arith)

      fits : leb (length s.held + 0) min_write_size ≡ true
      fits = le→leb (length s.held + 0) min_write_size (omega arith)

  short_round :
      (continue : Bytes → Stdiow F → Outcome (Stdiow F)) (k : ℕ) (f : F)
      → k < length s.held
      → after_writev sys continue s buffer (pos k, f) ≡ aborted
  unfolding after_writev
  short_round continue k f few =
      let amount : min (length s.held) k ≡ k = omega arith in
      rw (
        amount,
        le→leb (k - k) (length buffer) (omega arith),
        ==_ne (length (drop k s.held)) 0 (omega (arith, length-drop k s.held)),
      )

  short_loop :
      (fuel k : ℕ) (f : F)
      → length s.held + length buffer < 2 ^ 31
      → min_write_size ≤ length s.held + length buffer
      → sys.writev s.file (offered sys (length s.held + length buffer) s.held buffer) ≡ (pos k, f)
      → k < length s.held
      → wwrite_loop sys (suc fuel) buffer s ≡ aborted
  unfolding wwrite_loop
  short_loop fuel k f fits enough wrote few =
      rw
        (
          to_int_small (length s.held + length buffer) fits,
          wwrite_loop,
          le→leb min_write_size (length s.held + length buffer) enough,
          wrote,
        )
        (short_round (wwrite_loop sys fuel) k f few)

  -- Where the system writes fewer bytes than were held, an assertion fails, though a short write is
  -- no error.
  stdio_wwrite_short :
      (k : ℕ) (f : F)
      → length s.held + length buffer < 2 ^ 31
      → min_write_size ≤ length s.held + length buffer
      → sys.writev s.file (offered sys (length s.held + length buffer) s.held buffer) ≡ (pos k, f)
      → k < length s.held
      → stdio_wwrite sys s buffer ≡ aborted
  unfolding stdio_wwrite with_len
  stdio_wwrite_short k f fits enough wrote few =
      let n = length buffer in
      rw (
        to_int_small n (omega arith),
        stdio_wwrite,
        take_of_length_le n buffer (omega arith),
        short_loop (length s.held + n) k f fits enough wrote few,
      )
