-- ===== src/Lzma.antt =====
-- lib/ior-lzma.c and lib/iow-lzma.c, the xz reader and writer. `lzma_code` is a parameter, and so is
-- the decoder that `lzma_auto_decoder` leaves, `none` where it fails.
pub mod Reads
pub mod Writes
mod Tests
use wandio.Base.{ℕ, Bool, true, false, [], Option, none, some, length, if◌then◌else◌, ℤ, pos, Bytes}
use wandio.Reader.{Reply}
use wandio.Codec.{err_ok, err_eof, err_error, Code, code_ok, code_end, code_error, Call}
use wandio.Writer.{Outcome, Sink}
use wandio.Codec.Write.{Deflater, compress}
use wandio.Codec.Close.{close_stream}
use wandio.Codec.Read.{Stream, AtEnd, ended, so_far, decompress}

module _ {D S : Type 0} where
  -- `lzma_open` on a parent that is not NULL, with a decoder
  abbrev pub opened : D → S → Stream D S
  opened d p = record { coder = d; input = []; parent = p; err = err_ok; sincelastend = 0 }

  pub lzma_open : Option D → Option S → Option (Stream D S)
  lzma_open decoder none = none
  lzma_open none (some p) = none
  lzma_open (some d) (some p) = some (opened d p)

  -- the `switch` behind `lzma_code`
  abbrev pub lzma_switch : Code → Stream D S → Stream D S
  lzma_switch code_ok s = record s { err = err_ok }
  lzma_switch code_end s = record s { err = err_eof }
  lzma_switch code_error s = record s { err = err_error }

-- `if (bytes_read == 0)`
abbrev pub lzma_at_end : ℕ → Bool → AtEnd
lzma_at_end since untouched = if untouched then ended else so_far

-- `lzma_read`, on fuel for its loop; `avail_out` is as wide as the length here.
unfoldable pub lzma_read :
    {D S : Type 0}
    → (D → Bytes → ℕ → Call D Code)
    → (S → ℕ → ℕ → Reply S)
    → ℕ
    → Stream D S
    → ℕ
    → Reply (Stream D S)
lzma_read lzma_code read fuel s len =
    decompress lzma_code read lzma_at_end lzma_switch fuel s len len

-- `case LZMA_OK` and `default`
abbrev pub run_code : Code → Code
run_code code_ok = code_ok
run_code z = code_error

-- `lzma_wclose` goes on
abbrev pub goes_on : Code → Bool
goes_on code_ok = true
goes_on z = false

-- The encoder is called with LZMA_RUN on an input, or with LZMA_FINISH on none.
module _ {E W : Type 0} (lzma_run : E → Bytes → ℕ → Call E Code) (lzma_finish : E → ℕ → Call E Code)
    (child : Sink W) where
  -- `lzma_wopen` on a child that is not NULL, with what `lzma_easy_encoder` leaves, `none` where it
  -- fails
  pub lzma_wopen : Option E → Option W → Option (Deflater E W)
  lzma_wopen encoder none = none
  lzma_wopen none (some w) = none
  lzma_wopen (some e) (some w) = some (record { coder = e; held = []; child = w; err = err_ok })

  abbrev pub code_run : E → Bytes → ℕ → Call E Code
  code_run e input room =
      let c = lzma_run e input room in
      record { used = c.used; made = c.made; code = run_code c.code; next = c.next }

  -- on fuel for its loop; `avail_in` is as wide as the length here
  unfoldable pub lzma_wwrite : ℕ → Deflater E W → Bytes → Outcome (Deflater E W)
  lzma_wwrite fuel s buffer = compress code_run child.write fuel s buffer (length buffer)

  -- not implemented
  pub lzma_wflush : Deflater E W → ℤ × Deflater E W
  lzma_wflush s = (pos 0, s)

  -- on fuel for its loop; what is left is the encoder and the child
  unfoldable pub lzma_wclose : ℕ → Deflater E W → Option (E × W)
  lzma_wclose fuel s = close_stream lzma_finish goes_on child.write fuel s
