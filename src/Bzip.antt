-- ===== src/Bzip.antt =====
-- lib/ior-bzip.c and lib/iow-bzip.c, the bzip2 reader and writer. `BZ2_bzDecompress` and
-- `BZ2_bzCompress` are parameters, and so is the state that `BZ2_bzDecompressInit` leaves.
pub mod Reads
pub mod Faults
pub mod Writes
mod Tests
use wandio.Base.{ℕ, Bool, true, false, [], Option, none, some, length, ℤ, minus_one, Bytes}
use wandio.Reader.{Reply}
use wandio.Codec.{err_ok, err_error, Code, code_ok, code_end, code_error, Call, to_uint}
use wandio.Writer.{Outcome, Sink}
use wandio.Codec.Write.{Deflater, compress}
use wandio.Codec.Close.{close_stream}
use wandio.Codec.Read.{Stream, AtEnd, so_far, decompress}

module _ {D S : Type 0} (init : D) where
  -- `bz_open` on a parent that is not NULL
  abbrev pub opened : S → Stream D S
  opened p = record { coder = init; input = []; parent = p; err = err_ok; sincelastend = 0 }

  pub bz_open : Option S → Option (Stream D S)
  bz_open none = none
  bz_open (some p) = some (opened p)

  -- the `switch` behind `BZ2_bzDecompress`
  abbrev pub bz_switch : Code → Stream D S → Stream D S
  bz_switch code_ok s = record s { err = err_ok }
  bz_switch code_end s = record s { coder = init }
  bz_switch code_error s = record s { err = err_error }

-- `if (bytes_read == 0)`
abbrev pub bz_at_end : ℕ → Bool → AtEnd
bz_at_end since untouched = so_far

-- `bz_read`, on fuel for its loop. The address of the buffer does not matter.
unfoldable pub bz_read :
    {D S : Type 0}
    → D
    → (D → Bytes → ℕ → Call D Code)
    → (S → ℕ → ℕ → Reply S)
    → ℕ
    → Stream D S
    → ℕ
    → Reply (Stream D S)
bz_read init bz_decompress read fuel s len =
    decompress bz_decompress read bz_at_end (bz_switch init) fuel s len (to_uint len)

-- the action of `BZ2_bzCompress`, and its return codes
pub data Action : Type 0 where
  bz_run bz_finish : Action

pub data Returned : Type 0 where
  bz_ok bz_run_ok bz_flush_ok bz_finish_ok bz_stream_end bz_error : Returned

-- `case BZ_RUN_OK`, `case BZ_OK` and `default`
abbrev pub run_code : Returned → Code
run_code bz_ok = code_ok
run_code bz_run_ok = code_ok
run_code z = code_error

-- `bz_wclose` goes on
abbrev pub goes_on : Returned → Bool
goes_on bz_ok = true
goes_on z = false

module _ {E W : Type 0} (bz_compress : E → Bytes → Action → ℕ → Call E Returned)
    (child : Sink W) where
  -- `bz_wopen` on a child that is not NULL; `e` is what `BZ2_bzCompressInit` leaves
  pub bz_wopen : E → Option W → Option (Deflater E W)
  bz_wopen e none = none
  bz_wopen e (some w) = some (record { coder = e; held = []; child = w; err = err_ok })

  abbrev pub compress_run : E → Bytes → ℕ → Call E Code
  compress_run e input room =
      let c = bz_compress e input bz_run room in
      record { used = c.used; made = c.made; code = run_code c.code; next = c.next }

  abbrev pub compress_finish : E → ℕ → Call E Returned
  compress_finish e room = bz_compress e [] bz_finish room

  -- on fuel for its loop
  unfoldable pub bz_wwrite : ℕ → Deflater E W → Bytes → Outcome (Deflater E W)
  bz_wwrite fuel s buffer =
      compress compress_run child.write fuel s buffer (to_uint (length buffer))

  -- not implemented
  pub bz_wflush : Deflater E W → ℤ × Deflater E W
  bz_wflush s = (minus_one, s)

  -- on fuel for its loop; what is left is the encoder and the child
  unfoldable pub bz_wclose : ℕ → Deflater E W → Option (E × W)
  bz_wclose fuel s = close_stream compress_finish goes_on child.write fuel s
