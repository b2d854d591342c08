-- ===== src/Zlib.antt =====
-- lib/ior-zlib.c and lib/iow-zlib.c, the gzip reader and writer. `inflate` and `deflate` are
-- parameters, and so is the state that `inflateInit2` leaves.
pub mod Reads
pub mod Faults
pub mod Writes
pub mod RoundTrip
mod Tests
use wandio.Base.{
  ℕ, Bool, true, false, [], ◌++◌, Option, none, some, length, ltb, if◌then◌else◌, ℤ, pos, negsuc,
  minus_one, Bytes,
}
use wandio.Reader.{Reply}
use wandio.Codec.{
  Err, err_ok, err_eof, err_error, Code, code_ok, code_end, code_error, Call, to_uint,
}
use wandio.Writer.{Outcome, Sink}
use wandio.Codec.Write.{Deflater, space, compress}
use wandio.Codec.Close.{close_stream}
use wandio.Codec.Read.{Stream, AtEnd, unexpected, ended, so_far, decompress}

module _ {D S : Type 0} (init : D) where
  -- `zlib_open` on a parent that is not NULL
  abbrev pub opened : S → Stream D S
  opened p = record { coder = init; input = []; parent = p; err = err_ok; sincelastend = 1 }

  pub zlib_open : Option S → Option (Stream D S)
  zlib_open none = none
  zlib_open (some p) = some (opened p)

  -- the `switch` behind `inflate`
  abbrev pub zlib_switch : Code → Stream D S → Stream D S
  zlib_switch code_ok s = record s { err = err_ok }
  zlib_switch code_end s = record s { coder = init; err = err_ok; sincelastend = 0 }
  zlib_switch code_error s = record s { err = err_error }

-- `if (bytes_read == 0)`: the file is cut short where bytes were read since the last end
abbrev pub zlib_at_end : ℕ → Bool → AtEnd
zlib_at_end since untouched =
    if ltb 0 since then unexpected else if untouched then ended else so_far

-- `zlib_read`, on fuel for its loop. The address of the buffer does not matter.
unfoldable pub zlib_read :
    {D S : Type 0}
    → D
    → (D → Bytes → ℕ → Call D Code)
    → (S → ℕ → ℕ → Reply S)
    → ℕ
    → Stream D S
    → ℕ
    → Reply (Stream D S)
zlib_read init inflate read fuel s len =
    decompress inflate read zlib_at_end (zlib_switch init) fuel s len (to_uint len)

-- the flush argument of `deflate`, and its return codes as the writer tells them apart
pub data Flush : Type 0 where
  z_no_flush z_sync_flush z_finish : Flush

pub data Returned : Type 0 where
  z_ok z_stream_end z_stream_error z_other : Returned

-- `case Z_OK` and `default`
abbrev pub run_code : Returned → Code
run_code z_ok = code_ok
run_code z = code_error

-- `zlib_wclose` goes on
abbrev pub goes_on : Returned → Bool
goes_on z_stream_end = false
goes_on z_stream_error = false
goes_on z = true

module _ {E W : Type 0} (deflate : E → Bytes → Flush → ℕ → Call E Returned) (child : Sink W) where
  -- `zlib_wopen` on a child that is not NULL; `e` is what `deflateInit2` leaves
  pub zlib_wopen : E → Option W → Option (Deflater E W)
  zlib_wopen e none = none
  zlib_wopen e (some w) = some (record { coder = e; held = []; child = w; err = err_ok })

  abbrev pub deflate_run : E → Bytes → ℕ → Call E Code
  deflate_run e input room =
      let c = deflate e input z_no_flush room in
      record { used = c.used; made = c.made; code = run_code c.code; next = c.next }

  abbrev pub deflate_finish : E → ℕ → Call E Returned
  deflate_finish e room = deflate e [] z_finish room

  -- on fuel for its loop
  unfoldable pub zlib_wwrite : ℕ → Deflater E W → Bytes → Outcome (Deflater E W)
  zlib_wwrite fuel s buffer =
      compress deflate_run child.write fuel s buffer (to_uint (length buffer))

  -- the flush of the child, behind a write that returned a value that is not negative
  child_flushed : Deflater E W → ℤ × W → ℤ × Deflater E W
  child_flushed s (negsuc e, w) = (negsuc e, record s { child = w; err = err_error })
  child_flushed s (pos v, w) = (pos v, record s { child = w; held = [] })

  child_written : Deflater E W → ℤ × W → ℤ × Deflater E W
  child_written s (negsuc e, w) = (negsuc e, record s { child = w; err = err_error })
  child_written s (pos v, w) = child_flushed s (child.flush w)

  -- with no input left: the writer is flushed between writes that have used theirs
  pub zlib_wflush : Deflater E W → ℤ × Deflater E W
  zlib_wflush s =
      let c = deflate s.coder [] z_sync_flush (space s.held) in
      let s' : Deflater E W = record s { coder = c.next; held = s.held ++ c.made } in
      elim c.code [
        | z_stream_error ↦ (minus_one, record s' { err = err_error })
        | _ ↦ child_written s' (child.write s'.child s'.held)
      ]

  -- on fuel for its loop; what is left is the encoder and the child
  unfoldable pub zlib_wclose : ℕ → Deflater E W → Option (E × W)
  zlib_wclose fuel s = close_stream deflate_finish goes_on child.write fuel s
