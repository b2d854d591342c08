-- ===== src/Lz4.antt =====
-- lib/iow-lz4.c, the lz4 writer, with liblz4 built in; its functions are parameters. What the child
-- returns is taken to fit the `int` that it is stored in.
pub mod Pieces
mod Tests
use wandio.Base.{
  ℕ, zero, suc, ◌+◌, ◌-◌, ◌*◌, ◌^◌, min, Bool, true, false, [], Option, none, some, length, slice,
  ltb, leb, ◌==◌, ◌++◌, if◌then◌else◌, ℤ, pos, negsuc, minus_one, Bytes,
}
use wandio.Writer.{Outcome, done, aborted, no_fuel, Sink}
use wandio.Codec.{Err, err_ok, err_eof, err_error}

-- sizeof(outbuf), and `outbuf_size_max`
abbrev pub out_size : ℕ
out_size = 1024 * 1024 * 2

abbrev pub piece_size : ℕ
piece_size = 1024 * 1024

-- `struct lz4w_t`: `held` is the bytes of `outbuf` up to `outbuf_index`
pub record Lz4Writer (E W : Type 0) : Type 0 where
  pub coder : E
  pub held : Bytes
  pub child : W
  pub err : Err

-- LZ4F_createCompressionContext with LZ4F_compressBegin, which leave a context and the frame's header
-- or fail; LZ4F_compressBound; and LZ4F_compressUpdate, LZ4F_flush and LZ4F_compressEnd with so much
-- room, `none` where LZ4F_isError says so.
pub record Lz4 (E : Type 0) : Type 0 where
  pub begin : Option (E × Bytes)
  pub compress_bound : ℕ → ℕ
  pub compress_update : E → Bytes → ℕ → Option Bytes × E
  pub flush : E → ℕ → Option Bytes × E
  pub compress_end : E → ℕ → Option Bytes × E

module _ {E W : Type 0} (lib : Lz4 E) (child : Sink W) where
  pub lz4_wopen : Option W → Option (Lz4Writer E W)
  lz4_wopen none = none
  lz4_wopen (some w) = elim lib.begin [
    | none ↦ none
    | some (e, header) ↦ some (record { coder = e; held = header; child = w; err = err_ok })
  ]

  -- The rest of a round behind LZ4F_compressUpdate, with `index` the `inbuf_index` of the piece in a
  -- call with `len` bytes. Output beyond the buffer is a misuse of memory, and so is taken an overflow
  -- of the `int` that `inbuf_index` is.
  piece_updated :
      (Lz4Writer E W → ℕ → Outcome (Lz4Writer E W))
      → Lz4Writer E W
      → ℕ
      → ℕ
      → ℕ
      → Option Bytes × E
      → Outcome (Lz4Writer E W)
  piece_updated continue s size index len (none, e) = done minus_one (record s { coder = e })
  piece_updated continue s size index len (some made, e) =
      let s' : Lz4Writer E W = record s { coder = e; held = s.held ++ made } in
      if ltb out_size (length s.held + length made)
      then aborted
      else if leb (2 ^ 31) (index + size)
      then aborted
      else if leb len (index + size)
      then done (pos size) s'
      else continue s' (index + size)

  -- the round from the test of the upper bound against the whole buffer on
  update_piece :
      (Lz4Writer E W → ℕ → Outcome (Lz4Writer E W))
      → Lz4Writer E W
      → Bytes
      → ℕ
      → ℕ
      → Outcome (Lz4Writer E W)
  update_piece continue s piece index len =
      if ltb out_size (lib.compress_bound (length piece))
      then done minus_one s
      else piece_updated continue s (length piece) index len
          (lib.compress_update s.coder piece (out_size - length s.held))

  -- what the child returned for the bytes held
  held_written :
      (Lz4Writer E W → Outcome (Lz4Writer E W)) → Lz4Writer E W → ℤ × W → Outcome (Lz4Writer E W)
  held_written continue s (pos (suc k), w) =
      if suc k == length s.held then continue (record s { child = w; held = [] }) else aborted
  held_written continue s (v, w) = done minus_one (record s { child = w; err = err_error })

  -- the piece at `index`
  abbrev pub piece_at : Bytes → ℕ → Bytes
  piece_at buffer index = slice buffer index (min piece_size (length buffer - index))

  -- the loop, on fuel
  pub lz4_loop : ℕ → Bytes → Lz4Writer E W → ℕ → Outcome (Lz4Writer E W)
  unfolding held_written update_piece piece_updated
  lz4_loop zero buffer s index = no_fuel
  lz4_loop (suc fuel) buffer s index =
      let piece = piece_at buffer index in
      elim (ltb (out_size - length s.held) (lib.compress_bound (length piece))) [
        | true ↦
            held_written (λ s'. update_piece (lz4_loop fuel buffer) s' piece index (length buffer))
              s (child.write s.child s.held)
        | false ↦ update_piece (lz4_loop fuel buffer) s piece index (length buffer)
      ]

  -- Each round takes a byte at least.
  unfoldable pub lz4_wwrite : Lz4Writer E W → Bytes → Outcome (Lz4Writer E W)
  lz4_wwrite s buffer = elim s.err [
    | err_eof ↦ done (pos 0) s
    | err_error ↦ done minus_one s
    | err_ok ↦ if ltb 0 (length buffer) then lz4_loop (length buffer) buffer s 0 else done (pos 0) s
  ]

  -- the end of a flush, on what the child's flush returned
  child_flush : Lz4Writer E W → ℤ × W → Outcome (Lz4Writer E W)
  child_flush s (negsuc e, w) = done (negsuc e) (record s { child = w; err = err_error })
  child_flush s (pos v, w) = done (pos 0) (record s { child = w })

  -- what LZ4F_flush made, in front of the child's flush
  flush_made : Lz4Writer E W → Option Bytes × E → Outcome (Lz4Writer E W)
  unfolding held_written child_flush
  flush_made s (none, e) = done minus_one (record s { coder = e })
  flush_made s (some made, e) =
      let go_on : Lz4Writer E W → Outcome (Lz4Writer E W) =
        λ s'. child_flush s' (child.flush s'.child) in
      let s' : Lz4Writer E W = record s { coder = e } in
      if ltb 0 (length made)
      then held_written go_on (record s' { held = made }) (child.write s.child made)
      else go_on s'

  -- what the child returned for the bytes held, where 0 is no error
  held_flushed : Lz4Writer E W → ℤ × W → Outcome (Lz4Writer E W)
  unfolding flush_made
  held_flushed s (negsuc e, w) = done minus_one (record s { child = w; err = err_error })
  held_flushed s (pos k, w) =
      if k == length s.held
      then flush_made (record s { child = w; held = [] }) (lib.flush s.coder out_size)
      else aborted

  unfoldable pub lz4_wflush : Lz4Writer E W → Outcome (Lz4Writer E W)
  unfolding held_flushed
  lz4_wflush s = held_flushed s (child.write s.child s.held)

  -- LZ4F_compressEnd and the write of what it made: where it fails, its error code is the length of the
  -- write, which is a misuse of memory. What the write returns is not used.
  ended : Lz4Writer E W → Option Bytes × E → Option W
  ended s (none, e) = none
  ended s (some made, e) = some (child.write s.child made).1

  -- the child as it is closed, `none` where an assertion fails or memory is misused
  unfoldable pub lz4_wclose : Lz4Writer E W → Option W
  unfolding ended lz4_wflush
  lz4_wclose s = elim (lz4_wflush s) [
    | done v s' ↦ ended s' (lib.compress_end s'.coder out_size)
    | _ ↦ none
  ]
