-- ===== src/Codec/Write.antt =====
-- The loop of `zlib_wwrite`, `bz_wwrite` and `lzma_wwrite`, which differ in the names of the return
-- codes alone.
pub mod Encoder
pub mod Took
use wandio.Base.{
  ℕ, zero, suc, ◌+◌, ◌-◌, Bool, true, false, not, ◌&&◌, [], ◌∷◌, ◌++◌, length, take, drop, ltb, leb,
  ◌==◌, if◌then◌else◌, ℤ, pos, negsuc, minus_one, Bytes,
}
use wandio.Writer.{Outcome, done, aborted, no_fuel}
use wandio.Codec.{
  Err, err_ok, err_eof, err_error, is_ok, Code, code_ok, code_end, code_error, Call, buff_size,
  to_uint,
}

-- `struct zlibw_t`, `struct bzw_t`, `struct lzmaw_t`: `held` is the bytes in `outbuff`, of which
-- `avail_out` bytes are left
pub record Deflater (E W : Type 0) : Type 0 where
  pub coder : E
  pub held : Bytes
  pub child : W
  pub err : Err

-- `avail_out`
abbrev pub space : Bytes → ℕ
space held = buff_size - length held

-- the `switch` behind the call of the library
abbrev pub code_err : Code → Err
code_err code_ok = err_ok
code_err code = err_error

module _ {E W : Type 0} (encode : E → Bytes → ℕ → Call E Code) (write : W → Bytes → ℤ × W) where
  -- `Decompress some data into the output buffer`, with `input` at `next_in`
  deflate_round :
      (Deflater E W → Bytes → Outcome (Deflater E W))
      → Deflater E W
      → Bytes
      → Outcome (Deflater E W)
  deflate_round continue s input =
      let c = encode s.coder input (space s.held) in
      continue (record s { coder = c.next; held = s.held ++ c.made; err = code_err c.code })
        (drop c.used input)

  -- what the child returned for a full `outbuff`, of a call with `len` bytes
  emptied :
      (Deflater E W → Bytes → Outcome (Deflater E W))
      → Deflater E W
      → ℕ
      → Bytes
      → ℤ × W
      → Outcome (Deflater E W)
  emptied continue s len input (pos (suc k), w) =
      deflate_round continue (record s { child = w; held = [] }) input
  emptied continue s len input (v, w) =
      let s' = record s { child = w; err = err_error } in
      if not (length input == to_uint len)
      then done (pos (len - length input)) s'
      else done minus_one s'

  -- The loop, on fuel. The inner `while (avail_out <= 0)` has one round at most.
  pub write_loop : ℕ → ℕ → Deflater E W → Bytes → Outcome (Deflater E W)
  write_loop zero len s input = no_fuel
  write_loop (suc fuel) len s input = elim (is_ok s.err && ltb 0 (length input)) [
    | false ↦ done (pos (len - length input)) s
    | true ↦ elim (leb buff_size (length s.held)) [
      | true ↦ emptied (write_loop fuel len) s len input (write s.child s.held)
      | false ↦ deflate_round (write_loop fuel len) s input
    ]
  ]

  -- The whole function on `buffer`, of which the first `avail` bytes are the stream's `avail_in`.
  pub compress : ℕ → Deflater E W → Bytes → ℕ → Outcome (Deflater E W)
  compress fuel s buffer avail = elim s.err [
    | err_eof ↦ done (pos 0) s
    | err_error ↦ done minus_one s
    | err_ok ↦ write_loop fuel (length buffer) s (take avail buffer)
  ]
