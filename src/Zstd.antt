-- ===== src/Zstd.antt =====
-- lib/iow-zstd.c, the zstd writer. `ZSTD_compressStream` and `ZSTD_endStream` are parameters, and so is
-- the state that `ZSTD_initCStream` leaves.
pub mod Faults
mod Tests
use wandio.Base.{
  ℕ, zero, suc, Bool, true, false, [], ◌∷◌, Option, none, some, length, drop, ltb, if◌then◌else◌, ℤ,
  pos, negsuc, minus_one, Bytes,
}
use wandio.Writer.{Outcome, done, no_fuel}
use wandio.Codec.{Err, err_ok, err_eof, err_error, Call, buff_size}

-- `struct zstdw_t`; `set` tells whether `output_buffer` has been given a destination yet. Its
-- contents do not outlive a call.
pub record ZstdWriter (E W : Type 0) : Type 0 where
  pub coder : E
  pub child : W
  pub err : Err
  pub set : Bool

-- what is left of the writer and its child: closed, left open, or memory misused, or fuel used up
pub data Closed (W : Type 0) : Type 0 where
  destroyed left_open : W → Closed W
  misused out_of_fuel : Closed W

-- The library's calls: `compress_stream` tells whether it has failed, and `end_stream` how much is
-- left to be written, `none` where it has failed.
module _ {E W : Type 0} (compress_stream : E → Bytes → ℕ → Call E Bool)
    (end_stream : E → ℕ → Call E (Option ℕ)) (write : W → Bytes → ℤ × W) where
  -- `zstd_wopen` on a child that is not NULL
  pub zstd_wopen : E → Option W → Option (ZstdWriter E W)
  zstd_wopen e none = none
  zstd_wopen e (some w) = some (record { coder = e; child = w; err = err_ok; set = false })

  -- what the child returned
  child_wrote :
      (ZstdWriter E W → Bytes → Outcome (ZstdWriter E W))
      → ZstdWriter E W
      → Bytes
      → ℤ × W
      → Outcome (ZstdWriter E W)
  child_wrote continue s input (pos (suc k), w) = continue (record s { child = w }) input
  child_wrote continue s input (v, w) = done minus_one (record s { child = w; err = err_error })

  -- what the library returned
  compressed :
      (ZstdWriter E W → Bytes → Outcome (ZstdWriter E W))
      → ZstdWriter E W
      → Bytes
      → Call E Bool
      → Outcome (ZstdWriter E W)
  compressed continue s input c =
      let s' : ZstdWriter E W = record s { coder = c.next; set = true } in
      elim c.code [
        | true ↦ done minus_one (record s' { err = err_error })
        | false ↦ child_wrote continue s' (drop c.used input) (write s.child c.made)
      ]

  -- one round, with `input` left
  stream_round :
      (ZstdWriter E W → Bytes → Outcome (ZstdWriter E W))
      → ZstdWriter E W
      → Bytes
      → Outcome (ZstdWriter E W)
  stream_round continue s input =
      compressed continue s input (compress_stream s.coder input buff_size)

  -- the loop, on fuel, of a call with `len` bytes
  pub zstd_loop : ℕ → ℕ → ZstdWriter E W → Bytes → Outcome (ZstdWriter E W)
  zstd_loop zero len s input = no_fuel
  zstd_loop (suc fuel) len s [] = done (pos len) s
  zstd_loop (suc fuel) len s (x ∷ input) = stream_round (zstd_loop fuel len) s (x ∷ input)

  unfoldable pub zstd_wwrite : ℕ → ZstdWriter E W → Bytes → Outcome (ZstdWriter E W)
  zstd_wwrite fuel s buffer = elim s.err [
    | err_eof ↦ done (pos 0) s
    | err_error ↦ done minus_one s
    | err_ok ↦
        if ltb 0 (length buffer) then zstd_loop fuel (length buffer) s buffer else done (pos 0) s
  ]

  -- not implemented
  pub zstd_wflush : ZstdWriter E W → ℤ × ZstdWriter E W
  zstd_wflush s = (pos 0, s)

  end_loop : ℕ → E → W → Closed W
  end_loop zero e w = out_of_fuel
  end_loop (suc fuel) e w =
      let c = end_stream e buff_size in
      let w' = (write w c.made).1 in
      elim c.code [
        | none ↦ left_open w
        | some left ↦ elim left [ zero ↦ destroyed w' | suc _ ↦ end_loop fuel c.next w' ]
      ]

  -- The call of the library through an `output_buffer` that has not been set is a misuse of memory.
  pub zstd_wclose : ℕ → ZstdWriter E W → Closed W
  zstd_wclose fuel s = elim s.set [ false ↦ misused | true ↦ end_loop fuel s.coder s.child ]
