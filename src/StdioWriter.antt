-- ===== src/StdioWriter.antt =====
-- lib/iow-stdio.c, the writer that collects a file's bytes to blocks of 4096.
pub mod Written
pub mod Truncated
pub mod Open
mod Tests
use wandio.Base.{
  ℕ, zero, suc, ◌+◌, ◌-◌, ◌%◌, ◌^◌, Bool, true, false, not, ◌&&◌, ◌||◌, List, [], ◌∷◌, ◌++◌, Option,
  none, some, min, length, take, drop, ltb, leb, ◌==◌, if◌then◌else◌, ℤ, pos, negsuc, minus_one,
  Bytes, codes, str_eq,
}
use wandio.Writer.{Outcome, done, aborted, no_fuel}

-- MIN_WRITE_SIZE
abbrev pub min_write_size : ℕ
min_write_size = 4096

-- `struct stdiow_t`: the bytes of `buffer` up to `offset`, and the open file behind `fd`
pub record Stdiow (F : Type 0) : Type 0 where
  pub held : Bytes
  pub file : F

-- an `int64_t` length as an `int`: its low 32 bits, in two's complement
pub to_int : ℕ → ℤ
to_int n = let low = n % 2 ^ 32 in if ltb low (2 ^ 31) then pos low else negsuc (2 ^ 32 - 1 - low)

-- The system calls. `writev` and `write` are given the bytes of their buffers in order; they return
-- a count or -1. `set_buffered` is what `fcntl` does to turn O_DIRECT off, `none` where it fails.
pub record Calls (F : Type 0) : Type 0 where
  pub writev : F → Bytes → ℤ × F
  pub set_buffered : F → Option F

module _ {F : Type 0} (sys : Calls F) where
  -- the bytes that one round of the loop hands to `writev`: as many as make whole blocks, where
  -- `offset + towrite` is `all`
  abbrev pub offered : ℕ → Bytes → Bytes → Bytes
  offered all held buffer =
      let total = all - all % min_write_size in take total held ++ take (total - length held) buffer

  -- One round, on what `writev` returned: the bytes written leave the buffer first, and an assertion
  -- wants the buffer empty.
  after_writev :
      (Bytes → Stdiow F → Outcome (Stdiow F)) → Stdiow F → Bytes → ℤ × F → Outcome (Stdiow F)
  after_writev continue s buffer (negsuc e, f) = done minus_one (record s { file = f })
  after_writev continue s buffer (pos k, f) =
      let amount = min (length s.held) k in
      let left = drop amount s.held in
      if leb (k - amount) (length buffer) && length left == 0
      then continue (drop (k - amount) buffer) (record { held = left; file = f })
      else aborted

  -- the copy of the remainder, which must not leave the writer's buffer
  copied : Bytes → Stdiow F → Outcome (Stdiow F)
  copied buffer s =
      if leb (length s.held + length buffer) min_write_size
      then done (pos 0) (record s { held = s.held ++ buffer })
      else aborted

  -- The loop of `stdio_wwrite`, then the copy; `buffer` holds `towrite` bytes. The sum of `offset` and
  -- `towrite` is an `int`: where it overflows it is negative, the loop ends, and the assertion
  -- in front of the copy holds.
  pub wwrite_loop : ℕ → Bytes → Stdiow F → Outcome (Stdiow F)
  unfolding after_writev copied
  wwrite_loop zero buffer s = no_fuel
  wwrite_loop (suc fuel) buffer s = elim (to_int (length s.held + length buffer)) [
    | negsuc _ ↦ copied buffer s
    | pos all ↦ elim (leb min_write_size all) [
      | true ↦
          after_writev (wwrite_loop fuel) s buffer (sys.writev s.file (offered all s.held buffer))
      | false ↦ copied buffer s
    ]
  ]

  -- the value returned at the end: `len`, whatever has been written
  with_len : ℕ → Outcome (Stdiow F) → Outcome (Stdiow F)
  with_len len (done (pos _) s) = done (pos len) s
  with_len len (done (negsuc e) s) = done (negsuc e) s
  with_len len aborted = aborted
  with_len len no_fuel = no_fuel

  -- one round for each byte at most, and one to see the end
  pub stdio_wwrite : Stdiow F → Bytes → Outcome (Stdiow F)
  unfolding with_len
  stdio_wwrite s buffer = elim (to_int (length buffer)) [
    | negsuc _ ↦ aborted
    | pos towrite ↦
        with_len (length buffer)
          (wwrite_loop (suc (length s.held + towrite)) (take towrite buffer) s)
  ]

  pub stdio_wflush : Stdiow F → Outcome (Stdiow F)
  stdio_wflush s = elim (sys.set_buffered s.file) [
    | none ↦ done minus_one s
    | some f ↦ let (v, f') = sys.writev f s.held in done v (record { held = []; file = f' })
  ]
