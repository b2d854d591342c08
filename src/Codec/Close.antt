-- ===== src/Codec/Close.antt =====
-- The loop of `zlib_wclose`, `bz_wclose` and `lzma_wclose`, which differ in the return codes on which
-- they go on.
pub mod Closed
use wandio.Base.{ℕ, zero, suc, Bool, true, false, [], ◌++◌, Option, none, some, ℤ, Bytes}
use wandio.Codec.{Err, Call}
use wandio.Codec.Write.{Deflater, space}

-- The library's call that finishes the stream, with no input and the room that is left, and the codes
-- on which the loop goes on. What the child returns is not looked at.
module _ {E W C : Type 0} (finish : E → ℕ → Call E C) (again : C → Bool)
    (write : W → Bytes → ℤ × W) where
  -- the loop, on fuel; `none` is out of fuel
  pub close_loop : ℕ → Deflater E W → Option (Deflater E W)
  close_loop zero s = none
  close_loop (suc fuel) s =
      let c = finish s.coder (space s.held) in
      let s' : Deflater E W = record s { coder = c.next; held = s.held ++ c.made } in
      elim (again c.code) [
        | true ↦ close_loop fuel (record s' { child = (write s.child s'.held).1; held = [] })
        | false ↦ some s'
      ]

  -- The whole function: the encoder as it is ended, and the child as `wandio_wdestroy` gets it.
  pub close_stream : ℕ → Deflater E W → Option (E × W)
  close_stream fuel s = elim (close_loop fuel s) [
    | none ↦ none
    | some s' ↦ some (s'.coder, (write s'.child s'.held).1)
  ]
