-- ===== src/Writer.antt =====
-- The writer modules' interface of lib/wandio.h, `iow_source_t`, and the functions of lib/wandio.c
-- that call through it (`wandio_wwrite`, `wandio_wflush`, `wandio_vprintf`).
pub mod Contract
pub mod Memory
use wandio.Base.{
  ◌%◌, ◌^◌, ◌≡◌, ◌==◌, if◌then◌else◌, ◌++◌, Option, none, some, length, ℤ, pos, negsuc, minus_one,
  Bytes,
}

-- What a call does: it returns a value and leaves a state; or an assertion fails or memory is
-- misused; or a loop uses up its fuel.
pub data Outcome (S : Type 0) : Type 0 where
  done : ℤ → S → Outcome S
  aborted : Outcome S
  no_fuel : Outcome S

-- `iow_source_t` less `close`
pub record Sink (W : Type 0) : Type 0 where
  pub name : Bytes
  pub write : W → Bytes → ℤ × W
  pub flush : W → ℤ × W

module _ {W : Type 0} (iow : Sink W) where
  unfoldable pub wandio_wwrite : W → Bytes → ℤ × W
  wandio_wwrite = iow.write

  -- on a writer, or on NULL
  unfoldable pub wandio_wflush : Option W → ℤ × Option W
  wandio_wflush none = (minus_one, none)
  wandio_wflush (some w) = let (v, w') = iow.flush w in (v, some w')

  -- `wandio_vprintf`, on what `vasprintf` returns and stores, less the NUL; a text of 2^32 bytes or
  -- more is not written
  unfoldable pub wandio_vprintf : W → ℤ → Bytes → ℤ × W
  wandio_vprintf w (negsuc e) text = (negsuc e, w)
  wandio_vprintf w (pos n) text =
      if length text == length text % 2 ^ 32 then iow.write w text else (pos 0, w)

-- What lib/wandio.h says of `write`: all the data is written, or a negative value tells of an error.
-- `taken` is what the writer has been given so far.
module _ {W : Type 0} (Valid : W → Type 0) (taken : W → Bytes) where
  abbrev pub Accepted : W → Bytes → ℤ × W → Type 0
  Accepted w bytes (pos k, w') = (k ≡ length bytes) × (taken w' ≡ taken w ++ bytes) × Valid w'
  Accepted w bytes (negsuc e, w') = Unit

  pub record IsSink (write : W → Bytes → ℤ × W) : Type 0 where
    pub accepts : (w : W) (bytes : Bytes) → Valid w → Accepted w bytes (write w bytes)
