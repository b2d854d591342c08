-- ===== src/Reader.antt =====
-- The reader modules' interface of lib/wandio.h: `io_source_t`, and the functions of lib/wandio.c
-- that call through it (`wandio_tell`, `wandio_seek`, `wandio_read`, `wandio_peek`).
pub mod Contract
pub mod Memory
use wandio.Base.{ℕ, ℤ, minus_one, Bytes, Option, none, some}

-- What a call of `read` or `peek` does: it returns a value, has stored bytes from the start of the
-- caller's buffer on, and leaves a state; or an assertion fails, memory is misused, an `int`
-- overflows, or a loop of the model uses up its fuel.
pub data Reply (S : Type 0) : Type 0 where
  ret : ℤ → Bytes → S → Reply S
  stuck : Reply S

-- `io_source_t` less `close`, a NULL entry being `none`. `read` and `peek` take the address of the
-- caller's buffer, of which only the remainder by 4096 is ever used, and the length.
pub record Source (S : Type 0) : Type 0 where
  pub name : Bytes
  pub read : S → ℕ → ℕ → Reply S
  pub peek : Option (S → ℕ → ℕ → Reply S)
  pub tell : Option (S → ℤ × S)
  pub seek : Option (S → ℤ → ℕ → ℤ × S)

-- `errno` after a call: unchanged, or a value stored by the call.
pub data Errno : Type 0 where
  kept : Errno
  stored : ℤ → Errno

-- -ENOSYS, as the source stores it; ENOSYS is 38
abbrev pub minus_enosys : ℤ
minus_enosys = ℤ.negsuc 37

module _ {S : Type 0} (io : Source S) where
  unfoldable pub wandio_tell : S → ℤ × S × Errno
  wandio_tell s = elim io.tell [
    | none ↦ (minus_one, s, stored minus_enosys)
    | some f ↦ let (v, s') = f s in (v, s', kept)
  ]

  unfoldable pub wandio_seek : S → ℤ → ℕ → ℤ × S × Errno
  wandio_seek s offset whence = elim io.seek [
    | none ↦ (minus_one, s, stored minus_enosys)
    | some f ↦ let (v, s') = f s offset whence in (v, s', kept)
  ]

  unfoldable pub wandio_read : S → ℕ → ℕ → Reply S
  wandio_read = io.read

  -- the assertion that the module supports peeking
  unfoldable pub wandio_peek : S → ℕ → ℕ → Reply S
  wandio_peek s addr len = elim io.peek [ none ↦ stuck | some f ↦ f s addr len ]
