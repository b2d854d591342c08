-- ===== src/Peek/Inv.antt =====
-- The representation invariant of `struct peek_t`, and the input that a peeking reader stands for.
use wandio.Base.{ℕ, ◌-◌, ◌≤◌, ◌≡◌, [], ◌++◌, length, drop, take, ℤ, pos, negsuc, Bytes}
use wandio.Peek.{Pointer, null, freed, block, Peek}

-- The unread bytes of a buffer of length `l` lie inside its block. A negative length is an error
-- that the child returned, which every later read repeats.
abbrev pub Shape : Pointer → ℤ → ℕ → Type 0
Shape null (pos l) offset = (l ≡ 0) × (offset ≡ 0)
Shape null (negsuc e) offset = ⊥
Shape freed l offset = ⊥
Shape (block b) (pos l) offset = (offset ≤ l) × (l ≤ length b)
Shape (block b) (negsuc e) offset = Unit

abbrev pub pending : Pointer → ℤ → ℕ → Bytes
pending null l offset = []
pending freed l offset = []
pending (block b) (pos l) offset = take (l - offset) (drop offset b)
pending (block b) (negsuc e) offset = []

pub record IsValid {S : Type 0} (Valid : S → Type 0) (p : Peek S) : Type 0 where
  pub child : Valid p.child
  pub shape : Shape p.buffer p.length p.offset

-- the buffered bytes, then what the child has still to give
abbrev pub unread : {S : Type 0} → (S → Bytes) → Peek S → Bytes
unread rest p = pending p.buffer p.length p.offset ++ rest p.child
