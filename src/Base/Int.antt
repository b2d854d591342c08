-- ===== src/Base/Int.antt =====
-- The signed results of the source (`int`, `int64_t`): a count, or a negative error value.
use Prim.Native.Nat.{ℕ}

-- `negsuc n` is -(n + 1).
pub data ℤ : Type 0 where
  pos : ℕ → ℤ
  negsuc : ℕ → ℤ

-- -1
abbrev pub minus_one : ℤ
minus_one = negsuc 0
