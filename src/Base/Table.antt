-- ===== src/Base/Table.antt =====
-- Arrays of buffers as functions, and the indices of a ring of buffers.
use Prim.Native.Nat.{ℕ, suc, ◌+◌, ◌*◌, ◌/◌, ◌%◌, ◌≤◌, ◌<◌}
use mathlib.Core.Path.{◌≡◌, subst, sym, ap, ◌∙◌}
use mathlib.Core.Logic.{◌≢◌, inl, inr}
use native.Mathlib.Omega.{arith}
use native.Mathlib.Nat.{div-add-mod, mul-le-mul_left}
use wandio.Base.Tests.{◌==◌, if◌then◌else◌, ==_iff, ==_ne, ==_refl, Bool-cases, lt-or-le}

-- an array with one entry changed
abbrev pub put : {A : Type 0} → (ℕ → A) → ℕ → A → ℕ → A
put slots i x j = if j == i then x else slots j

module _ {A : Type 0} (sl : ℕ → A) where
  pub put_same : (i : ℕ) (x : A) → put sl i x i ≡ x
  put_same i x = rw (==_refl i)

  pub put_other : (i j : ℕ) (x : A) → j ≢ i → put sl i x j ≡ sl j
  put_other i j x ne = rw (==_ne j i ne)

-- two numbers less than `n` apart have different remainders
pub mod_apart : (n j k : ℕ) → j < k → k < j + n → j % n ≢ k % n
mod_apart n j k lt near same = elim (lt-or-le (j / n) (k / n)) [
  | inl up ↦
      let m : n * suc (j / n) ≤ n * (k / n) = mul-le-mul_left n up in
      absurd (omega (arith, div-add-mod j n, div-add-mod k n))
  | inr down ↦
      let m : n * (k / n) ≤ n * (j / n) = mul-le-mul_left n down in
      absurd (omega (arith, div-add-mod j n, div-add-mod k n))
]

-- what holds of all entries, after one is put
pub put_all :
    {A : Type 0} (P : ℕ → A → Type 0) (sl : ℕ → A) (i : ℕ) (x : A)
    → P i x
    → ((j : ℕ) → j ≢ i → P j (sl j))
    → (j : ℕ) → P j (put sl i x j)
put_all P sl i x new old j = elim (Bool-cases (j == i)) [
  | inl same ↦
      let e = (==_iff j i).0 same in
      subst (λ k. P k (put sl i x k)) (sym e) (subst (P i) (sym (put_same sl i x)) new)
  | inr differ ↦
      let ne : j ≢ i = λ e. cc (sym differ ∙ ap (λ z. z == i) e ∙ ==_refl i) in
      subst (P j) (sym (put_other sl i j x ne)) (old j ne)
]
