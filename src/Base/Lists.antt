-- ===== src/Base/Lists.antt =====
-- Lists measured and indexed by native numbers, under the library's names, and memory blocks.
use Prim.Native.Nat.{ℕ, zero, suc, ◌+◌, ◌-◌, ◌≤◌, min}
use mathlib.Core.Path.{◌≡◌, refl, ap, sym, subst, ◌∙◌}
use mathlib.Core.List.{List, [], ◌∷◌, ◌++◌, append_assoc}
use mathlib.Core.Option.{Option, none, some}
use native.Mathlib.Omega.{arith}

module _ {ℓ} {A : Type ℓ} where
  abbrev pub length : List A → ℕ
  length [] = 0
  length (x ∷ xs) = suc (length xs)

  abbrev pub get_elem? : List A → ℕ → Option A
  get_elem? [] i = none
  get_elem? (x ∷ xs) zero = some x
  get_elem? (x ∷ xs) (suc i) = get_elem? xs i

  abbrev pub get_or : List A → ℕ → A → A
  get_or [] i d = d
  get_or (x ∷ xs) zero d = x
  get_or (x ∷ xs) (suc i) d = get_or xs i d

  abbrev pub set : List A → ℕ → A → List A
  set [] i v = []
  set (x ∷ xs) zero v = v ∷ xs
  set (x ∷ xs) (suc i) v = x ∷ set xs i v

  abbrev pub take : ℕ → List A → List A
  take zero xs = []
  take (suc n) [] = []
  take (suc n) (x ∷ xs) = x ∷ take n xs

  abbrev pub drop : ℕ → List A → List A
  drop zero xs = xs
  drop (suc n) [] = []
  drop (suc n) (x ∷ xs) = drop n xs

  abbrev pub replicate : ℕ → A → List A
  replicate zero a = []
  replicate (suc n) a = a ∷ replicate n a

  pub length-append : (xs ys : List A) → length (xs ++ ys) ≡ length xs + length ys
  length-append [] ys = omega arith
  length-append (x ∷ xs) ys = omega (arith, length-append xs ys)

  pub length-take : (n : ℕ) (xs : List A) → length (take n xs) ≡ min n (length xs)
  length-take zero xs = omega arith
  length-take (suc n) [] = omega arith
  length-take (suc n) (x ∷ xs) = omega (arith, length-take n xs)

  pub length-drop : (n : ℕ) (xs : List A) → length (drop n xs) ≡ length xs - n
  length-drop zero xs = omega arith
  length-drop (suc n) [] = omega arith
  length-drop (suc n) (x ∷ xs) = omega (arith, length-drop n xs)

  pub length-replicate : (n : ℕ) (a : A) → length (replicate n a) ≡ n
  length-replicate zero a = refl
  length-replicate (suc n) a = ap suc (length-replicate n a)

  pub length-set : (xs : List A) (i : ℕ) (v : A) → length (set xs i v) ≡ length xs
  length-set [] i v = refl
  length-set (x ∷ xs) zero v = refl
  length-set (x ∷ xs) (suc i) v = ap suc (length-set xs i v)

  pub take-append-drop : (n : ℕ) (xs : List A) → take n xs ++ drop n xs ≡ xs
  take-append-drop zero xs = refl
  take-append-drop (suc n) [] = refl
  take-append-drop (suc n) (x ∷ xs) = ap (◌∷◌ x) (take-append-drop n xs)

  pub take_of_length_le : (n : ℕ) (xs : List A) → length xs ≤ n → take n xs ≡ xs
  take_of_length_le zero [] h = refl
  take_of_length_le zero (x ∷ xs) h = absurd (omega arith)
  take_of_length_le (suc n) [] h = refl
  take_of_length_le (suc n) (x ∷ xs) h = ap (◌∷◌ x) (take_of_length_le n xs (omega arith))

  pub drop_of_length_le : (n : ℕ) (xs : List A) → length xs ≤ n → drop n xs ≡ []
  drop_of_length_le zero [] h = refl
  drop_of_length_le zero (x ∷ xs) h = absurd (omega arith)
  drop_of_length_le (suc n) [] h = refl
  drop_of_length_le (suc n) (x ∷ xs) h = drop_of_length_le n xs (omega arith)

  pub take-append : (xs ys : List A) → take (length xs) (xs ++ ys) ≡ xs
  take-append [] ys = refl
  take-append (x ∷ xs) ys = ap (◌∷◌ x) (take-append xs ys)

  pub drop-append : (xs ys : List A) → drop (length xs) (xs ++ ys) ≡ ys
  drop-append [] ys = refl
  drop-append (x ∷ xs) ys = drop-append xs ys

  pub take-append_le : (n : ℕ) (xs ys : List A) → n ≤ length xs → take n (xs ++ ys) ≡ take n xs
  take-append_le zero xs ys h = refl
  take-append_le (suc n) [] ys h = absurd (omega arith)
  take-append_le (suc n) (x ∷ xs) ys h = ap (◌∷◌ x) (take-append_le n xs ys (omega arith))

  pub drop-append_le :
      (n : ℕ) (xs ys : List A) → n ≤ length xs → drop n (xs ++ ys) ≡ drop n xs ++ ys
  drop-append_le zero xs ys h = refl
  drop-append_le (suc n) [] ys h = absurd (omega arith)
  drop-append_le (suc n) (x ∷ xs) ys h = drop-append_le n xs ys (omega arith)

  pub take-nil : (n : ℕ) {xs : List A} → xs ≡ [] → take n xs ≡ []
  take-nil zero e = refl
  take-nil (suc n) {xs = []} e = refl
  take-nil (suc n) {xs = x ∷ xs} e = cc

  pub drop-nil : (n : ℕ) {xs : List A} → xs ≡ [] → drop n xs ≡ []
  drop-nil zero e = e
  drop-nil (suc n) {xs = []} e = refl
  drop-nil (suc n) {xs = x ∷ xs} e = cc

  pub drop-drop : (n m : ℕ) (xs : List A) → drop m (drop n xs) ≡ drop (n + m) xs
  drop-drop zero m xs = ap (λ k. drop k xs) (omega arith)
  drop-drop (suc n) m [] = drop-nil m refl ∙ sym (drop-nil (suc n + m) refl)
  drop-drop (suc n) m (x ∷ xs) =
      drop-drop n m xs
      ∙ ap (λ k. drop k (x ∷ xs)) (let e : suc (n + m) ≡ suc n + m = omega arith in e)

  pub take-append-take-drop :
      (n k : ℕ) (xs : List A) → n ≤ k → take n xs ++ take (k - n) (drop n xs) ≡ take k xs
  take-append-take-drop zero k xs h = ap (λ m. take m xs) (omega arith)
  take-append-take-drop (suc n) zero xs h = absurd (omega arith)
  take-append-take-drop (suc n) (suc k) [] h = take-nil (suc k - suc n) refl
  take-append-take-drop (suc n) (suc k) (x ∷ xs) h =
      ap (λ m. x ∷ (take n xs ++ take m (drop n xs))) (omega arith)
      ∙ ap (◌∷◌ x) (take-append-take-drop n k xs (omega arith))

  -- `memcpy(block + at, src, …)`: `src` overwrites the block from `at` on.
  abbrev pub blit : List A → ℕ → List A → List A
  blit block at src = take at block ++ (src ++ drop (at + length src) block)

  -- the `n` bytes from `at` on
  abbrev pub slice : List A → ℕ → ℕ → List A
  slice block at n = take n (drop at block)

  pub drop-take : (n k : ℕ) (xs : List A) → drop n (take k xs) ≡ take (k - n) (drop n xs)
  drop-take zero k xs = ap (λ m. take m xs) (omega arith)
  drop-take (suc n) zero xs = sym (take-zero (zero - suc n) (drop (suc n) xs) (omega arith))
    where
      take-zero : (m : ℕ) (ys : List A) → m ≡ 0 → take m ys ≡ []
      take-zero zero ys e = refl
      take-zero (suc m) ys e = absurd (omega arith)
  drop-take (suc n) (suc k) [] = sym (take-nil (suc k - suc n) refl)
  drop-take (suc n) (suc k) (x ∷ xs) = drop-take n k xs ∙ ap (λ m. take m (drop n xs)) (omega arith)

  pub length-blit :
      (block : List A) (at : ℕ) (src : List A)
      → at + length src ≤ length block
      → length (blit block at src) ≡ length block
  length-blit block at src h = omega (
    arith,
    length-append (take at block) (src ++ drop (at + length src) block),
    length-append src (drop (at + length src) block),
    length-take at block,
    length-drop (at + length src) block,
  )

  pub take-blit :
      (block : List A) (at : ℕ) (src : List A)
      → at ≤ length block
      → take (at + length src) (blit block at src) ≡ take at block ++ src
  take-blit block at src h =
      let front = take at block ++ src in
      let back = drop (at + length src) block in
      let size : length front ≡ at + length src =
        omega (arith, length-append (take at block) src, length-take at block) in
      ap (take (at + length src)) (sym (append_assoc (take at block) src back))
      ∙ subst (λ n. take n (front ++ back) ≡ front) size (take-append front back)

  pub take-blit_front :
      (block : List A) (at : ℕ) (src : List A)
      → at ≤ length block
      → take at (blit block at src) ≡ take at block
  take-blit_front block at src h =
      let size : length (take at block) ≡ at = omega (arith, length-take at block) in
      subst (λ n. take n (blit block at src) ≡ take at block) size
        (take-append (take at block) (src ++ drop (at + length src) block))

  pub nil_of : (xs : List A) → length xs ≡ 0 → xs ≡ []
  nil_of [] h = refl
  nil_of (x ∷ xs) h = absurd (omega arith)

  pub append-eq-nil : (xs ys : List A) → 0 ≡ length xs → xs ++ ys ≡ [] → ys ≡ []
  append-eq-nil [] ys h e = e
  append-eq-nil (x ∷ xs) ys h e = absurd (omega arith)

  pub take-append_ge :
      (n : ℕ) (xs ys : List A) → length xs ≤ n → take n (xs ++ ys) ≡ xs ++ take (n - length xs) ys
  take-append_ge n [] ys h = ap (λ k. take k ys) (omega arith)
  take-append_ge zero (x ∷ xs) ys h = absurd (omega arith)
  take-append_ge (suc n) (x ∷ xs) ys h = ap (◌∷◌ x) (
      take-append_ge n xs ys (omega arith)
      ∙ ap (λ k. xs ++ take k ys)
          (let e : n - length xs ≡ suc n - suc (length xs) = omega arith in e))

  pub take-take : (n k : ℕ) (xs : List A) → n ≤ k → take n (take k xs) ≡ take n xs
  take-take zero k xs h = refl
  take-take (suc n) zero xs h = absurd (omega arith)
  take-take (suc n) (suc k) [] h = refl
  take-take (suc n) (suc k) (x ∷ xs) h = ap (◌∷◌ x) (take-take n k xs (omega arith))
