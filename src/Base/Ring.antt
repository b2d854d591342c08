-- ===== src/Base/Ring.antt =====
-- What a ring of buffers holds, from one buffer on.
use Prim.Native.Nat.{ℕ, zero, suc, ◌+◌, ◌%◌, ◌≤◌, ◌<◌}
use mathlib.Core.Path.{◌≡◌, refl, sym, ap, ◌∙◌}
use mathlib.Core.List.{[], ◌++◌, append-nil, append_assoc}
use native.Mathlib.Omega.{arith}
use native.Mathlib.Nat.{suc-mod, add-mod_right}
use wandio.Base.Text.{Bytes}
use wandio.Base.Table.{put, put_same, put_other, mod_apart}

module _ {A : Type 0} (data_of : A → Bytes) (n : ℕ) where
  -- the data of `c` buffers from the `k`-th on, counted without wrapping around
  abbrev pub contents : ℕ → ℕ → (ℕ → A) → Bytes
  contents zero k sl = []
  contents (suc c) k sl = data_of (sl (k % n)) ++ contents c (suc k) sl

  pub contents_same :
      (c k : ℕ) (sl sl' : ℕ → A)
      → ((j : ℕ) → k ≤ j → j < k + c → data_of (sl' (j % n)) ≡ data_of (sl (j % n)))
      → contents c k sl' ≡ contents c k sl
  contents_same zero k sl sl' same = refl
  contents_same (suc c) k sl sl' same =
      ap (λ z. z ++ contents c (suc k) sl') (same k (omega arith) (omega arith))
      ∙ ap (λ z. data_of (sl (k % n)) ++ z)
          (contents_same c (suc k) sl sl' (λ j a b. same j (omega arith) (omega arith)))

  pub contents_none :
      (c k : ℕ) (sl : ℕ → A)
      → ((j : ℕ) → k ≤ j → j < k + c → data_of (sl (j % n)) ≡ [])
      → contents c k sl ≡ []
  contents_none zero k sl nothing = refl
  contents_none (suc c) k sl nothing =
      ap (λ z. z ++ contents c (suc k) sl) (nothing k (omega arith) (omega arith))
      ∙ contents_none c (suc k) sl (λ j a b. nothing j (omega arith) (omega arith))

  pub contents_last :
      (c k : ℕ) (sl : ℕ → A) → contents (suc c) k sl ≡ contents c k sl ++ data_of (sl ((k + c) % n))
  contents_last zero k sl =
      let e : k ≡ k + 0 = omega arith in
      append-nil (data_of (sl (k % n))) ∙ ap (λ j. data_of (sl (j % n))) e
  contents_last (suc c) k sl =
      let e : suc k + c ≡ k + suc c = omega arith in
      ap (λ z. data_of (sl (k % n)) ++ z) (contents_last c (suc k) sl)
      ∙ sym (
          append_assoc (data_of (sl (k % n))) (contents c (suc k) sl)
            (data_of (sl ((suc k + c) % n))))
      ∙ ap (λ j. contents (suc c) k sl ++ data_of (sl (j % n))) e

  -- two runs of buffers
  pub contents_split :
      (a b k : ℕ) (sl : ℕ → A) → contents (a + b) k sl ≡ contents a k sl ++ contents b (k + a) sl
  contents_split zero b k sl =
      let e : zero + b ≡ b = omega arith in
      let f : k ≡ k + zero = omega arith in
      ap (λ z. contents z k sl) e ∙ ap (λ z. contents b z sl) f
  contents_split (suc a) b k sl =
      let e : suc a + b ≡ suc (a + b) = omega arith in
      let f : suc k + a ≡ k + suc a = omega arith in
      ap (λ z. contents z k sl) e
      ∙ ap (λ z. data_of (sl (k % n)) ++ z) (contents_split a b (suc k) sl)
      ∙ sym
          (append_assoc (data_of (sl (k % n))) (contents a (suc k) sl) (contents b (suc k + a) sl))
      ∙ ap (λ z. contents (suc a) k sl ++ contents b z sl) f

  -- only the remainder of the first index matters
  pub contents_mod : (c j k : ℕ) (sl : ℕ → A) → j % n ≡ k % n → contents c j sl ≡ contents c k sl
  contents_mod zero j k sl e = refl
  contents_mod (suc c) j k sl e =
      ap (λ z. data_of (sl z) ++ contents c (suc j) sl) e
      ∙ ap (λ z. data_of (sl (k % n)) ++ z)
          (contents_mod c (suc j) (suc k) sl
            (suc-mod j n ∙ ap (λ z. suc z % n) e ∙ sym (suc-mod k n)))

-- a ring of `suc m`
module _ {A : Type 0} (data_of : A → Bytes) (m : ℕ) where
  -- the whole ring from the next buffer on
  pub contents_round :
      (k : ℕ) (sl : ℕ → A)
      → contents data_of (suc m) (suc m) (suc k) sl
        ≡ contents data_of (suc m) m (suc k) sl ++ data_of (sl (k % suc m))
  contents_round k sl =
      let back : (suc k + m) % suc m ≡ k % suc m =
        ap (λ j. j % suc m) (let e : suc k + m ≡ k + suc m = omega arith in e)
        ∙ add-mod_right k (suc m) in
      contents_last data_of (suc m) m (suc k) sl
      ∙ ap (λ j. contents data_of (suc m) m (suc k) sl ++ data_of (sl j)) back

  -- a buffer that is put at `k` is none of those behind it
  pub contents-put :
      (k j : ℕ) (sl : ℕ → A) (x : A)
      → j ≡ k % suc m
      → contents data_of (suc m) m (suc k) (put sl j x) ≡ contents data_of (suc m) m (suc k) sl
  contents-put k j sl x here = contents_same data_of (suc m) m (suc k) sl (put sl j x) (λ i a b.
      ap data_of (
        put_other sl j (i % suc m) x
          (λ e. mod_apart (suc m) k i (omega arith) (omega arith) (sym (e ∙ here)))))

  -- the ring from the next buffer on, after a buffer without data has been filled
  pub contents_turn :
      (k j : ℕ) (sl : ℕ → A) (x : A)
      → j ≡ k % suc m
      → data_of (sl j) ≡ []
      → contents data_of (suc m) (suc m) (suc k) (put sl j x)
        ≡ contents data_of (suc m) (suc m) k sl ++ data_of x
  contents_turn k j sl x here nothing =
      let sl' = put sl j x in
      let behind = contents data_of (suc m) m (suc k) sl in
      contents_round k sl'
      ∙ ap (λ z. z ++ data_of (sl' (k % suc m))) (contents-put k j sl x here)
      ∙ ap (λ z. behind ++ data_of z) (ap sl' (sym here) ∙ put_same sl j x)
      ∙ ap (λ z. (z ++ behind) ++ data_of x) (sym (ap (λ i. data_of (sl i)) (sym here) ∙ nothing))
