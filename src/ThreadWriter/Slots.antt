-- ===== src/ThreadWriter/Slots.antt =====
-- The data of the buffers.
use wandio.Base.{
  contents, contents_none, ℕ, zero, suc, ◌+◌, ◌%◌, ◌≤◌, ◌<◌, ◌≡◌, ◌∙◌, sym, subst, ap, inl, inr, [],
  ◌++◌, append-nil, append_assoc, take, lt-or-le, Bytes, arith,
}
use wandio.ThreadWriter.{Slot}

abbrev pub data_of : Slot → Bytes
data_of x = take x.len x.space

module _ (n : ℕ) where
  -- where the buffers have no length
  pub contents_blank :
      (c k : ℕ) (sl : ℕ → Slot)
      → ((j : ℕ) → k ≤ j → j < k + c → (sl (j % n)).len ≡ 0)
      → contents data_of n c k sl ≡ []
  contents_blank c k sl blank =
      contents_none data_of n c k sl (λ j a b. ap (λ z. take z (sl (j % n)).space) (blank j a b))

  -- where the buffer `w` gets more, and the buffers behind it have nothing
  pub contents_grow :
      (c k w : ℕ) (sl sl' : ℕ → Slot) (bytes : Bytes)
      → k ≤ w
      → w < k + c
      → ((j : ℕ) → j < w → k ≤ j → data_of (sl' (j % n)) ≡ data_of (sl (j % n)))
      → data_of (sl' (w % n)) ≡ data_of (sl (w % n)) ++ bytes
      → ((j : ℕ) → w < j → j < k + c → (sl (j % n)).len ≡ 0)
      → ((j : ℕ) → w < j → j < k + c → (sl' (j % n)).len ≡ 0)
      → contents data_of n c k sl' ≡ contents data_of n c k sl ++ bytes
  contents_grow zero k w sl sl' bytes low high before here blank blank' = absurd (omega arith)
  contents_grow (suc c) k w sl sl' bytes low high before here blank blank' = elim (lt-or-le k w) [
    | inl later ↦
        let rest =
          contents_grow c (suc k) w sl sl' bytes later (omega arith)
            (λ j a b. before j a (omega arith)) here (λ j a b. blank j a (omega arith))
            (λ j a b. blank' j a (omega arith)) in
        ap (λ z. z ++ contents data_of n c (suc k) sl') (before k later (omega arith))
        ∙ ap (λ z. data_of (sl (k % n)) ++ z) rest
        ∙ sym (append_assoc (data_of (sl (k % n))) (contents data_of n c (suc k) sl) bytes)
    | inr now ↦
        let e : w ≡ k = omega arith in
        let none : contents data_of n c (suc k) sl ≡ [] =
          contents_blank c (suc k) sl (λ j a b. blank j (omega arith) (omega arith)) in
        let none' : contents data_of n c (suc k) sl' ≡ [] =
          contents_blank c (suc k) sl' (λ j a b. blank' j (omega arith) (omega arith)) in
        ap (λ z. data_of (sl' (k % n)) ++ z) none'
        ∙ append-nil (data_of (sl' (k % n)))
        ∙ subst (λ j. data_of (sl' (j % n)) ≡ data_of (sl (j % n)) ++ bytes) e here
        ∙ ap (λ z. z ++ bytes)
            (sym (ap (λ z. data_of (sl (k % n)) ++ z) none ∙ append-nil (data_of (sl (k % n)))))
  ]
