-- ===== src/ThreadReader/Ring.antt =====
-- The ring of buffers as a queue.
use wandio.Base.{
  ℕ, suc, ◌+◌, ◌%◌, ◌≤◌, ◌<◌, ◌≡◌, ◌≢◌, ◌∙◌, sym, subst, ap, refl, inl, inr, true, false, List, [],
  ◌∷◌, ◌++◌, length, length-append, lt-or-le, arith, put, put_same, put_other, mod_apart,
}
use mathlib.Core.Bool.{false≢true}
use wandio.ThreadReader.{Slot}
use native.Mathlib.Nat.{add-mod_right}

module _ (n : ℕ) where
  -- from the `r`-th buffer on, counted without wrapping around, the ring has the entries `q`, FULL
  abbrev pub Holds : ℕ → List Slot → (ℕ → Slot) → Type 0
  Holds r [] sl = Unit
  Holds r (x ∷ q) sl = (sl (r % n) ≡ x) × (x.full ≡ true) × Holds (suc r) q sl

  Holds-put :
      (r : ℕ) (q : List Slot) (sl : ℕ → Slot) (i : ℕ) (x : Slot)
      → ((k : ℕ) → r ≤ k → k < r + length q → k % n ≢ i)
      → Holds r q sl
      → Holds r q (put sl i x)
  Holds-put r [] sl i x away h = h
  Holds-put r (y ∷ q) sl i x away (at, full, more) = (
    put_other sl i (r % n) x (away r (omega arith) (omega arith)) ∙ at,
    full,
    Holds-put (suc r) q sl i x (λ k a b. away k (omega arith) (omega arith)) more,
  )

  Holds-append :
      (r : ℕ) (q : List Slot) (sl : ℕ → Slot) (x : Slot)
      → sl ((r + length q) % n) ≡ x
      → x.full ≡ true
      → Holds r q sl
      → Holds r (q ++ x ∷ []) sl
  Holds-append r [] sl x at full h =
      (subst (λ k. sl (k % n) ≡ x) (let e : r + 0 ≡ r = omega arith in e) at, full, h)
  Holds-append r (y ∷ q) sl x at full (here, is, more) = (
    here,
    is,
    Holds-append (suc r) q sl x
        (subst (λ k. sl (k % n) ≡ x)
          (let e : r + suc (length q) ≡ suc r + length q = omega arith in e) at)
        full more,
  )

  -- the ring holds the queue `q` from the `r`-th buffer on, and is EMPTY elsewhere
  pub record Ring (r : ℕ) (q : List Slot) (sl : ℕ → Slot) : Type 0 where
    pub few : length q ≤ n
    pub holds : Holds r q sl
    pub free : (k : ℕ) → r + length q ≤ k → k < r + n → (sl (k % n)).full ≡ false

  pub Ring-write :
      (r : ℕ) (q : List Slot) (sl : ℕ → Slot) (x : Slot)
      → length q < n
      → x.full ≡ false
      → Ring r q sl
      → Ring r q (put sl ((r + length q) % n) x)
  Ring-write r q sl x room empty ring = record {
    few = ring.few;
    holds =
        Holds-put r q sl ((r + length q) % n) x
          (λ k a b. mod_apart n k (r + length q) (omega arith) (omega arith)) ring.holds;
    free = λ k a b. elim (lt-or-le (r + length q) k) [
      | inl later ↦
          ap (λ s. s.full)
            (put_other sl ((r + length q) % n) (k % n) x
              (λ e. mod_apart n (r + length q) k later (omega arith) (sym e)))
          ∙ ring.free k a b
      | inr here ↦
          let e : k ≡ r + length q = omega arith in
          subst (λ j. (put sl ((r + length q) % n) x (j % n)).full ≡ false) (sym e)
            (ap (λ s. s.full) (put_same sl ((r + length q) % n) x) ∙ empty)
    ];
  }

  pub Ring-publish :
      (r : ℕ) (q : List Slot) (sl : ℕ → Slot) (x : Slot)
      → length q < n
      → x.full ≡ true
      → Ring r q sl
      → Ring r (q ++ x ∷ []) (put sl ((r + length q) % n) x)
  Ring-publish r q sl x room full ring =
      let count : length (q ++ x ∷ []) ≡ suc (length q) = omega (arith, length-append q (x ∷ [])) in
      record {
        few = omega arith;
        holds =
            Holds-append r q (put sl ((r + length q) % n) x) x (put_same sl ((r + length q) % n) x)
              full
              (Holds-put r q sl ((r + length q) % n) x
                (λ k a b. mod_apart n k (r + length q) (omega arith) (omega arith)) ring.holds);
        free = λ k a b.
            ap (λ s. s.full)
              (put_other sl ((r + length q) % n) (k % n) x
                (λ e. mod_apart n (r + length q) k (omega arith) (omega arith) (sym e)))
            ∙ ring.free k (omega arith) b;
      }

  pub Ring-pop :
      (r : ℕ) (x : Slot) (q : List Slot) (sl : ℕ → Slot) (y : Slot)
      → y.full ≡ false
      → Ring r (x ∷ q) sl
      → Ring (suc r) q (put sl (r % n) y)
  Ring-pop r x q sl y empty ring =
      let few : suc (length q) ≤ n = ring.few in
      record {
        few = omega arith;
        holds =
            Holds-put (suc r) q sl (r % n) y
              (λ k a b e. mod_apart n r k (omega arith) (omega arith) (sym e)) ring.holds.2;
        free = λ k a b. elim (lt-or-le k (r + n)) [
          | inl inside ↦
              ap (λ s. s.full)
                (put_other sl (r % n) (k % n) y (λ e. mod_apart n r k (omega arith) inside (sym e)))
              ∙ ring.free k (omega arith) inside
          | inr last ↦
              let e : k ≡ r + n = omega arith in
              subst (λ j. (put sl (r % n) y j).full ≡ false)
                (sym (ap (λ j. j % n) e ∙ add-mod_right r n))
                (ap (λ s. s.full) (put_same sl (r % n) y) ∙ empty)
        ];
      }

  -- where the buffer to be read next is FULL, the queue has a head, and that is this buffer
  pub Ring-head :
      (r : ℕ) (q : List Slot) (sl : ℕ → Slot)
      → 0 < n
      → (sl (r % n)).full ≡ true
      → Ring r q sl
      → (x : Slot) × (q' : List Slot) × (q ≡ x ∷ q') × (sl (r % n) ≡ x)
  Ring-head r [] sl some_buffer full ring =
      absurd (false≢true (sym (ring.free r (omega arith) (omega arith)) ∙ full))
  Ring-head r (x ∷ q) sl some_buffer full ring = (x, q, refl, ring.holds.0)
