-- ===== src/ThreadWriter/Inv.antt =====
-- What holds of the two threads at every moment.
use wandio.Base.{
  contents, ℕ, suc, ◌+◌, ◌%◌, ◌≤◌, ◌<◌, ◌≡◌, ◌⊎◌, ◌∙◌, sym, subst, ap, inl, inr, Bool, true, false,
  [], ◌++◌, Option, none, some, length, take, put, put_same, put_other, mod_apart, lt-or-le, Bytes,
  arith,
}
use wandio.ThreadWriter.{
  Slot, Consumer, waiting, writing, written, exited, Main, copying, moved, closed, Threads,
}
use wandio.ThreadWriter.Slots.{data_of}
use native.Mathlib.Nat.{add-mod_right}

-- There are `suc m` buffers of `size` bytes.
module _ (size m : ℕ) where
  -- Counted without wrapping around, the buffers from `r` up to `w` are FULL, and there is data, `w` is
  -- the one to be filled, and those behind it have nothing.
  pub record Window (r w : ℕ) (sl : ℕ → Slot) : Type 0 where
    pub low : r ≤ w
    pub high : w ≤ r + suc m
    pub full : (k : ℕ) → r ≤ k → k < w → ((sl (k % suc m)).full ≡ true) × (0 < (sl (k % suc m)).len)
    pub free : (k : ℕ) → w ≤ k → k < r + suc m → (sl (k % suc m)).full ≡ false
    pub blank : (k : ℕ) → w < k → k < r + suc m → (sl (k % suc m)).len ≡ 0
    pub sized : (i : ℕ) → length (sl i).space ≡ size

  pub other :
      (sl : ℕ → Slot) (j k : ℕ) (x : Slot)
      → (j < k) ⊎ (k < j)
      → j < k + suc m
      → k < j + suc m
      → put sl (k % suc m) x (j % suc m) ≡ sl (j % suc m)
  other sl j k x (inl lt) a b = put_other sl (k % suc m) (j % suc m) x (mod_apart (suc m) j k lt b)
  other sl j k x (inr lt) a b =
      put_other sl (k % suc m) (j % suc m) x (λ e. mod_apart (suc m) k j lt a (sym e))

  put_sized :
      (sl : ℕ → Slot) (i : ℕ) (x : Slot)
      → length x.space ≡ size
      → ((j : ℕ) → length (sl j).space ≡ size)
      → (j : ℕ) → length (put sl i x j).space ≡ size
  put_sized sl i x e all j = ground (arith, e, all j)

  pub Window-put :
      (r w : ℕ) (sl : ℕ → Slot) (x : Slot)
      → x.full ≡ false
      → length x.space ≡ size
      → w < r + suc m
      → Window r w sl
      → Window r w (put sl (w % suc m) x)
  Window-put r w sl x empty long room h = record {
    low = h.low;
    high = h.high;
    full = λ k a b.
        subst (λ s. (s.full ≡ true) × (0 < s.len))
          (sym (other sl k w x (inl b) (omega arith) (omega (arith, room)))) (h.full k a b);
    free = λ k a b. elim (lt-or-le w k) [
      | inl later ↦
          ap (λ s. s.full) (other sl k w x (inr later) (omega (arith, h.low)) (omega arith))
          ∙ h.free k a b
      | inr here ↦
          let e : w ≡ k = omega arith in
          subst (λ j. (put sl (w % suc m) x (j % suc m)).full ≡ false) e
            (ap (λ s. s.full) (put_same sl (w % suc m) x) ∙ empty)
    ];
    blank = λ k a b.
        ap (λ s. s.len) (other sl k w x (inr a) (omega (arith, h.low)) (omega arith))
        ∙ h.blank k a b;
    sized = put_sized sl (w % suc m) x long h.sized;
  }

  pub Window-push :
      (r w : ℕ) (sl : ℕ → Slot) (x : Slot)
      → x.full ≡ true
      → 0 < x.len
      → length x.space ≡ size
      → w < r + suc m
      → Window r w sl
      → Window r (suc w) (put sl (w % suc m) x)
  Window-push r w sl x full some_bytes long room h = record {
    low = omega (arith, h.low);
    high = omega arith;
    full = λ k a b. elim (lt-or-le k w) [
      | inl before ↦
          subst (λ s. (s.full ≡ true) × (0 < s.len))
            (sym (other sl k w x (inl before) (omega arith) (omega (arith, room))))
            (h.full k a before)
      | inr here ↦
          let e : w ≡ k = omega arith in
          subst (λ j. let s = put sl (w % suc m) x (j % suc m) in (s.full ≡ true) × (0 < s.len)) e
            (subst (λ s. (s.full ≡ true) × (0 < s.len)) (sym (put_same sl (w % suc m) x))
              (full, some_bytes))
    ];
    free = λ k a b.
        ap (λ s. s.full) (other sl k w x (inr a) (omega (arith, h.low)) (omega arith))
        ∙ h.free k (omega arith) b;
    blank = λ k a b.
        ap (λ s. s.len) (other sl k w x (inr (omega arith)) (omega (arith, h.low)) (omega arith))
        ∙ h.blank k (omega arith) b;
    sized = put_sized sl (w % suc m) x long h.sized;
  }

  -- The buffer `r` is reset; `w'` is `w`, or the one behind it where there was no FULL buffer.
  pub Window-pop :
      (r w w' : ℕ) (sl : ℕ → Slot) (x : Slot)
      → x.full ≡ false
      → x.len ≡ 0
      → length x.space ≡ size
      → w ≤ w'
      → ((w ≡ r) × (w' ≡ suc r)) ⊎ ((r < w) × (w' ≡ w))
      → Window r w sl
      → Window (suc r) w' (put sl (r % suc m) x)
  Window-pop r w w' sl x empty blank long up which h = record {
    low = omega arith;
    high = omega (arith, h.high);
    full = λ k a b.
        subst (λ s. (s.full ≡ true) × (0 < s.len))
          (sym (other sl k r x (inr a) (omega (arith, h.high)) (omega arith)))
          (h.full k (omega arith) (omega arith));
    free = λ k a b. elim (lt-or-le k (r + suc m)) [
      | inl inside ↦
          ap (λ s. s.full)
            (other sl k r x (inr (omega (arith, h.low))) (omega arith) (omega (arith, h.low)))
          ∙ h.free k (omega arith) inside
      | inr last ↦
          let e : r + suc m ≡ k = omega arith in
          subst (λ j. (put sl (r % suc m) x j).full ≡ false)
            (sym (add-mod_right r (suc m)) ∙ ap (λ j. j % suc m) e)
            (ap (λ s. s.full) (put_same sl (r % suc m) x) ∙ empty)
    ];
    blank = λ k a b. elim (lt-or-le k (r + suc m)) [
      | inl inside ↦
          ap (λ s. s.len)
            (other sl k r x (inr (omega (arith, h.low))) (omega arith) (omega (arith, h.low)))
          ∙ h.blank k (omega arith) inside
      | inr last ↦
          let e : r + suc m ≡ k = omega arith in
          subst (λ j. (put sl (r % suc m) x j).len ≡ 0)
            (sym (add-mod_right r (suc m)) ∙ ap (λ j. j % suc m) e)
            (ap (λ s. s.len) (put_same sl (r % suc m) x) ∙ blank)
    ];
    sized = put_sized sl (r % suc m) x long h.sized;
  }

  -- before the closing: what the main thread knows of the buffer that it fills
  pub record Open (r w : ℕ) (sl : ℕ → Slot) (out offset : ℕ) (closing : Bool) : Type 0 where
    pub running : closing ≡ false
    pub at : out ≡ w % suc m
    pub held : w < r + suc m → (sl (w % suc m)).len ≡ offset
    pub none_held : w ≡ r + suc m → offset ≡ 0
    pub small : offset < size

  -- what holds where the main thread stands, besides
  abbrev pub Under : Main → ℕ → ℕ → (ℕ → Slot) → ℕ → Type 0
  Under (copying slice rest copied) r w sl offset = (w < r + suc m) × (offset + length slice ≤ size)
  Under (moved slice rest copied) r w sl offset =
      (w < r + suc m)
      × (offset + length slice ≤ size)
      × (take (offset + length slice) (sl (w % suc m)).space
          ≡ take offset (sl (w % suc m)).space ++ slice)
  Under p r w sl offset = Unit

  abbrev pub AtMain : Main → ℕ → ℕ → (ℕ → Slot) → ℕ → ℕ → Bool → Type 0
  AtMain closed r w sl out offset closing = closing ≡ true
  AtMain p r w sl out offset closing = Open r w sl out offset closing × Under p r w sl offset

  -- where the writing thread stands; it has a buffer under way that is FULL, or the last one
  abbrev pub AtConsumer : Consumer → ℕ → (ℕ → Slot) → Bool → Type 0
  AtConsumer (waiting b) r sl closing = b ≡ r % suc m
  AtConsumer (writing b) r sl closing =
      (b ≡ r % suc m) × (((sl (r % suc m)).full ≡ true) ⊎ (closing ≡ true))
  AtConsumer (written b) r sl closing =
      (b ≡ r % suc m) × (((sl (r % suc m)).full ≡ true) ⊎ (closing ≡ true))
  AtConsumer exited r sl closing = closing ≡ true

  -- what the child has not been given yet
  abbrev pub pending : Consumer → ℕ → (ℕ → Slot) → Bytes
  pending (waiting b) r sl = contents data_of (suc m) (suc m) r sl
  pending (writing b) r sl = contents data_of (suc m) (suc m) r sl
  pending (written b) r sl = contents data_of (suc m) m (suc r) sl
  pending exited r sl = []

  module _ {W : Type 0} (Valid : W → Type 0) (taken : W → Bytes) where
    -- The invariant, for the threads at `p` and `c`.
    pub record Inv (t : Threads W) (p : Main) (c : Consumer) : Type 0 where
      pub r : ℕ
      pub w : ℕ
      pub window : Window r w t.slots
      pub main : AtMain p r w t.slots t.out_buffer t.offset t.closing
      pub consumer : AtConsumer c r t.slots t.closing
      pub child : Valid t.child
      pub whole : t.accepted ≡ taken t.child ++ pending c r t.slots

    abbrev pub Kept : Option (Threads W) → Type 0
    Kept none = Unit
    Kept (some t) = Inv t t.main t.consumer
