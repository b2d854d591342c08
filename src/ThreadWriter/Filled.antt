-- ===== src/ThreadWriter/Filled.antt =====
-- The invariant, where the buffer to be filled changes.
use wandio.Base.{
  contents, ℕ, suc, ◌+◌, ◌%◌, ◌≤◌, ◌<◌, ◌≡◌, ◌⊎◌, ◌∙◌, sym, subst, ap, refl, inl, inr, Bool, true,
  false, [], ◌++◌, append-nil, append_assoc, put, put_same, lt-or-le, Bytes, arith,
}
use wandio.Writer.{Sink}
use wandio.ThreadWriter.{Slot, Consumer, waiting, writing, written, exited, Main, Threads}
use wandio.ThreadWriter.Slots.{data_of, contents_grow}
use wandio.ThreadWriter.Inv.{Window, other, Open, AtMain, AtConsumer, pending, Inv}
use mathlib.Core.Bool.{false≢true}
use native.Mathlib.Nat.{suc-mod, add-mod_right}

module _ (size m : ℕ) where
  -- a FULL buffer at `r` is before the one to be filled
  under : (r w : ℕ) (sl : ℕ → Slot) → Window size m r w sl → (sl (r % suc m)).full ≡ true → r < w
  under r w sl h full = elim (lt-or-le r w) [
    | inl low ↦ low
    | inr last ↦ absurd (false≢true (sym (h.free r last (omega arith)) ∙ full))
  ]

  -- The buffer that the writing thread has under way is not the one to be filled.
  AtConsumer-put :
      (c : Consumer) (r w : ℕ) (sl : ℕ → Slot) (x : Slot) (closing : Bool)
      → Window size m r w sl
      → w < r + suc m
      → closing ≡ false
      → AtConsumer size m c r sl closing
      → AtConsumer size m c r (put sl (w % suc m) x) closing
  AtConsumer-put c r w sl x closing h room on = at c
    where
      held :
          ((sl (r % suc m)).full ≡ true) ⊎ (closing ≡ true)
          → ((put sl (w % suc m) x (r % suc m)).full ≡ true) ⊎ (closing ≡ true)
      held (inr over) = inr over
      held (inl full) =
          let low = under r w sl h full in
          inl
            (ap (λ s. s.full) (other size m sl r w x (inl low) (omega arith) (omega arith)) ∙ full)

      at :
          (c : Consumer)
          → AtConsumer size m c r sl closing
          → AtConsumer size m c r (put sl (w % suc m) x) closing
      at (waiting b) a = a
      at (writing b) (e, a) = (e, held a)
      at (written b) (e, a) = (e, held a)
      at exited a = a

  pub AtConsumer-closed :
      (c : Consumer) (r : ℕ) (sl : ℕ → Slot) (closing : Bool)
      → AtConsumer size m c r sl closing
      → AtConsumer size m c r sl true
  AtConsumer-closed (waiting b) r sl closing a = a
  AtConsumer-closed (writing b) r sl closing (e, a) = (e, inr refl)
  AtConsumer-closed (written b) r sl closing (e, a) = (e, inr refl)
  AtConsumer-closed exited r sl closing a = refl

  -- What the child is still to be given, where the buffer to be filled gets `bytes`.
  pending_grow :
      (c : Consumer) (r w : ℕ) (sl : ℕ → Slot) (x : Slot) (closing : Bool) (bytes : Bytes)
      → Window size m r w sl
      → w < r + suc m
      → closing ≡ false
      → AtConsumer size m c r sl closing
      → data_of x ≡ data_of (sl (w % suc m)) ++ bytes
      → pending size m c r (put sl (w % suc m) x) ≡ pending size m c r sl ++ bytes
  pending_grow c r w sl x closing bytes h room on a more = at c a
    where
      sl' : ℕ → Slot
      sl' = put sl (w % suc m) x

      grows :
          (n k : ℕ)
          → r ≤ k
          → k ≤ w
          → w < k + n
          → k + n ≤ r + suc m
          → contents data_of (suc m) n k sl' ≡ contents data_of (suc m) n k sl ++ bytes
      grows n k low high inside near =
          contents_grow (suc m) n k w sl sl' bytes high inside
            (λ j a b. ap data_of (other size m sl j w x (inl a) (omega arith) (omega arith)))
            (ap data_of (put_same sl (w % suc m) x) ∙ more) (λ j a b. h.blank j a (omega arith))
            (λ j a b.
              ap (λ s. s.len) (other size m sl j w x (inr a) (omega arith) (omega arith))
              ∙ h.blank j a (omega arith))

      at :
          (c : Consumer)
          → AtConsumer size m c r sl closing
          → pending size m c r sl' ≡ pending size m c r sl ++ bytes
      at (waiting b) a = grows (suc m) r (omega arith) h.low room (omega arith)
      at (writing b) a = grows (suc m) r (omega arith) h.low room (omega arith)
      at (written b) (e, inl full) =
          grows m (suc r) (omega arith) (under r w sl h full) (omega arith) (omega arith)
      at (written b) (e, inr over) = absurd (false≢true (sym on ∙ over))
      at exited over = absurd (false≢true (sym on ∙ over))

  -- a buffer that is not FULL leaves room
  pub has_room :
      (r w : ℕ) (sl : ℕ → Slot)
      → Window size m r w sl
      → (sl (w % suc m)).full ≡ false
      → w < r + suc m
  has_room r w sl h empty = elim (lt-or-le w (r + suc m)) [
    | inl room ↦ room
    | inr packed ↦
        let e : w ≡ r + suc m = omega (arith, h.high) in
        let back : w % suc m ≡ r % suc m = ap (λ j. j % suc m) e ∙ add-mod_right r (suc m) in
        absurd (
          false≢true
            (sym empty ∙ ap (λ j. (sl j).full) back ∙ (h.full r (omega arith) (omega arith)).0))
  ]

  -- where the buffer that is filled moves on to the next
  pub Open-push :
      (r w : ℕ) (sl : ℕ → Slot) (x : Slot) (out offset : ℕ) (closing : Bool)
      → w < r + suc m
      → Window size m r w sl
      → Open size m r w sl out offset closing
      → Open size m r (suc w) (put sl (w % suc m) x) (suc (w % suc m) % suc m) 0 closing
  Open-push r w sl x out offset closing room h o = record {
    running = o.running;
    at = sym (suc-mod w (suc m));
    held = λ inside.
        ap (λ s. s.len)
          (other size m sl (suc w) w x (inr (omega arith)) (omega arith) (omega arith))
        ∙ h.blank (suc w) (omega arith) inside;
    none_held = λ e. refl;
    small = omega (arith, o.small);
  }

module _ (size m : ℕ) {W : Type 0} (Valid : W → Type 0) (taken : W → Bytes) (io : Sink W) where
  abbrev Now : Threads W → Main → Consumer → Type 0
  Now = Inv size m Valid taken

  -- Behind a step that puts `x`, with `bytes` more, into the buffer to be filled.
  pub filled-Now :
      (t : Threads W) (p : Main) (c : Consumer) (i : Now t p c)
      (o : Open size m i.r i.w t.slots t.out_buffer t.offset t.closing) (w' offset out : ℕ)
      (p' : Main) (x : Slot) (bytes : Bytes)
      → i.w < i.r + suc m
      → data_of x ≡ data_of (t.slots (i.w % suc m)) ++ bytes
      → Window size m i.r w' (put t.slots (i.w % suc m) x)
      → AtMain size m p' i.r w' (put t.slots (i.w % suc m) x) out offset t.closing
      → Now
          (record t {
            slots = put t.slots (i.w % suc m) x;
            offset = offset;
            out_buffer = out;
            main = p';
            accepted = t.accepted ++ bytes;
          })
          p'
          c
  filled-Now t p c i o w' offset out p' x bytes room more window main = record {
    r = i.r;
    w = w';
    window = window;
    main = main;
    consumer =
        AtConsumer-put size m c i.r i.w t.slots x t.closing i.window room o.running i.consumer;
    child = i.child;
    whole =
        ap (λ z. z ++ bytes) i.whole
        ∙ append_assoc (taken t.child) (pending size m c i.r t.slots) bytes
        ∙ ap (λ z. taken t.child ++ z)
            (sym (
              pending_grow size m c i.r i.w t.slots x t.closing bytes i.window room o.running
                i.consumer more));
  }

  -- the same for one that keeps the bytes
  pub same-Now :
      (t : Threads W) (p : Main) (c : Consumer) (i : Now t p c)
      (o : Open size m i.r i.w t.slots t.out_buffer t.offset t.closing) (w' offset out : ℕ)
      (p' : Main) (x : Slot)
      → i.w < i.r + suc m
      → data_of x ≡ data_of (t.slots (i.w % suc m))
      → Window size m i.r w' (put t.slots (i.w % suc m) x)
      → AtMain size m p' i.r w' (put t.slots (i.w % suc m) x) out offset t.closing
      → Now
          (record t {
            slots = put t.slots (i.w % suc m) x;
            offset = offset;
            out_buffer = out;
            main = p';
          })
          p'
          c
  same-Now t p c i o w' offset out p' x room more window main =
      subst
        (λ z.
          Now
            (record t {
              slots = put t.slots (i.w % suc m) x;
              offset = offset;
              out_buffer = out;
              main = p';
              accepted = z;
            })
            p' c)
        (append-nil t.accepted)
        (filled-Now t p c i o w' offset out p' x [] room
          (more ∙ sym (append-nil (data_of (t.slots (i.w % suc m))))) window main)

  -- no step of the main thread, but for its place
  pub at-Now :
      (t : Threads W) (p p' : Main) (c : Consumer) (i : Now t p c)
      → AtMain size m p' i.r i.w t.slots t.out_buffer t.offset t.closing
      → Now (record t { main = p' }) p' c
  at-Now t p p' c i main = record {
    r = i.r;
    w = i.w;
    window = i.window;
    main = main;
    consumer = i.consumer;
    child = i.child;
    whole = i.whole;
  }
