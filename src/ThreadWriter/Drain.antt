-- ===== src/ThreadWriter/Drain.antt =====
-- The steps of the writing thread keep the invariant.
use wandio.Writer.Contract.{Flushes, TakesAll}
use wandio.Base.{
  contents, contents_same, contents_last, ℕ, suc, ◌+◌, ◌%◌, ◌≤◌, ◌<◌, ◌≡◌, ◌⊎◌, ◌∙◌, sym, subst, ap,
  refl, inl, inr, Bool, true, false, ◌||◌, ◌++◌, append-nil, append_assoc, Option, none, some,
  length, take, put, put_same, lt-or-le, ltb, not_ltb→le, lt→ltb, Bool-cases, if◌then◌else◌, Bytes,
  arith,
}
use wandio.Writer.{Sink}
use wandio.ThreadWriter.{
  Slot, Consumer, waiting, writing, written, exited, Main, outside, wanting, copying, moved, closed,
  Threads, write_out, flush_out, drain,
}
use wandio.ThreadWriter.Slots.{data_of, contents_blank}
use wandio.ThreadWriter.Inv.{Window, other, Window-pop, Open, AtMain, Inv, Kept}
use mathlib.Core.Bool.{false≢true}
use native.Mathlib.Nat.{suc-mod, add-mod_right}

module _ (size m : ℕ) where
  Open-pop :
      (r w : ℕ) (sl : ℕ → Slot) (x : Slot) (out offset : ℕ) (closing : Bool)
      → x.len ≡ 0
      → r < w
      → w ≤ r + suc m
      → Open size m r w sl out offset closing
      → Open size m (suc r) w (put sl (r % suc m) x) out offset closing
  Open-pop r w sl x out offset closing nothing low high o = record {
    running = o.running;
    at = o.at;
    held = λ room. elim (lt-or-le w (r + suc m)) [
      | inl inside ↦
          ap (λ s. s.len) (other size m sl w r x (inr low) inside (omega arith)) ∙ o.held inside
      | inr last ↦
          let e : r + suc m ≡ w = omega arith in
          subst (λ j. (put sl (r % suc m) x j).len ≡ offset)
            (sym (add-mod_right r (suc m)) ∙ ap (λ j. j % suc m) e)
            (ap (λ s. s.len) (put_same sl (r % suc m) x) ∙ nothing ∙ sym (o.none_held (sym e)))
    ];
    none_held = λ e. absurd (omega arith);
    small = o.small;
  }

  AtMain-pop :
      (p : Main) (r w : ℕ) (sl : ℕ → Slot) (x : Slot) (out offset : ℕ) (closing : Bool)
      → x.len ≡ 0
      → r < w
      → w ≤ r + suc m
      → AtMain size m p r w sl out offset closing
      → AtMain size m p (suc r) w (put sl (r % suc m) x) out offset closing
  AtMain-pop closed r w sl x out offset closing nothing low high o = o
  AtMain-pop (outside v) r w sl x out offset closing nothing low high (o, u) =
      (Open-pop r w sl x out offset closing nothing low high o, tt)
  AtMain-pop (wanting b c) r w sl x out offset closing nothing low high (o, u) =
      (Open-pop r w sl x out offset closing nothing low high o, tt)
  AtMain-pop (copying s b c) r w sl x out offset closing nothing low high (o, (room, fits)) =
      (Open-pop r w sl x out offset closing nothing low high o, (omega arith, fits))
  AtMain-pop (moved s b c) r w sl x out offset closing nothing low high (o, (room, fits, is)) = (
    Open-pop r w sl x out offset closing nothing low high o,
    (
      omega arith,
      fits,
      subst (λ y. take (offset + length s) y.space ≡ take offset y.space ++ s)
          (sym (other size m sl w r x (inr low) room (omega arith))) is,
    ),
  )

  -- once closed, the main thread's place says no more
  AtMain-closed :
      (p : Main) (r r' w w' : ℕ) (sl sl' : ℕ → Slot) (out offset : ℕ) (closing : Bool)
      → closing ≡ true
      → AtMain size m p r w sl out offset closing
      → AtMain size m p r' w' sl' out offset closing
  AtMain-closed closed r r' w w' sl sl' out offset closing over o = o
  AtMain-closed (outside v) r r' w w' sl sl' out offset closing over (o, u) =
      absurd (false≢true (sym o.running ∙ over))
  AtMain-closed (wanting b c) r r' w w' sl sl' out offset closing over (o, u) =
      absurd (false≢true (sym o.running ∙ over))
  AtMain-closed (copying s b c) r r' w w' sl sl' out offset closing over (o, u) =
      absurd (false≢true (sym o.running ∙ over))
  AtMain-closed (moved s b c) r r' w w' sl sl' out offset closing over (o, u) =
      absurd (false≢true (sym o.running ∙ over))

  -- the ring without the buffer that has been reset
  contents_pop :
      (r : ℕ) (sl : ℕ → Slot) (x : Slot)
      → x.len ≡ 0
      → contents data_of (suc m) (suc m) (suc r) (put sl (r % suc m) x)
        ≡ contents data_of (suc m) m (suc r) sl
  contents_pop r sl x nothing =
      let sl' = put sl (r % suc m) x in
      let back : (suc r + m) % suc m ≡ r % suc m =
        ap (λ j. j % suc m) (let e : suc r + m ≡ r + suc m = omega arith in e)
        ∙ add-mod_right r (suc m) in
      contents_last data_of (suc m) m (suc r) sl'
      ∙ ap (λ z. contents data_of (suc m) m (suc r) sl' ++ data_of z)
          (ap sl' back ∙ put_same sl (r % suc m) x)
      ∙ ap (λ z. contents data_of (suc m) m (suc r) sl' ++ take z x.space) nothing
      ∙ append-nil (contents data_of (suc m) m (suc r) sl')
      ∙ contents_same data_of (suc m) m (suc r) sl sl'
          (λ j a b. ap data_of (other size m sl j r x (inr a) (omega arith) (omega arith)))

module _ (size m : ℕ) {W : Type 0} (Valid : W → Type 0) (taken : W → Bytes) (io : Sink W)
    (all : TakesAll Valid taken io.write) (flushes : Flushes Valid taken io) where
  abbrev Now : Threads W → Main → Consumer → Type 0
  Now = Inv size m Valid taken

  abbrev Keep : Option (Threads W) → Type 0
  Keep = Kept size m Valid taken

  -- the buffer's data is with the child
  out-taken :
      (s : Slot) (w : W)
      → Valid w
      → let w' = flush_out io size (suc m) s (write_out io size (suc m) s w) in
        Valid w' × (taken w' ≡ taken w ++ data_of s)
  out-taken s w good =
      let (v, e) = wrote (ltb 0 s.len) refl in
      let (v', e') = done s.flush (write_out io size (suc m) s w) v in (v', e' ∙ e)
    where
      wrote :
          (z : Bool)
          → ltb 0 s.len ≡ z
          → let w' = if z then (io.write w (take s.len s.space)).1 else w in
            Valid w' × (taken w' ≡ taken w ++ data_of s)
      wrote true e = ((all.takes w (data_of s) good).0, (all.takes w (data_of s) good).1)
      wrote false e =
          let zero_len : s.len ≡ 0 = omega (arith, not_ltb→le 0 s.len e) in
          (good, sym (ap (λ z. taken w ++ take z s.space) zero_len ∙ append-nil (taken w)))

      done :
          (z : Bool) (w' : W)
          → Valid w'
          → let w2 = if z then (io.flush w').1 else w' in Valid w2 × (taken w2 ≡ taken w')
      done true w' v = flushes.keeps w' v
      done false w' v = (v, refl)

  if-Keep :
      (z : Bool) (a : Threads W)
      → (z ≡ true → Now a a.main a.consumer)
      → Keep (if z then some a else none)
  if-Keep true a h = h refl
  if-Keep false a h = tt

  full_or_closing : (x y : Bool) → (x || y) ≡ true → (x ≡ true) ⊎ (y ≡ true)
  full_or_closing true y e = inl refl
  full_or_closing false y e = inr e

  abbrev blank : Slot → Slot
  blank s = record s { len = 0; full = false; flush = false }

  -- the state behind the reset of the buffer `b`, by the test of its length
  abbrev reset : Threads W → ℕ → Bool → Threads W
  reset t b z = record t {
    slots = put t.slots b (blank (t.slots b));
    consumer = if z then waiting (suc b % suc m) else exited;
  }

  -- the thread goes on behind the `r`-th buffer, with `w'` the one to be filled
  goes_on :
      (t : Threads W) (r w w' : ℕ)
      → Window size m (suc r) w' (put t.slots (r % suc m) (blank (t.slots (r % suc m))))
      → AtMain size m t.main
          (suc r)
          w'
          (put t.slots (r % suc m) (blank (t.slots (r % suc m))))
          t.out_buffer
          t.offset
          t.closing
      → Valid t.child
      → t.accepted ≡ taken t.child ++ contents data_of (suc m) m (suc r) t.slots
      → let t' = reset t (r % suc m) true in Now t' t'.main t'.consumer
  goes_on t r w w' window main child whole = record {
    r = suc r;
    w = w';
    window = window;
    main = main;
    consumer = sym (suc-mod r (suc m));
    child = child;
    whole =
        whole
        ∙ ap (λ z. taken t.child ++ z)
            (sym (contents_pop size m r t.slots (blank (t.slots (r % suc m))) refl));
  }

  reset-Now :
      (t : Threads W) (r w : ℕ) (z : Bool)
      → Window size m r w t.slots
      → AtMain size m t.main r w t.slots t.out_buffer t.offset t.closing
      → ((t.slots (r % suc m)).full ≡ true) ⊎ (t.closing ≡ true)
      → Valid t.child
      → t.accepted ≡ taken t.child ++ contents data_of (suc m) m (suc r) t.slots
      → ltb 0 (t.slots (r % suc m)).len ≡ z
      → let t' = reset t (r % suc m) z in Now t' t'.main t'.consumer
  reset-Now t r w z window main held child whole test = elim (lt-or-le r w) [
    | inl low ↦
        let x = blank (t.slots (r % suc m)) in
        let popped =
          Window-pop size m r w w t.slots x refl refl (window.sized (r % suc m)) (omega arith)
            (inr (low, refl)) window in
        let there : z ≡ true =
          sym test ∙ lt→ltb 0 (t.slots (r % suc m)).len (window.full r (omega arith) low).1 in
        subst (λ y. let t' = reset t (r % suc m) y in Now t' t'.main t'.consumer) (sym there)
          (goes_on t r w w popped
            (AtMain-pop size m t.main r w t.slots x t.out_buffer t.offset t.closing refl low
              window.high main)
            child whole)
    | inr last ↦
        let x = blank (t.slots (r % suc m)) in
        let e : w ≡ r = omega (arith, window.low) in
        let over = closed_here t r w e window held in
        let popped =
          Window-pop size m r w (suc r) t.slots x refl refl (window.sized (r % suc m)) (omega arith)
            (inl (e, refl)) window in
        let main' =
          AtMain-closed size m t.main r (suc r) w (suc r) t.slots (put t.slots (r % suc m) x)
            t.out_buffer t.offset t.closing over main in
        elim (Bool-cases z) [
          | inl on ↦
              subst (λ y. let t' = reset t (r % suc m) y in Now t' t'.main t'.consumer) (sym on)
                (goes_on t r w (suc r) popped main' child whole)
          | inr off ↦
              subst (λ y. let t' = reset t (r % suc m) y in Now t' t'.main t'.consumer) (sym off)
                (record {
                  r = suc r;
                  w = suc r;
                  window = popped;
                  main = main';
                  consumer = over;
                  child = child;
                  whole =
                      whole
                      ∙ ap (λ y. taken t.child ++ y)
                          (contents_blank (suc m) m (suc r) t.slots
                            (λ j a b. window.blank j (omega arith) (omega arith)));
                })
        ]
  ]
    where
      closed_here :
          (t : Threads W) (r w : ℕ)
          → w ≡ r
          → Window size m r w t.slots
          → ((t.slots (r % suc m)).full ≡ true) ⊎ (t.closing ≡ true)
          → t.closing ≡ true
      closed_here t r w e window (inl full) =
          absurd (false≢true (sym (window.free r (omega arith) (omega arith)) ∙ full))
      closed_here t r w e window (inr over) = over

  reset-Keep :
      (t : Threads W) (b : ℕ)
      → Now t t.main (written b)
      → let t' = reset t b (ltb 0 (t.slots b).len) in Now t' t'.main t'.consumer
  reset-Keep t b i =
      subst (λ j. let t' = reset t j (ltb 0 (t.slots j).len) in Now t' t'.main t'.consumer)
        (sym i.consumer.0)
        (reset-Now t i.r i.w (ltb 0 (t.slots (i.r % suc m)).len) i.window i.main i.consumer.1
          i.child i.whole refl)

  pub drain-Kept :
      (t : Threads W) (c : Consumer) → Now t t.main c → Keep (drain io size (suc m) t c)
  unfolding drain
  drain-Kept t (waiting b) i =
      if-Keep ((t.slots b).full || t.closing) (record t { consumer = writing b })
        (λ e. record {
          r = i.r;
          w = i.w;
          window = i.window;
          main = i.main;
          consumer = (
            i.consumer,
            subst (λ j. ((t.slots j).full ≡ true) ⊎ (t.closing ≡ true)) i.consumer
                (full_or_closing (t.slots b).full t.closing e),
          );
          child = i.child;
          whole = i.whole;
        })
  drain-Kept t (writing b) i =
      let (v, e) = out-taken (t.slots b) t.child i.child in
      let rest = contents data_of (suc m) m (suc i.r) t.slots in
      record {
        r = i.r;
        w = i.w;
        window = i.window;
        main = i.main;
        consumer = i.consumer;
        child = v;
        whole =
            i.whole
            ∙ ap (λ j. taken t.child ++ (data_of (t.slots j) ++ rest)) (sym i.consumer.0)
            ∙ sym (append_assoc (taken t.child) (data_of (t.slots b)) rest)
            ∙ ap (λ z. z ++ rest) (sym e);
      }
  drain-Kept t (written b) i = reset-Keep t b i
  drain-Kept t exited i = tt
