-- ===== src/ThreadWriter/Ends.antt =====
-- The writing thread alone comes to its end, once `thread_wclose` has been called.
use wandio.Base.{
  ℕ, zero, suc, ◌+◌, ◌*◌, ◌%◌, ◌≤◌, ◌<◌, ◌≡◌, ◌∙◌, sym, Bool-cases, subst, ap, refl, inl, inr, Bool,
  true, false, ◌||◌, Option, none, some, lt-or-le, ltb, le→ltb, put, put_same, if◌then◌else◌, arith,
}
use wandio.Writer.{Sink}
use wandio.ThreadWriter.{
  Slot, Consumer, waiting, writing, written, exited, Threads, drain, write_out, flush_out,
  by_consumer, Reach, after,
}
use native.Mathlib.Nat.{suc-mod, add-mod_right}
use wandio.ThreadWriter.Inv.{other, AtConsumer}

module _ (size m : ℕ) {W : Type 0} (io : Sink W) where
  -- the writing thread alone, for so many steps
  pub drain_all : ℕ → Threads W → Threads W
  drain_all zero t = t
  drain_all (suc k) t = elim (drain io size (suc m) t t.consumer) [
    | none ↦ t
    | some t' ↦ drain_all k t'
  ]

  pub drain_all-Reach :
      (from t : Threads W) (k : ℕ)
      → Reach io size (suc m) from t
      → Reach io size (suc m) from (drain_all k t)
  unfolding drain_all
  drain_all-Reach from t zero h = h
  drain_all-Reach from t (suc k) h =
      by_one (λ t' h'. drain_all-Reach from t' k h') (drain io size (suc m) t t.consumer) refl
    where
      by_one :
          ((t' : Threads W)
            → Reach io size (suc m) from t'
            → Reach io size (suc m) from (drain_all k t'))
          → (o : Option (Threads W)) → drain io size (suc m) t t.consumer ≡ o
          → Reach io size (suc m) from (elim o [ none ↦ t | some t' ↦ drain_all k t' ])
      by_one further none e = h
      by_one further (some t') e = further t' (after h (by_consumer t t' e))

  -- a state that the writing thread leads to, in at most `k` steps, and that keeps `accepted`
  pub record Ends (t : Threads W) (k : ℕ) : Type 0 where
    pub steps : ℕ
    pub few : steps ≤ k
    pub over : (drain_all steps t).consumer ≡ exited
    pub same : (drain_all steps t).accepted ≡ t.accepted

  -- one step on
  Ends-step :
      (t t' : Threads W) (k : ℕ)
      → drain io size (suc m) t t.consumer ≡ some t'
      → t'.accepted ≡ t.accepted
      → Ends t' k
      → Ends t (suc k)
  unfolding drain_all
  Ends-step t t' k e same h =
      let next : drain_all (suc h.steps) t ≡ drain_all h.steps t' = rw (e, drain_all) in
      record {
        steps = suc h.steps;
        few = omega (arith, h.few);
        over = ap (λ z. z.consumer) next ∙ h.over;
        same = ap (λ z. z.accepted) next ∙ h.same ∙ same;
      }

  at_exit : (t : Threads W) (k : ℕ) → t.consumer ≡ exited → Ends t k
  unfolding drain_all
  at_exit t k e = record { steps = 0; few = omega arith; over = e; same = refl }

  -- the steps of one round, of a writer that is closing
  picked :
      (t : Threads W) (b : ℕ)
      → t.closing ≡ true
      → drain io size (suc m) t (waiting b) ≡ some (record t { consumer = writing b })
  unfolding drain
  picked t b e =
      ap (λ z. if z then some (record t { consumer = writing b }) else none)
        (ap (λ z. (t.slots b).full || z) e ∙ or_true (t.slots b).full)
    where
      or_true : (x : Bool) → (x || true) ≡ true
      or_true true = refl
      or_true false = refl

  given :
      (t : Threads W) (b : ℕ)
      → drain io size (suc m) t (writing b)
        ≡ some (record t {
          child =
              flush_out io size (suc m) (t.slots b) (write_out io size (suc m) (t.slots b) t.child);
          consumer = written b;
        })
  unfolding drain
  given t b = refl

  abbrev blank : Slot → Slot
  blank s = record s { len = 0; full = false; flush = false }

  abbrev reset : Threads W → ℕ → Bool → Threads W
  reset t b z = record t {
    slots = put t.slots b (blank (t.slots b));
    consumer = if z then waiting (suc b % suc m) else exited;
  }

  put_back :
      (t : Threads W) (b : ℕ)
      → drain io size (suc m) t (written b) ≡ some (reset t b (ltb 0 (t.slots b).len))
  unfolding drain
  put_back t b = refl

  -- `d` buffers from the `r`-th on may have data, the others have none
  abbrev Blank : ℕ → ℕ → (ℕ → Slot) → Type 0
  Blank r d sl = (k : ℕ) → r + d ≤ k → k < r + suc m → (sl (k % suc m)).len ≡ 0

  Blank-reset :
      (r d : ℕ) (sl : ℕ → Slot)
      → Blank r (suc d) sl
      → Blank (suc r) d (put sl (r % suc m) (blank (sl (r % suc m))))
  Blank-reset r d sl nothing k a b = elim (lt-or-le k (r + suc m)) [
    | inl inside ↦
        ap (λ s. s.len)
          (other size m sl k r (blank (sl (r % suc m))) (inr (omega arith)) inside (omega arith))
        ∙ nothing k (omega arith) inside
    | inr last ↦
        let e : r + suc m ≡ k = omega arith in
        subst (λ j. (put sl (r % suc m) (blank (sl (r % suc m))) j).len ≡ 0)
          (sym (add-mod_right r (suc m)) ∙ ap (λ j. j % suc m) e)
          (ap (λ s. s.len) (put_same sl (r % suc m) (blank (sl (r % suc m)))))
  ]

  -- the states of a round, from the test of the buffer `b` on
  abbrev behind_child : Threads W → ℕ → Threads W
  behind_child t b = record t {
    child = flush_out io size (suc m) (t.slots b) (write_out io size (suc m) (t.slots b) t.child);
    consumer = written b;
  }

  writing-Ends :
      (t : Threads W) (b k : ℕ)
      → t.consumer ≡ writing b
      → Ends (behind_child t b) k
      → Ends t (suc k)
  writing-Ends t b k at h =
      Ends-step t (behind_child t b) k (ap (drain io size (suc m) t) at ∙ given t b) refl h

  waiting-Ends :
      (t : Threads W) (b k : ℕ)
      → t.closing ≡ true
      → t.consumer ≡ waiting b
      → Ends (behind_child t b) k
      → Ends t (suc (suc k))
  waiting-Ends t b k closing at h =
      Ends-step t (record t { consumer = writing b }) (suc k)
        (ap (drain io size (suc m) t) at ∙ picked t b closing) refl
        (writing-Ends (record t { consumer = writing b }) b k refl h)

  -- by the number of buffers that may have data
  written-Ends :
      (t : Threads W) (r d : ℕ)
      → t.closing ≡ true
      → t.consumer ≡ written (r % suc m)
      → Blank r d t.slots
      → Ends t (3 * d + 1)
  written-Ends t r zero closing at nothing =
      let b = r % suc m in
      let empty : (t.slots b).len ≡ 0 = nothing r (omega arith) (omega arith) in
      Ends-step t (reset t b false) 0
        (ap (drain io size (suc m) t) at
          ∙ put_back t b
          ∙ ap (λ z. some (reset t b z)) (le→ltb 0 (t.slots b).len (omega arith)))
        refl (at_exit (reset t b false) 0 refl)
  written-Ends t r (suc d) closing at nothing =
      let b = r % suc m in
      let next = suc r % suc m in
      let t' = reset t b true in
      let on : Ends t' (suc (suc (3 * d + 1))) =
        waiting-Ends t' next (3 * d + 1) closing (ap waiting (sym (suc-mod r (suc m)))) (
          written-Ends (behind_child t' next) (suc r) d closing refl
            (Blank-reset r d t.slots nothing)) in
      let step : drain io size (suc m) t t.consumer ≡ some (reset t b (ltb 0 (t.slots b).len)) =
        ap (drain io size (suc m) t) at ∙ put_back t b in
      let e : suc (suc (suc (3 * d + 1))) ≡ 3 * suc d + 1 = omega arith in
      subst (Ends t) e (elim (Bool-cases (ltb 0 (t.slots b).len)) [
        | inl more ↦
            Ends-step t t' (suc (suc (3 * d + 1))) (step ∙ ap (λ z. some (reset t b z)) more) refl
              on
        | inr done ↦
            Ends-step t (reset t b false) (suc (suc (3 * d + 1)))
              (step ∙ ap (λ z. some (reset t b z)) done) refl
              (at_exit (reset t b false) (suc (suc (3 * d + 1))) refl)
      ])

  weaker : (t : Threads W) (k k' : ℕ) → k ≤ k' → Ends t k → Ends t k'
  weaker t k k' le h = record {
    steps = h.steps;
    few = omega (arith, h.few);
    over = h.over;
    same = h.same;
  }

  pub closing-Ends :
      (t : Threads W) (c : Consumer) (r : ℕ)
      → t.closing ≡ true
      → t.consumer ≡ c
      → AtConsumer size m c r t.slots t.closing
      → Ends t (3 * suc m + 3)
  closing-Ends t (waiting b) r closing at here =
      weaker t (suc (suc (3 * suc m + 1))) (3 * suc m + 3) (omega arith) (
        waiting-Ends t b (3 * suc m + 1) closing at (
          written-Ends (behind_child t b) r (suc m) closing (ap written here)
            (λ k a b. absurd (omega arith))))
  closing-Ends t (writing b) r closing at (here, held) =
      weaker t (suc (3 * suc m + 1)) (3 * suc m + 3) (omega arith) (
        writing-Ends t b (3 * suc m + 1) at (
          written-Ends (behind_child t b) r (suc m) closing (ap written here)
            (λ k a b. absurd (omega arith))))
  closing-Ends t (written b) r closing at (here, held) =
      weaker t (3 * suc m + 1) (3 * suc m + 3) (omega arith)
        (written-Ends t r (suc m) closing (at ∙ ap written here) (λ k a b. absurd (omega arith)))
  closing-Ends t exited r closing at over = at_exit t (3 * suc m + 3) at
