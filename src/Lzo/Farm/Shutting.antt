-- ===== src/Lzo/Farm/Shutting.antt =====
-- The two loops of `lzo_wclose`.
use wandio.Base.{
  ℕ, zero, suc, ◌+◌, ◌%◌, ◌≤◌, ◌<◌, ◌≡◌, ◌≢◌, ◌∙◌, sym, subst, ap, refl, Bool, true, false, [],
  ◌++◌, append-nil, append_assoc, Option, none, some, length, put, put_other, put_all, mod_apart,
  leb, ltb, ltb→lt, not_ltb→le, if◌then◌else◌, inl, inr, contents, contents_same, contents_mod, ℤ,
  Bytes, arith,
}
use native.Mathlib.Nat.{zero-mod, mod_self, mod-eq_of_lt}
use wandio.Writer.Contract.{TakesAll}
use wandio.Lzo.{Lzo, write32}
use wandio.Lzo.Block.{Works, block_of}
use wandio.Lzo.Farm.{
  ThreadState, empty, waiting, full, LzoThread, Main, outside, writing, shutting, closed, failed,
  Farm, put_thread, stopped, shutdown_at, shutdown_thread, feed, work,
}
use wandio.Lzo.Farm.Filling.{data_of, data_none, data_full, Fit}
use wandio.Lzo.Farm.Work.{with_block, with_block-Fit, work-Worked}

-- how many threads are left, in the first or the second loop
abbrev pub Place : Bool → ℕ → ℕ → ℕ → ℕ → Type 0
Place false n i count next = (i + count ≡ next + n) × (i ≤ n)
Place true n i count next = i + count ≡ next

module _ (max_block m : ℕ) (lzo : Lzo) (works : Works lzo) {W : Type 0} (Valid : W → Type 0)
    (taken : W → Bytes) (write : W → Bytes → ℤ × W) (takes_all : TakesAll Valid taken write)
    (some_bytes : 0 < max_block) (goal : Bytes) where
  abbrev left : ℕ → ℕ → (ℕ → LzoThread) → Bytes
  left count i sl = contents (data_of max_block m lzo works) (suc m) count i sl

  -- what the child has and what is left makes `goal`
  pub record Shutting (second : Bool) (i : ℕ) (t : Farm W) : Type 0 where
    pub count : ℕ
    pub few : count ≤ suc m
    pub place : Place second (suc m) i count t.next_thread
    pub small : t.next_thread < suc m
    pub fit : (j : ℕ) → Fit max_block m lzo works (t.thread j).state (t.thread j)
    pub none_left : (j : ℕ) → (t.thread j).state ≡ empty → (t.thread j).inbuf ≡ []
    pub child : Valid t.child
    pub whole : taken t.child ++ left count i t.thread ≡ goal

  -- behind the loops: with the end marker
  pub record Over (t : Farm W) : Type 0 where
    pub fit : (j : ℕ) → Fit max_block m lzo works (t.thread j).state (t.thread j)
    pub child : Valid t.child
    pub whole : taken t.child ≡ goal ++ write32 0

  -- a thread in a place where both have the same data
  Shutting-put :
      (second : Bool) (i k : ℕ) (t : Farm W) (x : LzoThread)
      → data_of max_block m lzo works x ≡ data_of max_block m lzo works (t.thread k)
      → x.state ≢ empty
      → Fit max_block m lzo works x.state x
      → Shutting second i t
      → Shutting second i (put_thread t k x)
  Shutting-put second i k t x same busy fits h =
      let same' =
        put_all
          (λ j y. data_of max_block m lzo works y ≡ data_of max_block m lzo works (t.thread j))
          t.thread k x same (λ j ne. refl) in
      record {
        count = h.count;
        few = h.few;
        place = h.place;
        small = h.small;
        fit =
            put_all (λ j y. Fit max_block m lzo works y.state y) t.thread k x fits
              (λ j ne. h.fit j);
        none_left =
            put_all (λ j y. y.state ≡ empty → y.inbuf ≡ []) t.thread k x (λ e. absurd (busy e))
              (λ j ne. h.none_left j);
        child = h.child;
        whole =
            ap (λ z. taken t.child ++ z)
              (contents_same (data_of max_block m lzo works) (suc m) h.count i t.thread
                (put t.thread k x) (λ j a b. same' (j % suc m)))
            ∙ h.whole;
      }

  -- the thread at `i` is not done with, and `i` is one of the threads
  abbrev pub Due : Bool → ℕ → Farm W → Type 0
  Due false i t = i < suc m
  Due true i t = i < t.next_thread

  pub Due-count :
      (second : Bool) (i : ℕ) (t : Farm W)
      → Due second i t
      → (h : Shutting second i t) → (c : ℕ) × (h.count ≡ suc c) × (i < suc m)
  Due-count second i t due h = at second h.count due h.place
    where
      at :
          (second : Bool) (count : ℕ)
          → Due second i t
          → Place second (suc m) i count t.next_thread
          → (c : ℕ) × (count ≡ suc c) × (i < suc m)
      at false zero due place = absurd (omega (arith, place.0, h.small, due))
      at false (suc c) due place = (c, refl, due)
      at true zero due place = absurd (omega (arith, place, due))
      at true (suc c) due place = (c, refl, omega (arith, h.small, due))

  -- the thread at `i` is done with, and the child has what was left for it
  Shutting-next :
      (second : Bool) (i : ℕ) (t : Farm W) (x : LzoThread) (w' : W) (p : Main)
      → Due second i t
      → x.state ≡ empty
      → x.inbuf ≡ []
      → Valid w'
      → taken w' ≡ taken t.child ++ data_of max_block m lzo works (t.thread i)
      → Shutting second i t
      → Shutting second (suc i) (record t { child = w'; thread = put t.thread i x; main = p })
  Shutting-next second i t x w' p due is blank good got h =
      let (c, counted, inside) = Due-count second i t due h in
      let rest = left c (suc i) t.thread in
      let here : i % suc m ≡ i = mod-eq_of_lt inside in
      record {
        count = c;
        few = omega (arith, h.few);
        place = step second h.count c counted due h.place;
        small = h.small;
        fit =
            put_all (λ j y. Fit max_block m lzo works y.state y) t.thread i x
              (subst (λ z. Fit max_block m lzo works z x) (sym is)
                (subst (λ z. length z < max_block) (sym blank) some_bytes))
              (λ j ne. h.fit j);
        none_left =
            put_all (λ j y. y.state ≡ empty → y.inbuf ≡ []) t.thread i x (λ e. blank)
              (λ j ne. h.none_left j);
        child = good;
        whole =
            ap (λ z. z ++ left c (suc i) (put t.thread i x)) got
            ∙ ap (λ z. (taken t.child ++ data_of max_block m lzo works (t.thread i)) ++ z)
                (contents_same (data_of max_block m lzo works) (suc m) c (suc i) t.thread
                  (put t.thread i x)
                  (λ j a b. ap (data_of max_block m lzo works) (
                    put_other t.thread i (j % suc m) x (λ e.
                      mod_apart (suc m) i j (omega arith) (omega (arith, h.few, counted))
                        (here ∙ sym e)))))
            ∙ append_assoc (taken t.child) (data_of max_block m lzo works (t.thread i)) rest
            ∙ ap (λ j. taken t.child ++ (data_of max_block m lzo works (t.thread j) ++ rest))
                (sym here)
            ∙ ap (λ z. taken t.child ++ left z i t.thread) (sym counted)
            ∙ h.whole;
      }
    where
      step :
          (second : Bool) (count c : ℕ)
          → count ≡ suc c
          → Due second i t
          → Place second (suc m) i count t.next_thread
          → Place second (suc m) (suc i) c t.next_thread
      step false count c e due (sum, few) = (omega arith, omega arith)
      step true count c e due sum = omega arith

  -- the main thread in `lzo_wclose` and behind it
  abbrev pub AtShut : Main → Farm W → Type 0
  AtShut (outside v) t = ⊥
  AtShut (writing b) t = ⊥
  AtShut (shutting second i) t = Shutting second i t
  AtShut closed t = Over t
  AtShut failed t = ⊥

  abbrev pub Kept : Option (Farm W) → Type 0
  Kept none = Unit
  Kept (some t) = AtShut t.main t

  shutdown_thread-Kept :
      (second : Bool) (i : ℕ) (t : Farm W)
      → Due second i t
      → Shutting second i t
      → Kept (shutdown_thread max_block (suc m) lzo write t i (shutting second (suc i)))
  unfolding shutdown_thread shutdown_at
  shutdown_thread-Kept second i t due h = at (t.thread i).state refl
    where
      s : LzoThread
      s = t.thread i

      at :
          (z : ThreadState)
          → s.state ≡ z
          → Kept (shutdown_at max_block (suc m) lzo write t i (shutting second (suc i)) z)
      at empty is =
          let blank = h.none_left i is in
          subst
            (λ b. Kept (
              some (
                if leb (length b) 0
                then stopped max_block (suc m) lzo write t i s (shutting second (suc i))
                else record t { main = failed })))
            (sym blank)
            (Shutting-next second i t (record s { closing = true; running = false }) t.child
              (shutting second (suc i)) due is blank h.child
              (sym (append-nil (taken t.child))
                ∙ ap (λ z. taken t.child ++ z) (sym (data_none max_block m lzo works s is)))
              h)
      at waiting is = tt
      at full is =
          let got = takes_all.takes t.child s.outbuf h.child in
          Shutting-next second i t
            (record s { state = empty; inbuf = []; closing = true; running = false })
            (write t.child s.outbuf).1 (shutting second (suc i)) due refl refl got.0
            (got.1 ∙ ap (λ z. taken t.child ++ z) (sym (data_full max_block m lzo works s is))) h

  pub feed-Kept :
      (second : Bool) (i : ℕ) (t : Farm W)
      → Shutting second i t
      → Kept (feed max_block (suc m) lzo write t (shutting second i))
  unfolding feed
  feed-Kept false i t h = at (ltb i (suc m)) refl
    where
      at :
          (z : Bool)
          → ltb i (suc m) ≡ z
          → Kept (
              if z
              then shutdown_thread max_block (suc m) lzo write t i (shutting false (suc i))
              else some (record t { main = shutting true 0 }))
      at true e = shutdown_thread-Kept false i t (ltb→lt i (suc m) e) h
      at false e =
          let last : i ≡ suc m = omega (arith, not_ltb→le i (suc m) e, h.place.1) in
          record {
            count = h.count;
            few = h.few;
            place = let p : 0 + h.count ≡ t.next_thread = omega (arith, h.place.0, last) in p;
            small = h.small;
            fit = h.fit;
            none_left = h.none_left;
            child = h.child;
            whole =
                ap (λ z. taken t.child ++ z)
                  (contents_mod (data_of max_block m lzo works) (suc m) h.count 0 i t.thread
                    (zero-mod (suc m) ∙ sym (ap (λ z. z % suc m) last ∙ mod_self (suc m))))
                ∙ h.whole;
          }
  feed-Kept true i t h = at (ltb i t.next_thread) refl
    where
      at :
          (z : Bool)
          → ltb i t.next_thread ≡ z
          → Kept (
              if z
              then shutdown_thread max_block (suc m) lzo write t i (shutting true (suc i))
              else some (record t { child = (write t.child (write32 0)).1; main = closed }))
      at true e = shutdown_thread-Kept true i t (ltb→lt i t.next_thread e) h
      at false e =
          let over : h.count ≡ 0 = omega (arith, not_ltb→le i t.next_thread e, h.place) in
          let got = takes_all.takes t.child (write32 0) h.child in
          record {
            fit = h.fit;
            child = got.0;
            whole =
                got.1
                ∙ ap (λ z. z ++ write32 0)
                    (sym (append-nil (taken t.child))
                      ∙ ap (λ z. taken t.child ++ left z i t.thread) (sym over)
                      ∙ h.whole);
          }

  AtShut-put :
      (p : Main) (k : ℕ) (t : Farm W) (x : LzoThread)
      → data_of max_block m lzo works x ≡ data_of max_block m lzo works (t.thread k)
      → x.state ≢ empty
      → Fit max_block m lzo works x.state x
      → AtShut p t
      → AtShut p (put_thread t k x)
  AtShut-put (outside v) k t x same busy fits h = h
  AtShut-put (writing b) k t x same busy fits h = h
  AtShut-put (shutting second i) k t x same busy fits h =
      Shutting-put second i k t x same busy fits h
  AtShut-put closed k t x same busy fits h = record {
    fit = put_all (λ j y. Fit max_block m lzo works y.state y) t.thread k x fits (λ j ne. h.fit j);
    child = h.child;
    whole = h.whole;
  }
  AtShut-put failed k t x same busy fits h = h

  AtShut-Fit :
      (p : Main) (t : Farm W)
      → AtShut p t
      → (j : ℕ) → Fit max_block m lzo works (t.thread j).state (t.thread j)
  AtShut-Fit (outside v) t h = absurd h
  AtShut-Fit (writing b) t h = absurd h
  AtShut-Fit (shutting second i) t h = h.fit
  AtShut-Fit closed t h = h.fit
  AtShut-Fit failed t h = absurd h

  pub work-Kept :
      (k : ℕ) (t : Farm W) → AtShut t.main t → Kept (work max_block (suc m) lzo write t k)
  work-Kept k t h =
      let s = t.thread k in
      let fit = AtShut-Fit t.main t h k in
      elim (work-Worked max_block m lzo works write t k fit) [
        | inl idle ↦ subst Kept (sym idle) tt
        | inr (is, e) ↦
            let (same, fits, up, busy) = with_block-Fit max_block m lzo works write s is fit in
            let x = with_block s (block_of max_block lzo works s.inbuf) in
            subst Kept (sym e) (AtShut-put t.main k t x same (λ y. cc y) fits h)
      ]
