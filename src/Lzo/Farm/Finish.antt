-- ===== src/Lzo/Farm/Finish.antt =====
-- `lzo_wclose` can always be brought to its end.
use wandio.Base.{
  ℕ, zero, suc, ◌+◌, ◌-◌, ◌<◌, ◌≡◌, ◌∙◌, sym, subst, ap, refl, Bool, true, false, [], some, length,
  put_same, leb, lt→ltb, le→ltb, if◌then◌else◌, ℤ, Bytes, arith,
}
use wandio.Writer.Contract.{TakesAll}
use wandio.Lzo.{Lzo, write32}
use wandio.Lzo.Block.{Works, block_of}
use wandio.Lzo.Farm.{
  ThreadState, empty, waiting, full, Main, outside, writing, shutting, closed, failed, Farm,
  put_thread, stopped, shutdown_at, shutdown_thread, feed, by_thread, by_main, Reach, start, after,
}
use wandio.Lzo.Farm.Work.{with_block, work-waiting}
use wandio.Lzo.Farm.Shutting.{Shutting, Due, Due-count}
use wandio.Lzo.Farm.Closing.{Shut, Reach-Shut}

module _ (max_block m : ℕ) (lzo : Lzo) (works : Works lzo) {W : Type 0} (Valid : W → Type 0)
    (taken : W → Bytes) (write : W → Bytes → ℤ × W) (takes_all : TakesAll Valid taken write)
    (some_bytes : 0 < max_block) (goal : Bytes) where
  abbrev pub From : Farm W → Farm W → Type 0
  From = Reach max_block (suc m) lzo write

  abbrev Shuts : Bool → ℕ → Farm W → Type 0
  Shuts = Shutting max_block m lzo works Valid taken write takes_all some_bytes goal

  abbrev IsDue : Bool → ℕ → Farm W → Type 0
  IsDue = Due max_block m lzo works Valid taken write takes_all some_bytes goal

  trans : {a b c : Farm W} → From a b → From b c → From a c
  trans h start = h
  trans h (after k step) = after (trans h k) step

  due_feed :
      (second : Bool) (i : ℕ) (t : Farm W)
      → IsDue second i t
      → feed max_block (suc m) lzo write t (shutting second i)
        ≡ shutdown_at max_block (suc m) lzo write t i (shutting second (suc i)) (t.thread i).state
  unfolding feed shutdown_thread
  due_feed false i t due = rw (lt→ltb i (suc m) due) refl
  due_feed true i t due = rw (lt→ltb i t.next_thread due) refl

  -- one thread further
  Further : Bool → ℕ → Farm W → Type 0
  Further second i t =
      (t' : Farm W) × From t t'
      × (t'.main ≡ shutting second (suc i))
      × (t'.next_thread ≡ t.next_thread)

  further :
      (second : Bool) (i : ℕ) (t t' : Farm W)
      → t.main ≡ shutting second i
      → feed max_block (suc m) lzo write t (shutting second i) ≡ some t'
      → From t t'
  further second i t t' at e =
      after start (by_main t t' (ap (feed max_block (suc m) lzo write t) at ∙ e))

  full-Further :
      (second : Bool) (i : ℕ) (t : Farm W)
      → t.main ≡ shutting second i
      → IsDue second i t
      → (t.thread i).state ≡ full
      → Further second i t
  unfolding Further shutdown_at
  full-Further second i t at due is =
      let s = t.thread i in
      let t' =
        stopped max_block (suc m) lzo write (record t { child = (write t.child s.outbuf).1 }) i
          (record s { state = empty; inbuf = [] }) (shutting second (suc i)) in
      (
        t',
        further second i t t' at (
            due_feed second i t due
            ∙ ap (shutdown_at max_block (suc m) lzo write t i (shutting second (suc i))) is),
        refl,
        refl,
      )

  IsDue-same :
      (second : Bool) (i : ℕ) (t t' : Farm W)
      → t'.next_thread ≡ t.next_thread
      → IsDue second i t
      → IsDue second i t'
  IsDue-same false i t t' e due = due
  IsDue-same true i t t' e due = subst (λ n. i < n) (sym e) due

  round-Further :
      (second : Bool) (i : ℕ) (t : Farm W)
      → t.main ≡ shutting second i
      → IsDue second i t
      → Shuts second i t
      → Further second i t
  unfolding Further shutdown_at
  round-Further second i t at due h = go (t.thread i).state refl
    where
      go : (z : ThreadState) → (t.thread i).state ≡ z → Further second i t
      go full is = full-Further second i t at due is
      go empty is =
          let s = t.thread i in
          let t' = stopped max_block (suc m) lzo write t i s (shutting second (suc i)) in
          (
            t',
            further second i t t' at (
                due_feed second i t due
                ∙ ap (shutdown_at max_block (suc m) lzo write t i (shutting second (suc i))) is
                ∙ ap (λ b. some (if leb (length b) 0 then t' else record t { main = failed }))
                    (h.none_left i is)),
            refl,
            refl,
          )
      go waiting is =
          let s = t.thread i in
          let x = with_block s (block_of max_block lzo works s.inbuf) in
          let t1 = put_thread t i x in
          let (c, counted, inside) =
            Due-count max_block m lzo works Valid taken write takes_all some_bytes goal second i t
              due h in
          let (t', reached, at', same) =
            full-Further second i t1 at (IsDue-same second i t t1 refl due)
              (ap (λ y. y.state) (put_same t.thread i x)) in
          (
            t',
            trans
                (after start (
                  by_thread t t1 i inside
                    (work-waiting max_block m lzo works write t i is (h.fit i))))
                reached,
            at',
            same,
          )

  abbrev pub Finishes : Farm W → Type 0
  Finishes t = (t' : Farm W) × From t t' × (t'.main ≡ closed)

  continued : (t t' : Farm W) → From t t' → Finishes t' → Finishes t
  continued t t' h (t'', k, at) = (t'', trans h k, at)

  keeps :
      (t t' : Farm W) (second second' : Bool) (i j : ℕ)
      → From t t'
      → t.main ≡ shutting second i
      → t'.main ≡ shutting second' j
      → Shuts second i t
      → Shuts second' j t'
  keeps t t' second second' i j reached at at' h =
      let shut = Shut max_block m lzo works Valid taken write takes_all some_bytes goal in
      subst (λ p. shut p t') at'
        (Reach-Shut max_block m lzo works Valid taken write takes_all some_bytes goal t t' reached
          (subst (λ p. shut p t) (sym at) h))

  second_loop :
      (n i : ℕ) (t : Farm W)
      → i + n ≡ t.next_thread
      → t.main ≡ shutting true i
      → Shuts true i t
      → Finishes t
  unfolding feed Further
  second_loop zero i t sum at h =
      let t' : Farm W = record t { child = (write t.child (write32 0)).1; main = closed } in
      (t', further true i t t' at (rw (le→ltb i t.next_thread (omega (arith, sum))) refl), refl)
  second_loop (suc n) i t sum at h =
      let (t', reached, at', same) = round-Further true i t at (omega (arith, sum)) h in
      continued t t' reached (
        second_loop n (suc i) t' (omega (arith, same, sum)) at'
          (keeps t t' true true i (suc i) reached at at' h))

  first_loop :
      (n i : ℕ) (t : Farm W)
      → i + n ≡ suc m
      → t.main ≡ shutting false i
      → Shuts false i t
      → Finishes t
  unfolding feed Further
  first_loop zero i t sum at h =
      let t' : Farm W = record t { main = shutting true 0 } in
      let reached = further false i t t' at (rw (le→ltb i (suc m) (omega (arith, sum))) refl) in
      continued t t' reached (
        second_loop t.next_thread 0 t' (omega arith) refl
          (keeps t t' false true i 0 reached at refl h))
  first_loop (suc n) i t sum at h =
      let (t', reached, at', same) = round-Further false i t at (omega (arith, sum)) h in
      continued t t' reached (
        first_loop n (suc i) t' (omega (arith, sum)) at'
          (keeps t t' false false i (suc i) reached at at' h))

  -- from anywhere in `lzo_wclose`
  pub Shut-Finishes :
      (p : Main) (t : Farm W)
      → t.main ≡ p
      → Shut max_block m lzo works Valid taken write takes_all some_bytes goal p t
      → Finishes t
  Shut-Finishes (outside v) t at h = absurd h
  Shut-Finishes (writing b) t at h = absurd h
  Shut-Finishes (shutting false i) t at h =
      let sum : i + (suc m - i) ≡ suc m = omega (arith, h.place.1) in
      first_loop (suc m - i) i t sum at h
  Shut-Finishes (shutting true i) t at h = second_loop h.count i t h.place at h
  Shut-Finishes closed t at h = (t, start, at)
  Shut-Finishes failed t at h = absurd h
