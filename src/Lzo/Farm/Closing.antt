-- ===== src/Lzo/Farm/Closing.antt =====
-- `lzo_wclose`: what the child has been given at the end.
use wandio.Base.{
  ℕ, suc, ◌%◌, ◌<◌, ◌≡◌, ◌∙◌, sym, subst, ap, refl, false, [], ◌++◌, Option, put, put_all,
  contents_mod, contents_none, ℤ, Bytes, arith,
}
use native.Mathlib.Nat.{zero-mul, zero-mod, mod-lt, mod-mod, suc-mod}
use wandio.Writer.Contract.{TakesAll}
use wandio.Lzo.{Lzo}
use wandio.Lzo.Block.{Works}
use wandio.Lzo.Farm.{
  empty, LzoThread, Main, outside, writing, shutting, closed, failed, Farm, fresh, last_state,
  lzo_wclose, feed, Step, by_thread, by_main, write_call, Reach, start, after,
}
use wandio.Lzo.Farm.Filling.{data_of, Fit, ring, Filling}
use wandio.Lzo.Farm.Writing.{AtFill, Step-Still}
use wandio.Lzo.Farm.Shutting.{AtShut, Kept, feed-Kept, work-Kept}

module _ (max_block m : ℕ) (lzo : Lzo) (works : Works lzo) {W : Type 0} (Valid : W → Type 0)
    (taken : W → Bytes) (write : W → Bytes → ℤ × W) (takes_all : TakesAll Valid taken write)
    (some_bytes : 0 < max_block) where
  abbrev pub Fills : Bytes → Farm W → Type 0
  Fills = Filling max_block m lzo works Valid taken write takes_all some_bytes

  abbrev pub From : Farm W → Farm W → Type 0
  From = Reach max_block (suc m) lzo write

  opened : (w : W) → Valid w → Fills (taken w) (fresh max_block (suc m) lzo write w)
  opened w good = record {
    d = 0;
    ahead = [];
    at = sym (zero-mod (suc m));
    even = sym (zero-mul max_block);
    fit = λ j. some_bytes;
    up = λ j. (refl, refl);
    others = λ j ne e. refl;
    child = good;
    whole =
        ap (λ z. taken w ++ z)
          (contents_none (data_of max_block m lzo works) (suc m) (suc m) 0
            (fresh max_block (suc m) lzo write w).thread (λ j a b. refl));
    over = refl;
  }

  pub Reach-Fills :
      (w : W)
      → Valid w
      → (t : Farm W) → From (fresh max_block (suc m) lzo write w) t
      → AtFill max_block m lzo works write Valid taken takes_all some_bytes (taken w) t.main t
  Reach-Fills w good _ start = opened w good
  Reach-Fills w good t' (after {t} reached step) =
      Step-Still max_block m lzo works write Valid taken takes_all some_bytes (taken w) t t' step
        (Reach-Fills w good t reached)

  module _ (goal : Bytes) where
    abbrev pub Shut : Main → Farm W → Type 0
    Shut = AtShut max_block m lzo works Valid taken write takes_all some_bytes goal

    abbrev Keep : Option (Farm W) → Type 0
    Keep = Kept max_block m lzo works Valid taken write takes_all some_bytes goal

    main-Keep : (t : Farm W) (p : Main) → Shut p t → Keep (feed max_block (suc m) lzo write t p)
    unfolding feed
    main-Keep t (outside v) h = absurd h
    main-Keep t (writing b) h = absurd h
    main-Keep t (shutting second i) h =
        feed-Kept max_block m lzo works Valid taken write takes_all some_bytes goal second i t h
    main-Keep t closed h = tt
    main-Keep t failed h = tt

    Step-Shut :
        (t t' : Farm W) → Step max_block (suc m) lzo write t t' → Shut t.main t → Shut t'.main t'
    Step-Shut _ _ (by_thread t t' i inside e) h =
        subst Keep e
          (work-Kept max_block m lzo works Valid taken write takes_all some_bytes goal i t h)
    Step-Shut _ _ (by_main t t' e) h = subst Keep e (main-Keep t t.main h)
    Step-Shut _ _ (write_call t v buffer e) h = absurd (subst (λ p. Shut p t) e h)

    pub Reach-Shut : (t t' : Farm W) → From t t' → Shut t.main t → Shut t'.main t'
    Reach-Shut from _ start h = h
    Reach-Shut from t' (after {t} reached step) h =
        Step-Shut t t' step (Reach-Shut from t reached h)

  -- the thread whose turn it is, as `lzo_wclose` leaves it
  abbrev pub last : Farm W → LzoThread
  last t = let s = t.thread t.next_thread in record s { state = last_state s.state s.inbuf }

  pub lzo_wclose-Shutting :
      (from goal : Bytes) (t : Farm W)
      → (h : Fills from t) → Fit max_block m lzo works (last t).state (last t)
      → ((last t).state ≡ empty → (last t).inbuf ≡ [])
      → taken t.child ++ ring max_block m lzo works (suc h.d) (put t.thread t.next_thread (last t))
        ≡ goal
      → Shut goal
          (shutting false (suc t.next_thread % suc m))
          (lzo_wclose max_block (suc m) lzo write t)
  lzo_wclose-Shutting from goal t h fits blank whole =
      let next = suc t.next_thread % suc m in
      let inside : next < suc m = mod-lt (suc t.next_thread) (omega arith) in
      let at : next % suc m ≡ suc h.d % suc m =
        mod-mod (suc t.next_thread) (suc m)
        ∙ ap (λ z. suc z % suc m) h.at
        ∙ sym (suc-mod h.d (suc m)) in
      record {
        count = suc m;
        few = omega arith;
        place = (refl, omega (arith, inside));
        small = inside;
        fit =
            put_all (λ j y. Fit max_block m lzo works y.state y) t.thread t.next_thread (last t)
              fits (λ j ne. h.fit j);
        none_left =
            put_all (λ j y. y.state ≡ empty → y.inbuf ≡ []) t.thread t.next_thread (last t) blank
              (λ j ne. h.others j ne);
        child = h.child;
        whole =
            ap (λ z. taken t.child ++ z)
              (contents_mod (data_of max_block m lzo works) (suc m) (suc m) next (suc h.d)
                (put t.thread t.next_thread (last t)) at)
            ∙ whole;
      }
