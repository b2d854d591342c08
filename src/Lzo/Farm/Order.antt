-- ===== src/Lzo/Farm/Order.antt =====
-- The order of the blocks in the file.
use wandio.Base.{ℕ, suc, ◌<◌, ◌≡◌, ◌≢◌, ◌∙◌, sym, subst, ap, refl, ◌++◌, append-nil, ℤ, Bytes}
use wandio.Writer.Contract.{TakesAll}
use wandio.Lzo.{Lzo, write32}
use wandio.Lzo.Block.{Works}
use wandio.Lzo.Direct.{all_blocks}
use wandio.Lzo.Farm.{
  ThreadState, empty, waiting, full, Main, outside, writing, shutting, closed, failed, Farm, fresh,
  lzo_wclose, Reach,
}
use wandio.Lzo.Farm.Filling.{data_of}
use wandio.Lzo.Farm.Writing.{AtFill}
use wandio.Lzo.Farm.Closing.{Fills, Shut, Reach-Fills, Reach-Shut}
use wandio.Lzo.Farm.Begun.{Closes, Fills-Closes, busy_pending, oldest, others, busy-Closes}
use wandio.Lzo.Farm.Finish.{Shut-Finishes}

module _ (max_block m : ℕ) (lzo : Lzo) (works : Works lzo) {W : Type 0} (Valid : W → Type 0)
    (taken : W → Bytes) (write : W → Bytes → ℤ × W) (takes_all : TakesAll Valid taken write)
    (some_bytes : 0 < max_block) where
  abbrev pub From : Farm W → Farm W → Type 0
  From = Reach max_block (suc m) lzo write

  -- behind `lzo_wclose` the child has taken `goal`, and no assertion fails before
  abbrev pub Ends : Bytes → Main → Farm W → Type 0
  Ends goal closed t = taken t.child ≡ goal ++ write32 0
  Ends goal failed t = ⊥
  Ends goal (outside v) t = ⊥
  Ends goal (writing b) t = ⊥
  Ends goal (shutting second i) t = Unit

  Shut-Ends :
      (goal : Bytes) (p : Main) (t : Farm W)
      → Shut max_block m lzo works Valid taken write takes_all some_bytes goal p t
      → Ends goal p t
  Shut-Ends goal (outside v) t h = h
  Shut-Ends goal (writing b) t h = h
  Shut-Ends goal (shutting second i) t h = tt
  Shut-Ends goal closed t h = h.whole
  Shut-Ends goal failed t h = h

  pub outside-Fills :
      (from : Bytes) (t : Farm W) (v : ℤ)
      → t.main ≡ outside v
      → AtFill max_block m lzo works write Valid taken takes_all some_bytes from t.main t
      → Fills max_block m lzo works Valid taken write takes_all some_bytes from t
  outside-Fills from t v at h =
      subst (λ p. AtFill max_block m lzo works write Valid taken takes_all some_bytes from p t) at h

  -- Over a child that takes all it is given, with a library that does not fail: when `lzo_wclose` is
  -- called where the thread whose turn it is is EMPTY, then in every interleaving of the threads no
  -- assertion fails from there on, and behind it the child has taken, after what it had before, the
  -- blocks of all bytes that `lzo_wwrite` has taken over, in order, and the end marker.
  pub lzo_wclose-Ends :
      (w : W)
      → Valid w
      → (t : Farm W) (v : ℤ) → From (fresh max_block (suc m) lzo write w) t
      → t.main ≡ outside v
      → (t.thread t.next_thread).state ≡ empty
      → (t' : Farm W) → From (lzo_wclose max_block (suc m) lzo write t) t'
      → Ends (taken w ++ all_blocks max_block lzo works t.accepted) t'.main t'
  lzo_wclose-Ends w good t v reached at is t' reached' =
      let goal = taken w ++ all_blocks max_block lzo works t.accepted in
      Shut-Ends goal t'.main t' (
        Reach-Shut max_block m lzo works Valid taken write takes_all some_bytes goal
          (lzo_wclose max_block (suc m) lzo write t) t' reached'
          (Fills-Closes max_block m lzo works Valid taken write takes_all some_bytes (taken w) t is
            (outside-Fills (taken w) t v at (
              Reach-Fills max_block m lzo works Valid taken write takes_all some_bytes w good t
                reached))))

  -- Over a child that takes all it is given, with a library that does not fail: when `lzo_wclose` is
  -- called where the thread whose turn it is still has a block, then behind it the child has taken this
  -- block, which is the oldest one, behind the blocks of all other threads: with the two
  -- exchanged, it would have the blocks of all bytes in order.
  pub lzo_wclose-late :
      (w : W)
      → Valid w
      → (t : Farm W) (v : ℤ) → From (fresh max_block (suc m) lzo write w) t
      → t.main ≡ outside v
      → (t.thread t.next_thread).state ≢ empty
      → (t' : Farm W) → From (lzo_wclose max_block (suc m) lzo write t) t'
      → (first rest : Bytes) × (first ≡ data_of max_block m lzo works (t.thread t.next_thread))
        × (taken t.child ++ (first ++ rest) ≡ taken w ++ all_blocks max_block lzo works t.accepted)
        × Ends (taken t.child ++ (rest ++ first)) t'.main t'
  lzo_wclose-late w good t v reached at busy t' reached' =
      let s = t.thread t.next_thread in
      let h = outside-Fills (taken w) t v at (
        Reach-Fills max_block m lzo works Valid taken write takes_all some_bytes w good t
          reached) in
      let goal =
        taken t.child
        ++ (others max_block m lzo works Valid taken write takes_all some_bytes h.d t
            ++ oldest max_block m lzo works Valid taken write takes_all some_bytes t) in
      let accepted : t.accepted ≡ h.ahead =
        h.over
        ∙ ap (λ z. h.ahead ++ z)
            (busy_pending max_block m lzo works Valid taken write takes_all some_bytes s.state
              s.inbuf busy)
        ∙ append-nil h.ahead in
      (
        oldest max_block m lzo works Valid taken write takes_all some_bytes t,
        others max_block m lzo works Valid taken write takes_all some_bytes h.d t,
        refl,
        ap
              (λ j.
                taken t.child
                ++ (data_of max_block m lzo works (t.thread j)
                    ++ others max_block m lzo works Valid taken write takes_all some_bytes h.d t))
              h.at
            ∙ h.whole
            ∙ ap (λ z. taken w ++ all_blocks max_block lzo works z) (sym accepted),
        Shut-Ends goal t'.main t' (
            Reach-Shut max_block m lzo works Valid taken write takes_all some_bytes goal
              (lzo_wclose max_block (suc m) lzo write t) t' reached'
              (busy-Closes max_block m lzo works Valid taken write takes_all some_bytes (taken w) t
                busy h)),
      )

  begun :
      (from : Bytes) (t : Farm W) (z : ThreadState)
      → (t.thread t.next_thread).state ≡ z
      → Fills max_block m lzo works Valid taken write takes_all some_bytes from t
      → (goal : Bytes) × Closes max_block m lzo works Valid taken write takes_all some_bytes goal t
  begun from t empty is h = (
    from ++ all_blocks max_block lzo works t.accepted,
    Fills-Closes max_block m lzo works Valid taken write takes_all some_bytes from t is h,
  )
  begun from t waiting is h = (
    taken t.child
        ++ (others max_block m lzo works Valid taken write takes_all some_bytes h.d t
            ++ oldest max_block m lzo works Valid taken write takes_all some_bytes t),
    busy-Closes max_block m lzo works Valid taken write takes_all some_bytes from t
        (λ e. cc (sym is ∙ e)) h,
  )
  begun from t full is h = (
    taken t.child
        ++ (others max_block m lzo works Valid taken write takes_all some_bytes h.d t
            ++ oldest max_block m lzo works Valid taken write takes_all some_bytes t),
    busy-Closes max_block m lzo works Valid taken write takes_all some_bytes from t
        (λ e. cc (sym is ∙ e)) h,
  )

  -- Over a child that takes all it is given, with a library that does not fail, and whatever the calls of
  -- `lzo_wwrite` and the threads have done before: however far `lzo_wclose` has come, there are
  -- steps of the threads with which it comes to its end; no deadlock keeps it.
  pub lzo_wclose-Finishes :
      (w : W)
      → Valid w
      → (t : Farm W) (v : ℤ) → From (fresh max_block (suc m) lzo write w) t
      → t.main ≡ outside v
      → (t' : Farm W) → From (lzo_wclose max_block (suc m) lzo write t) t'
      → (t'' : Farm W) × From t' t'' × (t''.main ≡ closed)
  lzo_wclose-Finishes w good t v reached at t' reached' =
      let (goal, shut) = begun (taken w) t (t.thread t.next_thread).state refl (
        outside-Fills (taken w) t v at (
          Reach-Fills max_block m lzo works Valid taken write takes_all some_bytes w good t
            reached)) in
      Shut-Finishes max_block m lzo works Valid taken write takes_all some_bytes goal t'.main t'
        refl
        (Reach-Shut max_block m lzo works Valid taken write takes_all some_bytes goal
          (lzo_wclose max_block (suc m) lzo write t) t' reached' shut)

  -- Over a child that takes all it is given, with a library that does not fail: whatever the calls of
  -- `lzo_wwrite` and the threads have done, in every interleaving, no assertion of `lzo_wwrite` or of a
  -- compressing thread has failed before `lzo_wclose` is called.
  pub lzo_wwrite-asserts :
      (w : W)
      → Valid w
      → (t : Farm W) → From (fresh max_block (suc m) lzo write w) t
      → t.main ≢ failed
  lzo_wwrite-asserts w good t reached at =
      subst (λ p. AtFill max_block m lzo works write Valid taken takes_all some_bytes (taken w) p t)
        at
        (Reach-Fills max_block m lzo works Valid taken write takes_all some_bytes w good t reached)
