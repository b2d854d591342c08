-- ===== src/Lzo/Farm/Begun.antt =====
-- Where the loops of `lzo_wclose` begin: what is left to be written, and in which order.
use wandio.Base.{
  ℕ, suc, ◌*◌, ◌%◌, ◌<◌, ◌≡◌, ◌≢◌, ◌∙◌, sym, subst, ap, refl, false, [], ◌∷◌, ◌++◌, append-nil,
  append_assoc, length, put, contents, contents_turn, contents_round, contents_same, put_all, ℤ,
  Bytes, arith,
}
use wandio.Writer.Contract.{TakesAll}
use wandio.Lzo.{Lzo}
use wandio.Lzo.Block.{Works, block_of}
use wandio.Lzo.Direct.{all_blocks, all_blocks_one, all_blocks-append}
use wandio.Lzo.Farm.{
  ThreadState, empty, waiting, full, LzoThread, shutting, Farm, last_state, lzo_wclose,
}
use wandio.Lzo.Farm.Filling.{pending, Running, data_of, data_none, data_waiting, Fit, ring}
use wandio.Lzo.Farm.Closing.{Fills, Shut, last, lzo_wclose-Shutting}

module _ (max_block m : ℕ) (lzo : Lzo) (works : Works lzo) {W : Type 0} (Valid : W → Type 0)
    (taken : W → Bytes) (write : W → Bytes → ℤ × W) (takes_all : TakesAll Valid taken write)
    (some_bytes : 0 < max_block) where
  last_Fit :
      (y : LzoThread) (b : Bytes)
      → y.inbuf ≡ b
      → length y.inbuf < max_block
      → Running y
      → Fit max_block m lzo works (last_state empty b) y
  last_Fit y [] e few up = few
  last_Fit y (x ∷ xs) e few up = (omega (arith, ap length e), omega arith, up)

  last_blank : (b : Bytes) → last_state empty b ≡ empty → b ≡ []
  last_blank [] e = refl
  last_blank (x ∷ xs) e = cc e

  -- all the bytes, where the last of them are in the last thread
  last_data :
      (d : ℕ) (ahead b : Bytes) (y : LzoThread)
      → y.state ≡ last_state empty b
      → y.inbuf ≡ b
      → length ahead ≡ d * max_block
      → length b < max_block
      → all_blocks max_block lzo works ahead ++ data_of max_block m lzo works y
        ≡ all_blocks max_block lzo works (ahead ++ b)
  last_data d ahead [] y is has even few =
      ap (λ z. all_blocks max_block lzo works ahead ++ z) (data_none max_block m lzo works y is)
      ∙ append-nil (all_blocks max_block lzo works ahead)
      ∙ ap (all_blocks max_block lzo works) (sym (append-nil ahead))
  last_data d ahead (x ∷ xs) y is has even few =
      ap (λ z. all_blocks max_block lzo works ahead ++ z)
        (data_waiting max_block m lzo works y is
          ∙ ap (block_of max_block lzo works) has
          ∙ sym
              (all_blocks_one max_block lzo works (x ∷ xs) some_bytes (omega arith) (omega arith)))
      ∙ sym (all_blocks-append max_block lzo works d ahead (x ∷ xs) some_bytes even)

  abbrev pub Closes : Bytes → Farm W → Type 0
  Closes goal t =
      Shut max_block m lzo works Valid taken write takes_all some_bytes goal
        (shutting false (suc t.next_thread % suc m)) (lzo_wclose max_block (suc m) lzo write t)

  pub Fills-Closes :
      (from : Bytes) (t : Farm W)
      → (t.thread t.next_thread).state ≡ empty
      → Fills max_block m lzo works Valid taken write takes_all some_bytes from t
      → Closes (from ++ all_blocks max_block lzo works t.accepted) t
  Fills-Closes from t is h =
      let goal = from ++ all_blocks max_block lzo works t.accepted in
      let s = t.thread t.next_thread in
      let y = last max_block m lzo works Valid taken write takes_all some_bytes t in
      let few : length s.inbuf < max_block =
        subst (λ z. Fit max_block m lzo works z s) is (h.fit t.next_thread) in
      let is_last : y.state ≡ last_state empty s.inbuf = ap (λ z. last_state z s.inbuf) is in
      let accepted : t.accepted ≡ h.ahead ++ s.inbuf =
        h.over ∙ ap (λ z. h.ahead ++ pending z s.inbuf) is in
      lzo_wclose-Shutting max_block m lzo works Valid taken write takes_all some_bytes from goal t h
        (subst (λ z. Fit max_block m lzo works z y) (sym is_last)
          (last_Fit y s.inbuf refl few (h.up t.next_thread)))
        (λ e. last_blank s.inbuf (sym is_last ∙ e))
        (ap (λ z. taken t.child ++ z)
            (contents_turn (data_of max_block m lzo works) m h.d t.next_thread t.thread y h.at
              (data_none max_block m lzo works s is))
          ∙ sym (
              append_assoc (taken t.child) (ring max_block m lzo works h.d t.thread)
                (data_of max_block m lzo works y))
          ∙ ap (λ z. z ++ data_of max_block m lzo works y) h.whole
          ∙ append_assoc from (all_blocks max_block lzo works h.ahead)
              (data_of max_block m lzo works y)
          ∙ ap (λ z. from ++ z)
              (last_data h.d h.ahead s.inbuf y is_last refl h.even few
                ∙ ap (all_blocks max_block lzo works) (sym accepted)))

  busy_same : (z : ThreadState) (b : Bytes) → z ≢ empty → last_state z b ≡ z
  busy_same empty b busy = absurd (busy refl)
  busy_same waiting b busy = refl
  busy_same full b busy = refl

  pub busy_pending : (z : ThreadState) (b : Bytes) → z ≢ empty → pending z b ≡ []
  busy_pending empty b busy = absurd (busy refl)
  busy_pending waiting b busy = refl
  busy_pending full b busy = refl

  -- where `lzo_wclose` begins in a ring whose next thread is busy
  ring_busy :
      (d : ℕ) (t : Farm W) (y : LzoThread)
      → t.next_thread ≡ d % suc m
      → data_of max_block m lzo works y ≡ data_of max_block m lzo works (t.thread t.next_thread)
      → ring max_block m lzo works (suc d) (put t.thread t.next_thread y)
        ≡ contents (data_of max_block m lzo works) (suc m) m (suc d) t.thread
          ++ data_of max_block m lzo works (t.thread t.next_thread)
  ring_busy d t y at same =
      let data_same =
        put_all
          (λ j x. data_of max_block m lzo works x ≡ data_of max_block m lzo works (t.thread j))
          t.thread t.next_thread y same (λ j ne. refl) in
      contents_same (data_of max_block m lzo works) (suc m) (suc m) (suc d) t.thread
        (put t.thread t.next_thread y) (λ j a b. data_same (j % suc m))
      ∙ contents_round (data_of max_block m lzo works) m d t.thread
      ∙ ap
          (λ j.
            contents (data_of max_block m lzo works) (suc m) m (suc d) t.thread
            ++ data_of max_block m lzo works (t.thread j))
          (sym at)

  abbrev pub oldest : Farm W → Bytes
  oldest t = data_of max_block m lzo works (t.thread t.next_thread)

  abbrev pub others : ℕ → Farm W → Bytes
  others d t = contents (data_of max_block m lzo works) (suc m) m (suc d) t.thread

  pub busy-Closes :
      (from : Bytes) (t : Farm W)
      → (t.thread t.next_thread).state ≢ empty
      → (h : Fills max_block m lzo works Valid taken write takes_all some_bytes from t)
      → Closes (taken t.child ++ (others h.d t ++ oldest t)) t
  busy-Closes from t busy h =
      let s = t.thread t.next_thread in
      let y = last max_block m lzo works Valid taken write takes_all some_bytes t in
      let with_state : ThreadState → LzoThread = λ z. record s { state = z } in
      let is_last : y.state ≡ s.state = busy_same s.state s.inbuf busy in
      let same : data_of max_block m lzo works y ≡ oldest t =
        ap (λ z. data_of max_block m lzo works (with_state z)) is_last in
      lzo_wclose-Shutting max_block m lzo works Valid taken write takes_all some_bytes from
        (taken t.child ++ (others h.d t ++ oldest t)) t h
        (subst (λ z. Fit max_block m lzo works z (with_state z)) (sym is_last)
          (h.fit t.next_thread))
        (λ e. absurd (busy (sym is_last ∙ e)))
        (ap (λ z. taken t.child ++ z) (ring_busy h.d t y h.at same))
