-- ===== src/Lzo/Farm/Filling.antt =====
-- While `lzo_wwrite` is called: the blocks that have been handed out are with the child or in the ring,
-- in order.
use wandio.Base.{
  ℕ, suc, ◌+◌, ◌*◌, ◌%◌, ◌≤◌, ◌<◌, ◌≡◌, ◌≢◌, ◌∙◌, sym, subst, ap, refl, true, false, [], ◌++◌,
  append_assoc, length, length-append, put, put_same, put_all, contents, contents_same,
  contents-put, ℤ, Bytes, arith,
}
use wandio.Writer.Contract.{TakesAll}
use wandio.Lzo.{Lzo, buffer_size}
use wandio.Lzo.Block.{Works, block_of}
use wandio.Lzo.Direct.{all_blocks}
use wandio.Lzo.Farm.{
  ThreadState, empty, waiting, full, LzoThread, Farm, put_thread, flush_thread, part_filled,
}

-- the bytes that have not been handed out
abbrev pub pending : ThreadState → Bytes → Bytes
pending empty inbuf = inbuf
pending waiting inbuf = []
pending full inbuf = []

pub pending_none : (z : ThreadState) (b : Bytes) → (z ≡ empty → b ≡ []) → pending z b ≡ []
pending_none empty b h = h refl
pending_none waiting b h = refl
pending_none full b h = refl

-- a thread that has not ended and is not told to
abbrev pub Running : LzoThread → Type 0
Running s = (s.running ≡ true) × (s.closing ≡ false)

module _ (max_block m : ℕ) (lzo : Lzo) (works : Works lzo) where
  abbrev block : Bytes → Bytes
  block = block_of max_block lzo works

  abbrev all : Bytes → Bytes
  all = all_blocks max_block lzo works

  -- what is to be written for a thread
  abbrev data_at : ThreadState → LzoThread → Bytes
  data_at empty s = []
  data_at waiting s = block s.inbuf
  data_at full s = s.outbuf

  abbrev pub data_of : LzoThread → Bytes
  data_of s = data_at s.state s

  pub data_none : (s : LzoThread) → s.state ≡ empty → data_of s ≡ []
  data_none s is = ap (λ z. data_at z s) is

  pub data_waiting : (s : LzoThread) → s.state ≡ waiting → data_of s ≡ block s.inbuf
  data_waiting s is = ap (λ z. data_at z s) is

  pub data_full : (s : LzoThread) → s.state ≡ full → data_of s ≡ s.outbuf
  data_full s is = ap (λ z. data_at z s) is

  abbrev pub Fit : ThreadState → LzoThread → Type 0
  Fit empty s = length s.inbuf < max_block
  Fit waiting s = (0 < length s.inbuf) × (length s.inbuf ≤ max_block) × Running s
  Fit full s = length s.outbuf < buffer_size max_block

  abbrev pub ring : ℕ → (ℕ → LzoThread) → Bytes
  ring k sl = contents data_of (suc m) (suc m) k sl

  module _ {W : Type 0} (Valid : W → Type 0) (taken : W → Bytes) (write : W → Bytes → ℤ × W)
      (takes_all : TakesAll Valid taken write) (some : 0 < max_block) (from : Bytes) where
    -- `d` blocks have been handed out, with the bytes `ahead`
    pub record Filling (t : Farm W) : Type 0 where
      pub d : ℕ
      pub ahead : Bytes
      pub at : t.next_thread ≡ d % suc m
      pub even : length ahead ≡ d * max_block
      pub fit : (j : ℕ) → Fit (t.thread j).state (t.thread j)
      pub up : (j : ℕ) → Running (t.thread j)
      pub others :
          (j : ℕ) → j ≢ t.next_thread → (t.thread j).state ≡ empty → (t.thread j).inbuf ≡ []
      pub child : Valid t.child
      pub whole : taken t.child ++ ring d t.thread ≡ from ++ all ahead
      pub over :
          t.accepted
          ≡ ahead ++ pending (t.thread t.next_thread).state (t.thread t.next_thread).inbuf

    -- another thread in a place where both have the same data, and neither has bytes pending
    pub Filling-put :
        (t : Farm W) (i : ℕ) (x : LzoThread)
        → data_of x ≡ data_of (t.thread i)
        → (t.thread i).state ≢ empty
        → x.state ≢ empty
        → Fit x.state x
        → Running x
        → Filling t
        → Filling (put_thread t i x)
    Filling-put t i x same old new fits runs h =
        let none : (z : ThreadState) (b : Bytes) → z ≢ empty → pending z b ≡ [] =
          λ z b ne. pending_none z b (λ e. absurd (ne e)) in
        let data_same =
          put_all (λ j y. data_of y ≡ data_of (t.thread j)) t.thread i x same (λ j ne. refl) in
        let pending_same =
          put_all (λ j y. pending y.state y.inbuf ≡ pending (t.thread j).state (t.thread j).inbuf)
            t.thread i x
            (none x.state x.inbuf new ∙ sym (none (t.thread i).state (t.thread i).inbuf old))
            (λ j ne. refl) in
        record {
          d = h.d;
          ahead = h.ahead;
          at = h.at;
          even = h.even;
          fit = put_all (λ j y. Fit y.state y) t.thread i x fits (λ j ne. h.fit j);
          up = put_all (λ j y. Running y) t.thread i x runs (λ j ne. h.up j);
          others =
              put_all (λ j y. j ≢ t.next_thread → y.state ≡ empty → y.inbuf ≡ []) t.thread i x
                (λ ne e. absurd (new e)) (λ j ne. h.others j);
          child = h.child;
          whole =
              ap (λ z. taken t.child ++ z)
                (contents_same data_of (suc m) (suc m) h.d t.thread (put t.thread i x)
                  (λ j a b. data_same (j % suc m)))
              ∙ h.whole;
          over = h.over ∙ ap (λ z. h.ahead ++ z) (sym (pending_same t.next_thread));
        }

    -- the block of the thread whose turn it is goes to the child
    pub Filling-flush_thread :
        (t : Farm W)
        → (t.thread t.next_thread).state ≡ full
        → Filling t
        → Filling (flush_thread write t t.next_thread)
    Filling-flush_thread t is h =
        let s = t.thread t.next_thread in
        let x : LzoThread = record s { state = empty; inbuf = [] } in
        let w' = (write t.child s.outbuf).1 in
        let sl' = put t.thread t.next_thread x in
        let got = takes_all.takes t.child s.outbuf h.child in
        let behind = contents data_of (suc m) m (suc h.d) t.thread in
        let here : data_of (t.thread (h.d % suc m)) ≡ s.outbuf =
          ap (λ j. data_of (t.thread j)) (sym h.at) ∙ ap (λ z. data_at z s) is in
        let now : sl' t.next_thread ≡ x = put_same t.thread t.next_thread x in
        record {
          d = h.d;
          ahead = h.ahead;
          at = h.at;
          even = h.even;
          fit = put_all (λ j y. Fit y.state y) t.thread t.next_thread x some (λ j ne. h.fit j);
          up =
              put_all (λ j y. Running y) t.thread t.next_thread x (h.up t.next_thread)
                (λ j ne. h.up j);
          others =
              put_all (λ j y. j ≢ t.next_thread → y.state ≡ empty → y.inbuf ≡ []) t.thread
                t.next_thread x (λ ne e. absurd (ne refl)) (λ j ne. h.others j);
          child = got.0;
          whole =
              ap (λ z. z ++ ring h.d sl') got.1
              ∙ ap
                  (λ z.
                    (taken t.child ++ s.outbuf)
                    ++ (data_of z ++ contents data_of (suc m) m (suc h.d) sl'))
                  (ap sl' (sym h.at) ∙ now)
              ∙ ap (λ z. (taken t.child ++ s.outbuf) ++ z)
                  (contents-put data_of m h.d t.next_thread t.thread x h.at)
              ∙ append_assoc (taken t.child) s.outbuf behind
              ∙ ap (λ z. taken t.child ++ (z ++ behind)) (sym here)
              ∙ h.whole;
          over =
              h.over
              ∙ ap (λ z. h.ahead ++ pending z s.inbuf) is
              ∙ ap (λ y. h.ahead ++ pending y.state y.inbuf) (sym now);
        }

    -- bytes moved in without filling the buffer
    pub Filling-part_filled :
        (t : Farm W) (slice rest : Bytes)
        → (t.thread t.next_thread).state ≡ empty
        → length (t.thread t.next_thread).inbuf + length slice < max_block
        → Filling t
        → Filling (part_filled max_block (suc m) lzo write t slice rest)
    Filling-part_filled t slice rest is few h =
        let s = t.thread t.next_thread in
        let x : LzoThread = record s { inbuf = s.inbuf ++ slice } in
        let sl' = put t.thread t.next_thread x in
        let same =
          put_all (λ j y. data_of y ≡ data_of (t.thread j)) t.thread t.next_thread x
            (ap (λ z. data_at z x) is ∙ sym (ap (λ z. data_at z s) is)) (λ j ne. refl) in
        record {
          d = h.d;
          ahead = h.ahead;
          at = h.at;
          even = h.even;
          fit =
              put_all (λ j y. Fit y.state y) t.thread t.next_thread x
                (subst (λ z. Fit z x) (sym is) (omega (arith, length-append s.inbuf slice)))
                (λ j ne. h.fit j);
          up =
              put_all (λ j y. Running y) t.thread t.next_thread x (h.up t.next_thread)
                (λ j ne. h.up j);
          others =
              put_all (λ j y. j ≢ t.next_thread → y.state ≡ empty → y.inbuf ≡ []) t.thread
                t.next_thread x (λ ne e. absurd (ne refl)) (λ j ne. h.others j);
          child = h.child;
          whole =
              ap (λ z. taken t.child ++ z)
                (contents_same data_of (suc m) (suc m) h.d t.thread sl' (λ j a b. same (j % suc m)))
              ∙ h.whole;
          over =
              ap (λ z. z ++ slice) (h.over ∙ ap (λ z. h.ahead ++ pending z s.inbuf) is)
              ∙ append_assoc h.ahead s.inbuf slice
              ∙ ap (λ z. h.ahead ++ pending z (s.inbuf ++ slice)) (sym is)
              ∙ ap (λ y. h.ahead ++ pending y.state y.inbuf)
                  (sym (put_same t.thread t.next_thread x));
        }
