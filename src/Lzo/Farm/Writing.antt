-- ===== src/Lzo/Farm/Writing.antt =====
-- A round of `lzo_wwrite`, and all steps while it may be called.
use wandio.Base.{
  ℕ, suc, ◌+◌, ◌-◌, ◌*◌, ◌%◌, ◌≤◌, ◌<◌, ◌≡◌, ◌≢◌, ◌∙◌, sym, subst, ap, refl, min, Bool, true, false,
  ◌&&◌, ◌||◌, [], ◌∷◌, ◌++◌, append-nil, append_assoc, Option, none, some, length, length-append,
  length-take, take, drop, put, put_same, put_all, leb, le→leb, lt→not_leb, lt→ltb, if◌then◌else◌,
  inl, inr, lt-or-le, contents_turn, ℤ, pos, Bytes, arith,
}
use native.Mathlib.Nat.{suc-mod, suc-mul}
use wandio.Writer.Contract.{TakesAll}
use wandio.Lzo.{Lzo, buffer_size}
use wandio.Lzo.Block.{Works, block_of}
use wandio.Lzo.Direct.{all_blocks, all_blocks_one, all_blocks-append}
use wandio.Lzo.Farm.{
  ThreadState, empty, waiting, full, LzoThread, Main, outside, writing, shutting, closed, failed,
  Farm, put_thread, flush_thread, part_filled, triggered, moved_in, move_in, work, write_at, feed,
  Step, by_thread, by_main, write_call,
}
use wandio.Lzo.Farm.Filling.{
  pending, pending_none, Running, data_of, data_none, Fit, ring, Filling, Filling-put,
  Filling-flush_thread, Filling-part_filled,
}
use wandio.Lzo.Farm.Work.{with_block, with_block-Fit, work-Worked}

or_true : (z : Bool) → (z || true) ≡ true
or_true true = refl
or_true false = refl

module _ (max_block m : ℕ) (lzo : Lzo) (works : Works lzo) {W : Type 0}
    (write : W → Bytes → ℤ × W) where
  module _ (Valid : W → Type 0) (taken : W → Bytes) (takes_all : TakesAll Valid taken write)
      (some_bytes : 0 < max_block) (from : Bytes) where
    abbrev Fills : Farm W → Type 0
    Fills = Filling max_block m lzo works Valid taken write takes_all some_bytes from

    -- the buffer is full, and handed out
    Filling-triggered :
        (t : Farm W) (slice rest : Bytes)
        → (t.thread t.next_thread).state ≡ empty
        → length (t.thread t.next_thread).inbuf + length slice ≡ max_block
        → Fills t
        → Fills (triggered max_block (suc m) lzo write t slice rest)
    Filling-triggered t slice rest is size h =
        let s = t.thread t.next_thread in
        let b = s.inbuf ++ slice in
        let x : LzoThread = record s { inbuf = b; state = waiting } in
        let sl' = put t.thread t.next_thread x in
        let next = suc t.next_thread % suc m in
        let all = all_blocks max_block lzo works in
        let length_b : length b ≡ max_block = length-append s.inbuf slice ∙ size in
        let nothing : data_of max_block m lzo works s ≡ [] = data_none max_block m lzo works s is in
        let none_pending =
          put_all (λ j y. pending y.state y.inbuf ≡ []) t.thread t.next_thread x refl
            (λ j ne. pending_none (t.thread j).state (t.thread j).inbuf (h.others j ne)) in
        let no_bytes : (y : LzoThread) → y.state ≡ waiting → y.state ≢ empty =
          λ y e e'. cc (sym e ∙ e') in
        record {
          d = suc h.d;
          ahead = h.ahead ++ b;
          at = ap (λ z. suc z % suc m) h.at ∙ sym (suc-mod h.d (suc m));
          even =
              length-append h.ahead b
              ∙ ap (λ z. z + length b) h.even
              ∙ ap (λ z. h.d * max_block + z) length_b
              ∙ sym (suc-mul h.d max_block);
          fit =
              put_all (λ j y. Fit max_block m lzo works y.state y) t.thread t.next_thread x
                (omega (arith, length_b), omega (arith, length_b), h.up t.next_thread)
                (λ j ne. h.fit j);
          up =
              put_all (λ j y. Running y) t.thread t.next_thread x (h.up t.next_thread)
                (λ j ne. h.up j);
          others =
              put_all (λ j y. j ≢ next → y.state ≡ empty → y.inbuf ≡ []) t.thread t.next_thread x
                (λ ne e. absurd (no_bytes x refl e)) (λ j ne ne' e. h.others j ne e);
          child = h.child;
          whole =
              ap (λ z. taken t.child ++ z)
                (contents_turn (data_of max_block m lzo works) m h.d t.next_thread t.thread x h.at
                  nothing)
              ∙ sym (
                  append_assoc (taken t.child) (ring max_block m lzo works h.d t.thread)
                    (data_of max_block m lzo works x))
              ∙ ap (λ z. z ++ data_of max_block m lzo works x) h.whole
              ∙ append_assoc from (all h.ahead) (data_of max_block m lzo works x)
              ∙ ap (λ z. from ++ (all h.ahead ++ z))
                  (sym (
                    all_blocks_one max_block lzo works b some_bytes (omega (arith, length_b))
                      (omega (arith, length_b))))
              ∙ ap (λ z. from ++ z)
                  (sym (all_blocks-append max_block lzo works h.d h.ahead b some_bytes h.even));
          over =
              ap (λ z. z ++ slice) (h.over ∙ ap (λ z. h.ahead ++ pending z s.inbuf) is)
              ∙ append_assoc h.ahead s.inbuf slice
              ∙ sym (append-nil (h.ahead ++ b))
              ∙ ap (λ z. (h.ahead ++ b) ++ z) (sym (none_pending next));
        }

    -- outside the writer's functions, or in `lzo_wwrite`
    abbrev pub AtFill : Main → Farm W → Type 0
    AtFill (outside v) t = Fills t
    AtFill (writing b) t = Fills t
    AtFill (shutting second i) t = ⊥
    AtFill closed t = ⊥
    AtFill failed t = ⊥

    abbrev Still : Farm W → Type 0
    Still t = AtFill t.main t

    moved_in-Filling :
        (t : Farm W) (slice rest : Bytes)
        → (t.thread t.next_thread).state ≡ empty
        → length (t.thread t.next_thread).inbuf + length slice ≤ max_block
        → Fills t
        → Still (moved_in max_block (suc m) lzo write t slice rest)
    unfolding moved_in
    moved_in-Filling t slice rest is high h =
        let n = length ((t.thread t.next_thread).inbuf ++ slice) in
        let length_n = length-append (t.thread t.next_thread).inbuf slice in
        let room = leb (buffer_size max_block) n in
        let filled = triggered max_block (suc m) lzo write t slice rest in
        let part = part_filled max_block (suc m) lzo write t slice rest in
        elim (lt-or-le n max_block)
          as (λ u. Still (if room || leb max_block n then filled else part)) [
            | inl less ↦
                subst (λ z. Still (if z then filled else part))
                  (sym (
                    ap (λ z. z || leb max_block n)
                      (lt→not_leb (buffer_size max_block) n (omega arith))
                    ∙ lt→not_leb max_block n less))
                  (Filling-part_filled max_block m lzo works Valid taken write takes_all some_bytes
                    from t slice rest is (omega (arith, length_n)) h)
            | inr reached ↦
                subst (λ z. Still (if z then filled else part))
                  (sym (ap (λ z. room || z) (le→leb max_block n reached) ∙ or_true room))
                  (Filling-triggered t slice rest is (omega (arith, length_n)) h)
          ]

    all_true :
        {a b c d : Bool} → a ≡ true → b ≡ true → c ≡ true → d ≡ true → (a && b && c && d) ≡ true
    all_true {a} {b} {c} {d} p q r s =
        ap (λ z. z && b && c && d) p ∙ ap (λ z. z && c && d) q ∙ ap (λ z. z && d) r ∙ s

    move_in-Filling :
        (t : Farm W) (buffer : Bytes)
        → 0 < length buffer
        → (t.thread t.next_thread).state ≡ empty
        → Fills t
        → Still (move_in max_block (suc m) lzo write t buffer)
    unfolding move_in
    move_in-Filling t buffer more is h =
        let s = t.thread t.next_thread in
        let offset = length s.inbuf in
        let size = min (max_block - offset) (length buffer) in
        let room : offset < max_block =
          subst (λ z. Fit max_block m lzo works z s) is (h.fit t.next_thread) in
        let test =
          all_true (le→leb max_block (buffer_size max_block) (omega arith))
            (lt→ltb 0 size (omega arith)) (le→leb size max_block (omega arith))
            (le→leb (offset + size) max_block (omega arith)) in
        subst
          (λ z. Still (
            if z
            then moved_in max_block (suc m) lzo write t (take size buffer) (drop size buffer)
            else record t { main = failed }))
          (sym test)
          (moved_in-Filling t (take size buffer) (drop size buffer) is
            (omega (arith, length-take size buffer)) h)

    abbrev pub Kept : Option (Farm W) → Type 0
    Kept none = Unit
    Kept (some t) = Still t

    -- the main thread's place may change
    pub Filling-main : (t : Farm W) (p : Main) → Fills t → Fills (record t { main = p })
    Filling-main t p h = record {
      d = h.d;
      ahead = h.ahead;
      at = h.at;
      even = h.even;
      fit = h.fit;
      up = h.up;
      others = h.others;
      child = h.child;
      whole = h.whole;
      over = h.over;
    }

    write_at-Kept :
        (t : Farm W) (buffer : Bytes) (z : ThreadState)
        → 0 < length buffer
        → (t.thread t.next_thread).state ≡ z
        → Fills t
        → Kept (write_at max_block (suc m) lzo write t buffer z)
    unfolding write_at
    write_at-Kept t buffer empty more is h = move_in-Filling t buffer more is h
    write_at-Kept t buffer waiting more is h = tt
    write_at-Kept t buffer full more is h =
        let s = t.thread t.next_thread in
        let t' = flush_thread write t t.next_thread in
        let x : LzoThread = record s { state = empty; inbuf = [] } in
        let fits : length s.outbuf < buffer_size max_block =
          subst (λ z. Fit max_block m lzo works z s) is (h.fit t.next_thread) in
        subst
          (λ z. Still (
            if z
            then move_in max_block (suc m) lzo write t' buffer
            else record t { main = failed }))
          (sym (lt→ltb (length s.outbuf) (buffer_size max_block) fits))
          (move_in-Filling t' buffer more (ap (λ y. y.state) (put_same t.thread t.next_thread x)) (
            Filling-flush_thread max_block m lzo works Valid taken write takes_all some_bytes from t
              is h))

    feed-Kept : (t : Farm W) (p : Main) → AtFill p t → Kept (feed max_block (suc m) lzo write t p)
    unfolding feed
    feed-Kept t (outside v) h = tt
    feed-Kept t (writing []) h = Filling-main t (outside (pos 0)) h
    feed-Kept t (writing (x ∷ xs)) h =
        write_at-Kept t (x ∷ xs) (t.thread t.next_thread).state (omega arith) refl h
    feed-Kept t (shutting second i) h = absurd h
    feed-Kept t closed h = tt
    feed-Kept t failed h = tt

    AtFill-fills : (p : Main) (t : Farm W) → AtFill p t → Fills t
    AtFill-fills (outside v) t h = h
    AtFill-fills (writing b) t h = h
    AtFill-fills (shutting second i) t h = absurd h
    AtFill-fills closed t h = absurd h
    AtFill-fills failed t h = absurd h

    AtFill-put :
        (p : Main) (t : Farm W) (i : ℕ) (x : LzoThread)
        → AtFill p t
        → Fills (put_thread t i x)
        → AtFill p (put_thread t i x)
    AtFill-put (outside v) t i x h h' = h'
    AtFill-put (writing b) t i x h h' = h'
    AtFill-put (shutting second j) t i x h h' = absurd h
    AtFill-put closed t i x h h' = absurd h
    AtFill-put failed t i x h h' = absurd h

    work-Kept : (t : Farm W) (k : ℕ) → Still t → Kept (work max_block (suc m) lzo write t k)
    work-Kept t k h =
        let s = t.thread k in
        let f = AtFill-fills t.main t h in
        elim (work-Worked max_block m lzo works write t k (f.fit k)) [
          | inl idle ↦ subst Kept (sym idle) tt
          | inr (is, e) ↦
              let (same, fits, up, busy) =
                with_block-Fit max_block m lzo works write s is (f.fit k) in
              let x = with_block s (block_of max_block lzo works s.inbuf) in
              subst Kept (sym e) (
                AtFill-put t.main t k x h (
                  Filling-put max_block m lzo works Valid taken write takes_all some_bytes from t k
                    x same busy (λ y. cc y) fits up f))
        ]

    pub Step-Still : (t t' : Farm W) → Step max_block (suc m) lzo write t t' → Still t → Still t'
    Step-Still _ _ (by_thread t t' i inside e) h = subst Kept e (work-Kept t i h)
    Step-Still _ _ (by_main t t' e) h = subst Kept e (feed-Kept t t.main h)
    Step-Still _ _ (write_call t v buffer e) h =
        Filling-main t (writing buffer) (AtFill-fills t.main t h)
