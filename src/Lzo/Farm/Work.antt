-- ===== src/Lzo/Farm/Work.antt =====
-- A round of a compressing thread.
use wandio.Base.{
  ℕ, suc, ◌≡◌, ◌≢◌, ◌⊎◌, ◌∙◌, sym, subst, ap, refl, Bool, true, false, not, ◌&&◌, Option, none,
  some, if◌then◌else◌, inl, inr, ℤ, Bytes,
}
use wandio.Lzo.{Lzo}
use wandio.Lzo.Block.{Works, block_of, lzo_wwrite_block-packed}
use wandio.Lzo.Farm.{
  ThreadState, empty, waiting, full, LzoThread, Farm, put_thread, compressed, work_at, work,
}
use wandio.Lzo.Farm.Filling.{Running, data_of, data_waiting, Fit}

-- a thread with its block compressed
abbrev pub with_block : LzoThread → Bytes → LzoThread
with_block s b = record s { state = full; outbuf = b }

module _ (max_block m : ℕ) (lzo : Lzo) (works : Works lzo) {W : Type 0}
    (write : W → Bytes → ℤ × W) where
  abbrev Worked : Farm W → ℕ → Option (Farm W) → Type 0
  Worked t i o =
      (o ≡ none)
      ⊎ ((t.thread i).state ≡ waiting)
        × (o
            ≡ some (
                put_thread t i
                  (with_block (t.thread i) (block_of max_block lzo works (t.thread i).inbuf))))

  work_at-Worked :
      (t : Farm W) (i : ℕ) (z : ThreadState)
      → (t.thread i).state ≡ z
      → Fit max_block m lzo works z (t.thread i)
      → Worked t i (work_at max_block (suc m) lzo write t i z)
  unfolding work_at compressed
  work_at-Worked t i empty e fits = inl refl
  work_at-Worked t i full e fits = inl refl
  work_at-Worked t i waiting e (low, high, up) = inr (
    e,
    ap (λ r. some (compressed max_block (suc m) lzo write t i r))
        (lzo_wwrite_block-packed max_block lzo works (t.thread i).inbuf low high).0,
  )

  -- what a round of a thread does, with a library that does not fail
  pub work-Worked :
      (t : Farm W) (i : ℕ)
      → Fit max_block m lzo works (t.thread i).state (t.thread i)
      → Worked t i (work max_block (suc m) lzo write t i)
  unfolding work
  work-Worked t i fits = at ((t.thread i).running && not (t.thread i).closing)
    where
      at :
          (z : Bool)
          → Worked t i
              (if z then work_at max_block (suc m) lzo write t i (t.thread i).state else none)
      at true = work_at-Worked t i (t.thread i).state refl fits
      at false = inl refl

  -- a thread that has a block to compress, and runs, makes its step
  pub work-waiting :
      (t : Farm W) (i : ℕ)
      → (t.thread i).state ≡ waiting
      → Fit max_block m lzo works (t.thread i).state (t.thread i)
      → work max_block (suc m) lzo write t i
        ≡ some (
            put_thread t i
              (with_block (t.thread i) (block_of max_block lzo works (t.thread i).inbuf)))
  unfolding work work_at compressed
  work-waiting t i e fits =
      let s = t.thread i in
      let (low, high, up) = subst (λ z. Fit max_block m lzo works z s) e fits in
      ap (λ z. if z && not s.closing then work_at max_block (suc m) lzo write t i s.state else none)
        up.0
      ∙ ap (λ z. if not z then work_at max_block (suc m) lzo write t i s.state else none) up.1
      ∙ ap (work_at max_block (suc m) lzo write t i) e
      ∙ ap (λ r. some (compressed max_block (suc m) lzo write t i r))
          (lzo_wwrite_block-packed max_block lzo works s.inbuf low high).0

  -- a thread whose block is compressed has the same data for the child
  pub with_block-Fit :
      (s : LzoThread)
      → s.state ≡ waiting
      → Fit max_block m lzo works s.state s
      → let x = with_block s (block_of max_block lzo works s.inbuf) in
        (data_of max_block m lzo works x ≡ data_of max_block m lzo works s)
        × Fit max_block m lzo works full x
        × Running s
        × (s.state ≢ empty)
  with_block-Fit s is fits =
      let (low, high, up) = subst (λ z. Fit max_block m lzo works z s) is fits in
      (
        sym (data_waiting max_block m lzo works s is),
        (lzo_wwrite_block-packed max_block lzo works s.inbuf low high).1,
        up,
        λ e. cc (sym is ∙ e),
      )
