-- ===== src/Lzo/Direct.antt =====
-- The writer without threads: what a call of `lzo_wwrite` writes.
use wandio.Base.{
  ℕ, zero, suc, ◌+◌, ◌*◌, ◌≤◌, ◌<◌, ◌≡◌, ◌∙◌, sym, subst, ap, refl, min, [], ◌∷◌, ◌++◌, append-nil,
  append_assoc, length, length-append, length-take, length-drop, take, drop, take_of_length_le,
  drop_of_length_le, take-append_le, drop-append_le, nil_of, inl, inr, lt-or-le, ℤ, pos, Bytes,
  arith,
}
use wandio.Writer.{Outcome, done, aborted, no_fuel}
use wandio.Writer.Contract.{TakesAll}
use native.Mathlib.Nat.{suc-mul, zero-mul}
use wandio.Lzo.{Lzo, lzo_wwrite_block, block_written, packed, direct_loop}
use wandio.Lzo.Block.{Works, block_of, lzo_wwrite_block-packed}

take-min : (n k : ℕ) (b : Bytes) → n ≡ length b → take (min n k) b ≡ take k b
take-min n k b e = elim (lt-or-le n k) [
  | inl less ↦
      ap (λ z. take z b) (let m : min n k ≡ n = omega arith in m)
      ∙ take_of_length_le n b (omega arith)
      ∙ sym (take_of_length_le k b (omega arith))
  | inr more ↦ ap (λ z. take z b) (let m : min n k ≡ k = omega arith in m)
]

drop-min : (n k : ℕ) (b : Bytes) → n ≡ length b → drop (min n k) b ≡ drop k b
drop-min n k b e = elim (lt-or-le n k) [
  | inl less ↦
      ap (λ z. drop z b) (let m : min n k ≡ n = omega arith in m)
      ∙ drop_of_length_le n b (omega arith)
      ∙ sym (drop_of_length_le k b (omega arith))
  | inr more ↦ ap (λ z. drop z b) (let m : min n k ≡ k = omega arith in m)
]

module _ (max_block : ℕ) (lzo : Lzo) (works : Works lzo) where
  -- the blocks for the bytes, cut at MAX_BLOCK_SIZE, on fuel
  abbrev pub blocks : ℕ → Bytes → Bytes
  blocks zero b = []
  blocks (suc fuel) [] = []
  blocks (suc fuel) (x ∷ xs) =
      block_of max_block lzo works (take max_block (x ∷ xs))
      ++ blocks fuel (drop max_block (x ∷ xs))

  -- one round for each byte is enough
  abbrev pub all_blocks : Bytes → Bytes
  all_blocks b = blocks (length b) b

  -- more fuel changes nothing
  blocks_fuel :
      (fuel fuel' : ℕ) (b : Bytes)
      → 0 < max_block
      → length b ≤ fuel
      → length b ≤ fuel'
      → blocks fuel b ≡ blocks fuel' b
  blocks_fuel zero zero b some h h' = refl
  blocks_fuel zero (suc fuel') [] some h h' = refl
  blocks_fuel zero (suc fuel') (x ∷ xs) some h h' = absurd (omega arith)
  blocks_fuel (suc fuel) zero [] some h h' = refl
  blocks_fuel (suc fuel) zero (x ∷ xs) some h h' = absurd (omega arith)
  blocks_fuel (suc fuel) (suc fuel') [] some h h' = refl
  blocks_fuel (suc fuel) (suc fuel') (x ∷ xs) some h h' =
      let size = length-drop max_block (x ∷ xs) in
      ap (λ z. block_of max_block lzo works (take max_block (x ∷ xs)) ++ z)
        (blocks_fuel fuel fuel' (drop max_block (x ∷ xs)) some (omega arith) (omega arith))

  -- the bytes of one block at most
  pub all_blocks_one :
      (b : Bytes)
      → 0 < max_block
      → 0 < length b
      → length b ≤ max_block
      → all_blocks b ≡ block_of max_block lzo works b
  all_blocks_one [] some h few = absurd (omega arith)
  all_blocks_one (x ∷ xs) some h few =
      let rest : drop max_block (x ∷ xs) ≡ [] = drop_of_length_le max_block (x ∷ xs) few in
      let nothing : blocks (length xs) [] ≡ [] = none (length xs) in
      ap (λ z. block_of max_block lzo works z ++ blocks (length xs) (drop max_block (x ∷ xs)))
        (take_of_length_le max_block (x ∷ xs) few)
      ∙ ap (λ z. block_of max_block lzo works (x ∷ xs) ++ blocks (length xs) z) rest
      ∙ ap (λ z. block_of max_block lzo works (x ∷ xs) ++ z) nothing
      ∙ append-nil (block_of max_block lzo works (x ∷ xs))
    where
      none : (n : ℕ) → blocks n [] ≡ []
      none zero = refl
      none (suc n) = refl

  pub all_blocks_next :
      (b : Bytes)
      → 0 < max_block
      → 0 < length b
      → all_blocks b
        ≡ block_of max_block lzo works (take max_block b) ++ all_blocks (drop max_block b)
  all_blocks_next [] some h = absurd (omega arith)
  all_blocks_next (x ∷ xs) some h =
      let rest = drop max_block (x ∷ xs) in
      ap (λ z. block_of max_block lzo works (take max_block (x ∷ xs)) ++ z)
        (blocks_fuel (length xs) (length rest) rest some
          (omega (arith, length-drop max_block (x ∷ xs))) (omega arith))

  -- Bytes of whole blocks are cut where they end.
  pub all_blocks-append :
      (n : ℕ) (b c : Bytes)
      → 0 < max_block
      → length b ≡ n * max_block
      → all_blocks (b ++ c) ≡ all_blocks b ++ all_blocks c
  all_blocks-append zero b c some whole =
      let nothing : b ≡ [] = nil_of b (whole ∙ zero-mul max_block) in
      subst (λ z. all_blocks (z ++ c) ≡ all_blocks z ++ all_blocks c) (sym nothing) refl
  all_blocks-append (suc n) b c some whole =
      let size : length b ≡ n * max_block + max_block = whole ∙ suc-mul n max_block in
      let front = block_of max_block lzo works (take max_block b) in
      let ih =
        all_blocks-append n (drop max_block b) c some (omega (arith, length-drop max_block b)) in
      all_blocks_next (b ++ c) some (omega (arith, length-append b c))
      ∙ ap (λ z. block_of max_block lzo works z ++ all_blocks (drop max_block (b ++ c)))
          (take-append_le max_block b c (omega arith))
      ∙ ap (λ z. front ++ all_blocks z) (drop-append_le max_block b c (omega arith))
      ∙ ap (λ z. front ++ z) ih
      ∙ sym (append_assoc front (all_blocks (drop max_block b)) (all_blocks c))
      ∙ ap (λ z. z ++ all_blocks c) (sym (all_blocks_next b some (omega arith)))

  module _ {W : Type 0} (Valid : W → Type 0) (taken : W → Bytes) (write : W → Bytes → ℤ × W)
      (all : TakesAll Valid taken write) where
    abbrev pub Written : W → Bytes → Outcome W → Type 0
    Written w b (done v w') = (v ≡ pos 0) × (taken w' ≡ taken w ++ all_blocks b) × Valid w'
    Written w b aborted = ⊥
    Written w b no_fuel = ⊥

    Written-next :
        (fuel : ℕ) (w : W) (x : ℕ) (xs : Bytes) (o : Outcome W)
        → 0 < max_block
        → Written
            (write w (block_of max_block lzo works (take max_block (x ∷ xs)))).1
            (drop max_block (x ∷ xs))
            o
        → Valid w
        → Written w (x ∷ xs) o
    Written-next fuel w x xs aborted some h good = h
    Written-next fuel w x xs no_fuel some h good = h
    Written-next fuel w x xs (done v w') some (value, holds, good') good =
        let block = block_of max_block lzo works (take max_block (x ∷ xs)) in
        let rest = all_blocks (drop max_block (x ∷ xs)) in
        (
          value,
          holds
              ∙ ap (λ z. z ++ rest) (all.takes w block good).1
              ∙ append_assoc (taken w) block rest
              ∙ ap (λ z. taken w ++ z) (sym (all_blocks_next (x ∷ xs) some (omega arith))),
          good',
        )

    -- Over a child that takes all it is given, with a library that does not fail and fuel for the bytes:
    -- `lzo_wwrite` without threads ends with no assertion failing, has written the blocks of all bytes,
    -- and returns 0.
    pub direct_loop-Written :
        (fuel : ℕ) (w : W) (b : Bytes)
        → 0 < max_block
        → length b < fuel
        → Valid w
        → Written w b (direct_loop max_block lzo write fuel w b)
    unfolding direct_loop block_written
    direct_loop-Written zero w b some h good = absurd (omega arith)
    direct_loop-Written (suc fuel) w [] some h good = (refl, sym (append-nil (taken w)), good)
    direct_loop-Written (suc fuel) w (x ∷ xs) some h good =
        let n = length (x ∷ xs) in
        let size = min n max_block in
        let go_on = direct_loop max_block lzo write fuel in
        let cut : take size (x ∷ xs) ≡ take max_block (x ∷ xs) =
          take-min n max_block (x ∷ xs) refl in
        let left : drop size (x ∷ xs) ≡ drop max_block (x ∷ xs) =
          drop-min n max_block (x ∷ xs) refl in
        let block = block_of max_block lzo works (take max_block (x ∷ xs)) in
        let is : lzo_wwrite_block max_block lzo (take size (x ∷ xs)) ≡ packed block =
          ap (lzo_wwrite_block max_block lzo) cut
          ∙ (lzo_wwrite_block-packed max_block lzo works (take max_block (x ∷ xs))
              (omega (arith, length-take max_block (x ∷ xs)))
              (omega (arith, length-take max_block (x ∷ xs)))).0 in
        subst (Written w (x ∷ xs))
          (sym (
            ap (block_written max_block lzo write go_on w (x ∷ xs) size) is
            ∙ ap (go_on (write w block).1) left))
          (Written-next fuel w x xs (go_on (write w block).1 (drop max_block (x ∷ xs))) some
            (direct_loop-Written fuel (write w block).1 (drop max_block (x ∷ xs)) some
              (omega (arith, length-drop max_block (x ∷ xs))) (all.takes w block good).0)
            good)
