-- ===== src/Fgets/Line.antt =====
-- `wandio_generic_fgets` against the next line of the input.
use wandio.Base.{
  ℕ, zero, suc, ◌+◌, ◌^◌, ◌<◌, lt→not_leb, ◌≡◌, ◌∙◌, sym, ap, subst, refl, inl, inr, Bool, true,
  false, [], ◌∷◌, ◌++◌, append_assoc, append-nil, append-eq-nil, length, length-append, Bool-cases,
  ◌==◌, if◌then◌else◌, pos, negsuc, Bytes, arith,
}
use wandio.Reader.{Reply, ret, stuck}
use wandio.Reader.Contract.{Served, IsReader}
use wandio.Fgets.{stored_byte, terminated, after_read, fgets_loop, wandio_generic_fgets}

-- The first line of a text with its newline, cut off behind `n` bytes.
abbrev pub line : ℕ → Bytes → Bytes
line zero text = []
line (suc n) [] = []
line (suc n) (c ∷ text) = if c == b'\n' then c ∷ [] else c ∷ line n text

abbrev pub stored : Bool → Bytes → Bytes
stored chomp [] = []
stored chomp (c ∷ cs) = stored_byte chomp c ∷ stored chomp cs

stored_plain : (chomp : Bool) (c : ℕ) → (c == b'\n') ≡ false → stored_byte chomp c ≡ c
unfolding stored_byte
stored_plain chomp c other = rw other

-- What a call returns that has `held` already and may read `n` bytes more of `input`.
module _ {S : Type 0} (Valid : S → Type 0) (rest : S → Bytes) (read : S → ℕ → ℕ → Reply S)
    (chomp : Bool) where
  -- `read` has failed with this value in a valid state and left the state `s`
  abbrev pub Failed : ℕ → S → Type 0
  Failed e s = (s0 : S) × (bad : Bytes) × Valid s0 × (read s0 0 1 ≡ ret (negsuc e) bad s)

  abbrev pub GotLine : Bytes → ℕ → Bytes → Reply S → Type 0
  GotLine held n input (ret (pos k) bytes s) =
      (k ≡ length held + length (line n input))
      × (bytes ≡ held ++ (stored chomp (line n input) ++ 0 ∷ []))
      × (input ≡ line n input ++ rest s)
      × Valid s
  GotLine held n input (ret (negsuc e) bytes s) =
      (front : Bytes) × (back : Bytes) × (bytes ≡ held ++ front)
      × (line n input ≡ front ++ back)
      × (input ≡ front ++ rest s)
      × Valid s
      × Failed e s
  GotLine held n input stuck = ⊥

module _ {S : Type 0} (Valid : S → Type 0) (rest : S → Bytes) (read : S → ℕ → ℕ → Reply S)
    (chomp : Bool) (reads : IsReader Valid rest read) where
  GotLine-cons :
      (n : ℕ) (held input : Bytes) (c : ℕ) (r : Reply S)
      → (c == b'\n') ≡ false
      → GotLine Valid rest read chomp (held ++ c ∷ []) n input r
      → GotLine Valid rest read chomp held (suc n) (c ∷ input) r
  GotLine-cons n held input c stuck other h = h
  GotLine-cons n held input c (ret (negsuc e) bytes s) other
        (front, back, is, part, splits, v, failed) =
      rw other (
        c ∷ front,
        back,
        is ∙ append_assoc held (c ∷ []) front,
        ap (λ t. c ∷ t) part,
        ap (λ t. c ∷ t) splits,
        v,
        failed,
      )
  GotLine-cons n held input c (ret (pos k) bytes s) other (count, is, splits, v) = rw other (
    omega (arith, length-append held (c ∷ [])),
    is
        ∙ append_assoc held (c ∷ []) (stored chomp (line n input) ++ 0 ∷ [])
        ∙ ap (λ x. held ++ x ∷ (stored chomp (line n input) ++ 0 ∷ []))
            (sym (stored_plain chomp c other)),
    ap (λ t. c ∷ t) splits,
    v,
  )

  newline-GotLine :
      (n : ℕ) (held : Bytes) (c : ℕ) (s : S)
      → (c == b'\n') ≡ true
      → Valid s
      → GotLine Valid rest read chomp held
          (suc n)
          (c ∷ rest s)
          (terminated read chomp (held ++ stored_byte chomp c ∷ []) s)
  newline-GotLine n held c s newline v = rw newline (
    omega (arith, length-append held (stored_byte chomp c ∷ [])),
    append_assoc held (stored_byte chomp c ∷ []) (0 ∷ []),
    refl,
    v,
  )

  round-GotLine :
      (n : ℕ) (held : Bytes) (s : S) (continue : Bytes → S → Reply S) (r : Reply S)
      → ((held : Bytes) (s : S)
          → Valid s
          → length held + n < 2 ^ 31
          → GotLine Valid rest read chomp held n (rest s) (continue held s))
      → Served Valid rest s 1 r
      → Valid s
      → read s 0 1 ≡ r
      → length held + suc n < 2 ^ 31
      → GotLine Valid rest read chomp held (suc n) (rest s) (after_read read chomp continue held r)
  unfolding after_read
  round-GotLine n held s continue stuck ih h was call few = h
  round-GotLine n held s continue (ret (negsuc e) bytes s') ih (size, same, v) was call few =
      ([], line (suc n) (rest s), sym (append-nil held), refl, sym same, v, (s, bytes, was, call))
  round-GotLine n held s continue (ret (pos zero) bytes s') ih (count, fits, next, at_end, v) was
        call few =
      let over : rest s ≡ [] = at_end refl (omega arith) in
      rw over (omega arith, refl, sym (append-eq-nil bytes (rest s') count (sym next ∙ over)), v)
  round-GotLine n held s continue (ret (pos (suc k)) [] s') ih (count, fits, next, at_end, v) was
        call few =
      absurd (omega arith)
  round-GotLine n held s continue (ret (pos (suc k)) (c ∷ d ∷ bytes) s') ih
        (count, fits, next, at_end, v) was call few =
      absurd (omega arith)
  round-GotLine n held s continue (ret (pos (suc k)) (c ∷ []) s') ih (count, fits, next, at_end, v)
        was call few =
      let counts = lt→not_leb (2 ^ 31) (length held + 1) (omega arith) in
      elim (Bool-cases (c == b'\n')) [
        | inl newline ↦
            rw (counts, newline)
              (subst
                (λ i.
                  GotLine Valid rest read chomp held (suc n) i
                    (terminated read chomp (held ++ stored_byte chomp c ∷ []) s'))
                (sym next) (newline-GotLine n held c s' newline v))
        | inr other ↦
            rw (counts, other)
              (subst
                (λ i. GotLine Valid rest read chomp held (suc n) i (continue (held ++ c ∷ []) s'))
                (sym next)
                (GotLine-cons n held (rest s') c (continue (held ++ c ∷ []) s') other
                  (ih (held ++ c ∷ []) s' v (omega (arith, length-append held (c ∷ []))))))
      ]

  loop-GotLine :
      (n : ℕ) (held : Bytes) (s : S)
      → Valid s
      → length held + n < 2 ^ 31
      → GotLine Valid rest read chomp held n (rest s) (fgets_loop read chomp n held s)
  unfolding fgets_loop
  loop-GotLine zero held s v few = (omega arith, refl, refl, v)
  loop-GotLine (suc n) held s v few =
      round-GotLine n held s (fgets_loop read chomp n) (read s 0 1) (loop-GotLine n)
        (reads.serves s 0 1 v) v refl few

  -- Over a reader that keeps its contract, with room for `n` bytes, fewer than 2^31, and the final
  -- NUL, the call
  -- returns the length of the next line of the input, its newline included and at most `n` bytes of
  -- it, has stored the line with a NUL behind it (the newline replaced by a NUL when chomping), and
  -- has read just this line. A negative value is that of a read that has failed; the bytes read up to
  -- there, which begin the line, are then in the buffer with no NUL.
  pub fgets-GotLine :
      (n : ℕ) (s : S)
      → n < 2 ^ 31
      → Valid s
      → GotLine Valid rest read chomp [] n
          (rest s)
          (wandio_generic_fgets read chomp s (pos (suc n)))
  unfolding wandio_generic_fgets
  fgets-GotLine n s few v = loop-GotLine n [] s v (omega arith)
