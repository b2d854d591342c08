-- ===== src/Codec/Write/Took.antt =====
-- What becomes of the bytes handed to the loop.
use wandio.Base.{
  ℕ, zero, suc, ◌+◌, ◌-◌, ◌^◌, ◌≤◌, ◌<◌, ◌≡◌, ◌⊎◌, ◌∙◌, sym, subst, ap, refl, inl, inr, Bool, true,
  false, not, ◌&&◌, [], ◌∷◌, ◌++◌, append-nil, append_assoc, length, length-append, take, drop,
  take-append-drop, ltb, leb, leb→le, not_leb→lt, lt→ltb, take_of_length_le, nil_of, ◌==◌, ==_iff,
  Bool-cases, if◌then◌else◌, ℤ, pos, negsuc, minus_one, Bytes, arith,
}
use mathlib.Core.Bool.{false≢true}
use wandio.Writer.{Outcome, done, aborted, no_fuel, Accepted, IsSink}
use wandio.Codec.{Err, err_ok, err_eof, err_error, is_ok, Code, Call, buff_size, to_uint}
use wandio.Codec.Write.{Deflater, space, code_err, deflate_round, emptied, write_loop, compress}
use wandio.Codec.Write.Encoder.{IsEncoder}

nothing_left : (e : Err) → (is_ok e && ltb 0 0) ≡ true → ⊥
nothing_left err_ok h = false≢true h
nothing_left err_eof h = false≢true h
nothing_left err_error h = false≢true h

something_left : (e : Err) → e ≡ err_ok → (n : ℕ) → (is_ok e && ltb 0 (suc n)) ≡ true
something_left err_ok h n = lt→ltb 0 (suc n) (omega arith)
something_left err_eof h n = absurd (false≢true (ap is_ok h))
something_left err_error h n = absurd (false≢true (ap is_ok h))

module _ {E W : Type 0} (Valid : W → Type 0) (taken : W → Bytes) (fed emitted : E → Bytes) where
  -- all output of the encoder is with the child or in `outbuff`
  pub record Linked (s : Deflater E W) : Type 0 where
    pub child : Valid s.child
    pub few : length s.held ≤ buff_size
    pub linked : emitted s.coder ≡ taken s.child ++ s.held

  -- the child has returned an error
  abbrev pub Failed : (W → Bytes → ℤ × W) → Type 0
  Failed write = (w : W) × (bytes : Bytes) × (e : ℕ) × Valid w × ((write w bytes).0 ≡ negsuc e)

  -- A call that was handed `buffer`, with `before` fed to the encoder earlier: either all of it has
  -- been fed and the call returns its length; or the child has failed, and the part of it that has
  -- been fed is as long as the value returned, or there is none and the value is -1.
  abbrev pub Wrote : (W → Bytes → ℤ × W) → Bytes → Bytes → Outcome (Deflater E W) → Type 0
  Wrote write before buffer (done v s') =
      ((v ≡ pos (length buffer))
        × (s'.err ≡ err_ok)
        × (fed s'.coder ≡ before ++ buffer)
        × Linked s')
      ⊎ ((s'.err ≡ err_error)
          × Failed write
          × ((part : Bytes) × (left : Bytes) × (buffer ≡ part ++ left)
              × (fed s'.coder ≡ before ++ part)
              × ((v ≡ pos (length part)) ⊎ ((part ≡ []) × (v ≡ minus_one)))))
  Wrote write before buffer aborted = ⊥
  Wrote write before buffer no_fuel = ⊥

module _ {E W : Type 0} (Valid : W → Type 0) (taken : W → Bytes) (fed emitted : E → Bytes)
    (bound : E → Bytes → ℕ) (encode : E → Bytes → ℕ → Call E Code) (write : W → Bytes → ℤ × W)
    (library : IsEncoder fed emitted bound encode) (child : IsSink Valid taken write)
    (before buffer : Bytes) (short : length buffer < 2 ^ 32) where
  abbrev Ready : Deflater E W → Type 0
  Ready = Linked Valid taken fed emitted

  abbrev Out : Outcome (Deflater E W) → Type 0
  Out = Wrote Valid taken fed emitted write before buffer

  -- enough fuel for the input that is left
  abbrev Fueled : ℕ → E → Bytes → Type 0
  Fueled fuel e [] = 0 < fuel
  Fueled fuel e (x ∷ xs) = bound e (x ∷ xs) + 1 < fuel

  -- what the loop is to do on `fuel`, with `got` fed already
  abbrev Loops : ℕ → Type 0
  Loops fuel =
      (s : Deflater E W) (got input : Bytes)
      → Ready s
      → s.err ≡ err_ok
      → buffer ≡ got ++ input
      → fed s.coder ≡ before ++ got
      → Fueled fuel s.coder input
      → Out (write_loop encode write fuel (length buffer) s input)

  test-Out :
      (b : Bool) (x y : Outcome (Deflater E W))
      → (b ≡ false → Out x)
      → (b ≡ true → Out y)
      → Out (elim b [ false ↦ x | true ↦ y ])
  test-Out false x y f g = f refl
  test-Out true x y f g = g refl

  full-Out :
      (b : Bool) (x y : Outcome (Deflater E W))
      → (b ≡ true → Out x)
      → (b ≡ false → Out y)
      → Out (elim b [ true ↦ x | false ↦ y ])
  full-Out true x y f g = f refl
  full-Out false x y f g = g refl

  refuel :
      (fuel : ℕ) (e e' : E) (input input' : Bytes) (made : ℕ)
      → Fueled (suc fuel) e input
      → 0 < length input
      → made + bound e' input' ≤ bound e input
      → (input' ≡ []) ⊎ (0 < made)
      → Fueled fuel e' input'
  refuel fuel e e' [] input' made h some b w = absurd (omega arith)
  refuel fuel e e' (x ∷ xs) [] made h some b w = omega arith
  refuel fuel e e' (x ∷ xs) (y ∷ ys) made h some b (inl gone) =
      absurd (omega (arith, ap length gone))
  refuel fuel e e' (x ∷ xs) (y ∷ ys) made h some b (inr more) = omega arith

  round-Out :
      (fuel : ℕ)
      → Loops fuel
      → (s : Deflater E W) (got input : Bytes) → Ready s
      → length s.held < buff_size
      → buffer ≡ got ++ input
      → fed s.coder ≡ before ++ got
      → 0 < length input
      → Fueled (suc fuel) s.coder input
      → Out (deflate_round encode write (write_loop encode write fuel (length buffer)) s input)
  unfolding deflate_round
  round-Out fuel ih s got input ready room parts so_far some enough =
      let c = encode s.coder input (space s.held) in
      let open_space : 0 < space s.held = omega arith in
      ih (record s { coder = c.next; held = s.held ++ c.made; err = code_err c.code })
        (got ++ take c.used input) (drop c.used input)
        (record {
          child = ready.child;
          few =
              omega (arith, length-append s.held c.made, library.fits s.coder input (space s.held));
          linked =
              library.emits s.coder input (space s.held)
              ∙ ap (λ z. z ++ c.made) ready.linked
              ∙ append_assoc (taken s.child) s.held c.made;
        })
        (ap code_err (library.runs s.coder input (space s.held) some open_space))
        (parts
          ∙ ap (λ z. got ++ z) (sym (take-append-drop c.used input))
          ∙ sym (append_assoc got (take c.used input) (drop c.used input)))
        (library.feeds s.coder input (space s.held)
          ∙ ap (λ z. z ++ take c.used input) so_far
          ∙ append_assoc before got (take c.used input))
        (refuel fuel s.coder c.next input (drop c.used input) (length c.made) enough some
          (library.bounded s.coder input (space s.held))
          (elim (library.works s.coder input (space s.held) some open_space) [
            | inl gone ↦ inl gone
            | inr full ↦ inr (omega arith)
          ]))

  -- the child has failed with `input` left
  Failed-child :
      (s : Deflater E W) (got input : Bytes)
      → s.err ≡ err_error
      → Failed Valid taken fed emitted write
      → buffer ≡ got ++ input
      → fed s.coder ≡ before ++ got
      → Out (
          if not (length input == to_uint (length buffer))
          then done (pos (length buffer - length input)) s
          else done minus_one s)
  Failed-child s got input e failed parts so_far =
      let size : length buffer ≡ length got + length input =
        omega (arith, ap length parts, length-append got input) in
      elim (Bool-cases (length input == to_uint (length buffer))) [
        | inl untouched ↦
            let all_left = (==_iff (length input) (to_uint (length buffer))).0 untouched in
            rw (untouched)
              (inr (e, failed, (got, input, parts, so_far, inr (nil_of got (omega arith), refl))))
        | inr touched ↦
            rw (touched) (inr (e, failed, (got, input, parts, so_far, inl (ap pos (omega arith)))))
      ]

  emptied-Out :
      (fuel : ℕ)
      → Loops fuel
      → (s : Deflater E W) (got input : Bytes) (reply : ℤ × W) → Ready s
      → buff_size ≤ length s.held
      → buffer ≡ got ++ input
      → fed s.coder ≡ before ++ got
      → 0 < length input
      → Fueled (suc fuel) s.coder input
      → Accepted Valid taken s.child s.held reply
      → (write s.child s.held).0 ≡ reply.0
      → Out (
          emptied encode write
            (write_loop encode write fuel (length buffer))
            s
            (length buffer)
            input
            reply)
  unfolding emptied
  emptied-Out fuel ih s got input (negsuc e, w) ready full parts so_far some enough h is =
      Failed-child (record s { child = w; err = err_error }) got input refl
        (s.child, s.held, e, ready.child, is) parts so_far
  emptied-Out fuel ih s got input (pos zero, w) ready full parts so_far some enough (k, grown, v)
        is =
      absurd (omega arith)
  emptied-Out fuel ih s got input (pos (suc k), w) ready full parts so_far some enough
        (size, grown, v) is =
      round-Out fuel ih (record s { child = w; held = [] }) got input
        (record {
          child = v;
          few = omega arith;
          linked = ready.linked ∙ sym grown ∙ sym (append-nil (taken w));
        })
        (omega arith) parts so_far some enough

  -- nothing is left
  all_fed :
      (s : Deflater E W) (got : Bytes)
      → Ready s
      → s.err ≡ err_ok
      → buffer ≡ got ++ []
      → fed s.coder ≡ before ++ got
      → Out (done (pos (length buffer - 0)) s)
  all_fed s got ready e parts so_far = inl (
    ap pos (omega arith),
    e,
    so_far ∙ ap (λ z. before ++ z) (sym (append-nil got) ∙ sym parts),
    ready,
  )

  write_loop-Out : (fuel : ℕ) → Loops fuel
  unfolding write_loop
  write_loop-Out zero s got [] ready e parts so_far enough = absurd (omega arith)
  write_loop-Out zero s got (x ∷ xs) ready e parts so_far enough = absurd (omega arith)
  write_loop-Out (suc fuel) s got [] ready e parts so_far enough =
      test-Out (is_ok s.err && ltb 0 0) _ _ (λ _. all_fed s got ready e parts so_far)
        (λ test. absurd (nothing_left s.err test))
  write_loop-Out (suc fuel) s got (x ∷ xs) ready e parts so_far enough =
      let input = x ∷ xs in
      let loop = write_loop encode write fuel (length buffer) in
      let ih = write_loop-Out fuel in
      test-Out (is_ok s.err && ltb 0 (length input)) (done (pos (length buffer - length input)) s)
        (elim (leb buff_size (length s.held)) [
          | true ↦ emptied encode write loop s (length buffer) input (write s.child s.held)
          | false ↦ deflate_round encode write loop s input
        ])
        (λ test. absurd (false≢true (sym test ∙ something_left s.err e (length xs))))
        (λ _.
          full-Out (leb buff_size (length s.held))
            (emptied encode write loop s (length buffer) input (write s.child s.held))
            (deflate_round encode write loop s input)
            (λ full.
              emptied-Out fuel ih s got input (write s.child s.held) ready
                (leb→le buff_size (length s.held) full) parts so_far (omega arith) enough
                (child.accepts s.child s.held ready.child) refl)
            (λ room.
              round-Out fuel ih s got input ready (not_leb→lt buff_size (length s.held) room) parts
                so_far (omega arith) enough))

  by_err :
      (s : Deflater E W) (e : Err) (fuel avail : ℕ)
      → avail ≡ length buffer
      → Ready s
      → s.err ≡ err_ok
      → e ≡ err_ok
      → fed s.coder ≡ before
      → bound s.coder buffer + 1 < fuel
      → Out (elim e [
        | err_eof ↦ done (pos 0) s
        | err_error ↦ done minus_one s
        | err_ok ↦ write_loop encode write fuel (length buffer) s (take avail buffer)
      ])
  by_err s err_eof fuel avail all ready is e so_far enough = absurd (false≢true (ap is_ok e))
  by_err s err_error fuel avail all ready is e so_far enough = absurd (false≢true (ap is_ok e))
  by_err s err_ok fuel avail all ready is e so_far enough =
      let whole : take avail buffer ≡ buffer = take_of_length_le avail buffer (omega arith) in
      subst (λ z. Out (write_loop encode write fuel (length buffer) s z)) (sym whole)
        (write_loop-Out fuel s [] buffer ready is refl (so_far ∙ sym (append-nil before))
          (start_fuel buffer enough))
    where
      start_fuel : (xs : Bytes) → bound s.coder xs + 1 < fuel → Fueled fuel s.coder xs
      start_fuel [] h = omega arith
      start_fuel (x ∷ xs) h = h

  pub compress-Wrote :
      (s : Deflater E W) (fuel avail : ℕ)
      → avail ≡ length buffer
      → Ready s
      → s.err ≡ err_ok
      → fed s.coder ≡ before
      → bound s.coder buffer + 1 < fuel
      → Out (compress encode write fuel s buffer avail)
  unfolding compress
  compress-Wrote s fuel avail all ready e so_far enough =
      by_err s s.err fuel avail all ready e e so_far enough
