-- ===== src/Codec/Read/Served.antt =====
-- The loop against the contract of `read`: what is read is the text that the library's decoder finds
-- in the parent's input.
use wandio.Base.{
  ℕ, zero, suc, ◌+◌, ◌-◌, ◌^◌, ◌≤◌, ◌<◌, ◌≡◌, ◌≢◌, ◌⊎◌, ◌∙◌, sym, subst, ap, ap₂, refl, inl, inr,
  Bool, true, false, ◌&&◌, [], ◌∷◌, ◌++◌, append-nil, append_assoc, append-eq-nil, nil_of, length,
  length-append, drop, ltb, ltb→lt, not_ltb→le, ◌==◌, ==_iff, Bool-cases, pos, negsuc, minus_one,
  Bytes, arith,
}
use mathlib.Core.Bool.{false≢true, true≢false}
use wandio.Reader.{Reply, ret, stuck}
use wandio.Reader.Contract.{Served, IsReader}
use wandio.Codec.{Err, err_ok, err_eof, err_error, is_ok, Code, Call, buff_size, to_uint}
use wandio.Codec.Read.{
  Stream, AtEnd, unexpected, ended, so_far, read_loop, decompress, end_of_parent, round, refilled,
}

pub ok_not_error : err_ok ≢ err_error
ok_not_error e = false≢true (sym (ap is_ok e))

module _ {D S : Type 0} (rest : S → Bytes) where
  -- the input that the decoder has not used yet
  abbrev pub ahead : Stream D S → Bytes
  ahead s = s.input ++ rest s.parent

  abbrev pub text : (D → Bytes → Bytes) → Err → D → Bytes → Bytes
  text plain err_eof d x = []
  text plain e d x = plain d x

  -- the text that is still to come
  abbrev pub left : (D → Bytes → Bytes) → Stream D S → Bytes
  left plain s = text plain s.err s.coder (ahead s)

  abbrev pub Whole : (D → Bytes → Type 0) → (ℕ → Type 0) → Err → D → ℕ → Bytes → Type 0
  Whole Complete Open err_ok d since x = Complete d x × (Open since → x ≢ [])
  Whole Complete Open e d since x = Unit

-- What the loop needs of the decoder and of its parameters: `plain d x` is the text of the input `x`
-- for a decoder in the state `d`, `Complete d x` says that `x` ends where a stream may end, and
-- `Open` is the count since the last end where the parent's end is an error.
module _ {D S : Type 0} (Valid : S → Type 0) (rest : S → Bytes) (plain : D → Bytes → Bytes)
    (Complete : D → Bytes → Type 0) (Open : ℕ → Type 0) where
  pub record Good (s : Stream D S) : Type 0 where
    pub parent : Valid s.parent
    pub whole : Whole rest Complete Open s.err s.coder s.sincelastend (ahead rest s)

  -- a call of the decoder makes the next bytes of the text, and gets on
  pub record Decoded (s s' : Stream D S) (room : ℕ) (c : Call D Code) : Type 0 where
    pub good : Good s'
    pub sound : s'.err ≢ err_error
    pub next : left rest plain s ≡ c.made ++ left rest plain s'
    pub fits : length c.made ≤ room
    pub used : length (ahead rest s') + c.used ≡ length (ahead rest s)
    pub moves : 0 < c.used + length c.made

  pub record Sound (decode : D → Bytes → ℕ → Call D Code) (at_end : ℕ → Bool → AtEnd)
      (switch : Code → Stream D S → Stream D S) : Type 0 where
    pub no_more : (d : D) → Complete d [] → plain d [] ≡ []
    pub expected : (n : ℕ) (u : Bool) → at_end n u ≡ unexpected → Open n
    pub untouched : (n : ℕ) (u : Bool) → at_end n u ≡ ended → u ≡ true
    pub decodes :
        (s : Stream D S) (room : ℕ)
        → Good s
        → s.err ≡ err_ok
        → 0 < length s.input
        → 0 < room
        → let c = decode s.coder s.input room in
          Decoded s
            (switch c.code (record s { coder = c.next; input = drop c.used s.input }))
            room
            c

pub eof_not_error : err_eof ≢ err_error
eof_not_error e = true≢false (ap is_eof e)
  where
    is_eof : Err → Bool
    is_eof err_eof = true
    is_eof e = false

-- The errors that a reader may report of itself.
module _ {S : Type 0} (Valid : S → Type 0) (read : S → ℕ → ℕ → Reply S) where
  -- a read of the parent in a valid state has failed and left the state `p`
  abbrev pub Failed : S → Type 0
  Failed p =
      (p0 : S) × (e : ℕ) × (bytes : Bytes) × Valid p0
      × (read p0 0 buff_size ≡ ret (negsuc e) bytes p)

  -- A call of a reader in the error state `before` that returned a negative value: it is -1, the
  -- reader is in the state ERR_ERROR, and it was there before or the parent's last read has
  -- failed. A call that returned a count has left the state ERR_ERROR only where that read has.
  abbrev pub Blamed : {D : Type 0} → Err → Reply (Stream D S) → Type 0
  Blamed before (ret (pos k) bytes s') = (s'.err ≢ err_error) ⊎ Failed s'.parent
  Blamed before (ret (negsuc e) bytes s') =
      (e ≡ 0) × (s'.err ≡ err_error) × ((before ≡ err_error) ⊎ Failed s'.parent)
  Blamed before stuck = ⊥

module _ {D S : Type 0} (Valid : S → Type 0) (rest : S → Bytes) (plain : D → Bytes → Bytes)
    (Complete : D → Bytes → Type 0) (Open : ℕ → Type 0) (decode : D → Bytes → ℕ → Call D Code)
    (read : S → ℕ → ℕ → Reply S) (at_end : ℕ → Bool → AtEnd)
    (switch : Code → Stream D S → Stream D S) (reads : IsReader Valid rest read)
    (sound : Sound Valid rest plain Complete Open decode at_end switch) (len : ℕ)
    (short : len < 2 ^ 32) where
  abbrev Ready : Stream D S → Type 0
  Ready = Good Valid rest plain Complete Open

  abbrev Out : Bytes → Reply (Stream D S) → Type 0
  Out whole (ret (pos k) bytes s') =
      (k ≡ length bytes)
      × (k ≤ len)
      × (whole ≡ bytes ++ left rest plain s')
      × (k ≡ 0 → 0 < len → whole ≡ [])
      × Ready s'
      × ((s'.err ≢ err_error) ⊎ Failed Valid read s'.parent)
  Out whole (ret (negsuc e) bytes s') =
      (length bytes ≤ len)
      × (left rest plain s' ≡ whole)
      × Ready s'
      × (e ≡ 0)
      × (s'.err ≡ err_error)
      × Failed Valid read s'.parent
  Out whole stuck = ⊥

  uint_len : to_uint len ≡ len
  uint_len = omega arith

  -- the rounds that are left take so much fuel
  abbrev Fueled : ℕ → Stream D S → ℕ → Type 0
  Fueled fuel s room = length (ahead rest s) + room < fuel

  -- A round continues well where the loop does on less fuel.
  round-Out :
      (whole : Bytes) (fuel : ℕ)
      → ((s : Stream D S) (room : ℕ) (got : Bytes)
          → Ready s
          → s.err ≢ err_error
          → whole ≡ got ++ left rest plain s
          → length got + room ≡ len
          → Fueled fuel s room
          → Out whole (read_loop decode read at_end switch fuel len s room got))
      → (s : Stream D S) (room : ℕ) (got : Bytes) → Ready s
      → s.err ≡ err_ok
      → 0 < length s.input
      → 0 < room
      → whole ≡ got ++ left rest plain s
      → length got + room ≡ len
      → Fueled (suc fuel) s room
      → Out whole (
          round decode read at_end switch (read_loop decode read at_end switch fuel len) s room got)
  unfolding round
  round-Out whole fuel ih s room got good e more space is total enough =
      let c = decode s.coder s.input room in
      let s' = switch c.code (record s { coder = c.next; input = drop c.used s.input }) in
      let d = sound.decodes s room good e more space in
      ih s' (room - length c.made) (got ++ c.made) d.good d.sound
        (is ∙ ap (λ z. got ++ z) d.next ∙ sym (append_assoc got c.made (left rest plain s')))
        (omega (arith, length-append got c.made, d.fits)) (omega (arith, d.fits, d.used, d.moves))

  test-Out :
      (whole : Bytes) (b : Bool) (x y : Reply (Stream D S))
      → (b ≡ false → Out whole x)
      → (b ≡ true → Out whole y)
      → Out whole (elim b [ false ↦ x | true ↦ y ])
  test-Out whole false x y f g = f refl
  test-Out whole true x y f g = g refl

  input-Out :
      (whole : Bytes) (xs : Bytes) (x y : Reply (Stream D S))
      → (xs ≡ [] → Out whole x)
      → (0 < length xs → Out whole y)
      → Out whole (elim xs [ [] ↦ x | _ ∷ _ ↦ y ])
  input-Out whole [] x y f g = f refl
  input-Out whole (z ∷ xs) x y f g = g (omega arith)

  -- the loop ends with the room full, or at the end of the text
  stopped :
      (whole : Bytes) (s : Stream D S) (room : ℕ) (got : Bytes) (e : Err)
      → Ready s
      → s.err ≡ e
      → e ≢ err_error
      → whole ≡ got ++ left rest plain s
      → length got + room ≡ len
      → (is_ok e && ltb 0 room) ≡ false
      → Out whole (ret (pos (len - room)) got s)
  stopped whole s room got err_error good e no_error is total test = absurd (no_error refl)
  stopped whole s room got err_eof good e no_error is total test =
      let nothing : left rest plain s ≡ [] = ap (λ z. text rest plain z s.coder (ahead rest s)) e in
      (
        omega arith,
        omega arith,
        is,
        (λ none_read _.
            is ∙ ap (λ z. got ++ z) nothing ∙ append-nil got ∙ nil_of got (omega arith)),
        good,
        inl (λ f. no_error (sym e ∙ f)),
      )
  stopped whole s room got err_ok good e no_error is total test =
      let full : room ≡ 0 = omega (arith, not_ltb→le 0 room test) in
      (
        omega arith,
        omega arith,
        is,
        (λ a b. absurd (omega arith)),
        good,
        inl (λ f. no_error (sym e ∙ f)),
      )

  -- what happens at the end of the parent's input
  end-Out :
      (whole : Bytes) (s : Stream D S) (room : ℕ) (got : Bytes) (a : AtEnd)
      → Ready s
      → s.err ≡ err_ok
      → whole ≡ got
      → length got + room ≡ len
      → 0 < room
      → left rest plain s ≡ []
      → (a ≡ unexpected → ⊥)
      → (a ≡ ended → got ≡ [])
      → Out whole (end_of_parent decode read at_end switch s len room got a)
  unfolding end_of_parent
  end-Out whole s room got unexpected good e is total space over no_error fresh =
      absurd (no_error refl)
  end-Out whole s room got ended good e is total space over no_error fresh =
      let none_got = fresh refl in
      (
        omega (arith, ap length none_got),
        omega arith,
        is ∙ sym (append-nil got),
        (λ _ _. is ∙ none_got),
        record { parent = good.parent; whole = tt },
        inl eof_not_error,
      )
  end-Out whole s room got so_far good e is total space over no_error fresh = (
    omega arith,
    omega arith,
    is ∙ sym (append-nil got) ∙ ap (λ z. got ++ z) (sym over),
    (λ none_read _. is ∙ nil_of got (omega arith)),
    good,
    inl (λ f. ok_not_error (sym e ∙ f)),
  )

  refilled-Out :
      (whole : Bytes) (fuel : ℕ)
      → ((s : Stream D S) (room : ℕ) (got : Bytes)
          → Ready s
          → s.err ≢ err_error
          → whole ≡ got ++ left rest plain s
          → length got + room ≡ len
          → Fueled fuel s room
          → Out whole (read_loop decode read at_end switch fuel len s room got))
      → (s : Stream D S) (room : ℕ) (got : Bytes) (reply : Reply S) → Ready s
      → s.err ≡ err_ok
      → s.input ≡ []
      → 0 < room
      → whole ≡ got ++ left rest plain s
      → length got + room ≡ len
      → Fueled (suc fuel) s room
      → Served Valid rest s.parent buff_size reply
      → read s.parent 0 buff_size ≡ reply
      → Out whole (
          refilled decode read at_end switch
            (read_loop decode read at_end switch fuel len)
            s
            len
            room
            got
            reply)
  unfolding refilled
  refilled-Out whole fuel ih s room got stuck good e none_in space is total enough h call = h
  refilled-Out whole fuel ih s room got (ret (pos zero) bytes p) good e none_in space is total
        enough (size, fits, next, ends, v) call =
      let s1 : Stream D S = record s { parent = p } in
      let before : rest s.parent ≡ [] = ends refl (omega arith) in
      let behind : rest p ≡ [] = append-eq-nil bytes (rest p) size (sym next ∙ before) in
      let ahead_nil : ahead rest s ≡ [] = ap₂ (λ y z. y ++ z) none_in before in
      let ahead1_nil : ahead rest s1 ≡ [] = ap₂ (λ y z. y ++ z) none_in behind in
      let state =
        subst (λ z. Whole rest Complete Open z s.coder s.sincelastend (ahead rest s)) e
          good.whole in
      let over : plain s.coder [] ≡ [] =
        sound.no_more s.coder (subst (Complete s.coder) ahead_nil state.0) in
      let left_nil : (x : Bytes) → x ≡ [] → text rest plain s.err s.coder x ≡ [] =
        λ x h. ap (λ z. text rest plain z s.coder x) e ∙ ap (plain s.coder) h ∙ over in
      end-Out whole s1 room got (at_end s.sincelastend (room == to_uint len))
        (record {
          parent = v;
          whole =
              subst (Whole rest Complete Open s.err s.coder s.sincelastend)
                (ahead_nil ∙ sym ahead1_nil) good.whole;
        })
        e (is ∙ ap (λ z. got ++ z) (left_nil (ahead rest s) ahead_nil) ∙ append-nil got) total space
        (left_nil (ahead rest s1) ahead1_nil)
        (λ a. state.1 (sound.expected s.sincelastend (room == to_uint len) a) ahead_nil)
        (λ a.
          let whole_room =
            (==_iff room (to_uint len)).0
              (sound.untouched s.sincelastend (room == to_uint len) a) in
          nil_of got (omega arith))
  refilled-Out whole fuel ih s room got (ret (negsuc k) bytes p) good e none_in space is total
        enough (few, same, v) call =
      let s' : Stream D S = record s { parent = p; err = err_error } in
      let kept : left rest plain s' ≡ left rest plain s =
        ap (λ z. plain s.coder (s.input ++ z)) same
        ∙ ap (λ z. text rest plain z s.coder (ahead rest s)) (sym e) in
      let ready : Ready s' = record { parent = v; whole = tt } in
      let failed : Failed Valid read p = (s.parent, k, bytes, good.parent, call) in
      elim (Bool-cases (room == to_uint len)) [
        | inl untouched ↦
            let all_room = (==_iff room (to_uint len)).0 untouched in
            let none_got = nil_of got (omega arith) in
            rw (untouched) (
              omega arith,
              kept ∙ ap (λ z. z ++ left rest plain s) (sym none_got) ∙ sym is,
              ready,
              refl,
              refl,
              failed,
            )
        | inr touched ↦ rw (touched) (
          omega arith,
          omega arith,
          is ∙ ap (λ z. got ++ z) (sym kept),
          (λ none_read _.
              let full : room ≡ to_uint len = omega arith in
              absurd (false≢true (sym touched ∙ (==_iff room (to_uint len)).1 full))),
          ready,
          inr failed,
        )
      ]
  refilled-Out whole fuel ih s room got (ret (pos (suc k)) bytes p) good e none_in space is total
        enough (size, fits, next, ends, v) call =
      let s1 : Stream D S = record s {
        parent = p;
        input = bytes;
        sincelastend = s.sincelastend + suc k;
      } in
      let same : ahead rest s ≡ ahead rest s1 = ap (λ z. z ++ rest s.parent) none_in ∙ next in
      let state =
        subst (λ z. Whole rest Complete Open z s.coder s.sincelastend (ahead rest s)) e
          good.whole in
      round-Out whole fuel ih s1 room got
        (record {
          parent = v;
          whole =
              subst (λ z. Whole rest Complete Open z s.coder s1.sincelastend (ahead rest s1))
                (sym e)
                (
                  subst (Complete s.coder) same state.0,
                  (λ _ h. absurd (omega (arith, ap length h, length-append bytes (rest p)))),
                );
        })
        e (omega arith) space (is ∙ ap (λ z. got ++ text rest plain s.err s.coder z) same) total
        (omega (arith, ap length same))

  running : (e : Err) (room : ℕ) → (is_ok e && ltb 0 room) ≡ true → (e ≡ err_ok) × (0 < room)
  running err_ok room test = (refl, ltb→lt 0 room test)
  running err_eof room test = absurd (false≢true test)
  running err_error room test = absurd (false≢true test)

  read_loop-Out :
      (whole : Bytes) (fuel : ℕ) (s : Stream D S) (room : ℕ) (got : Bytes)
      → Ready s
      → s.err ≢ err_error
      → whole ≡ got ++ left rest plain s
      → length got + room ≡ len
      → Fueled fuel s room
      → Out whole (read_loop decode read at_end switch fuel len s room got)
  unfolding read_loop
  read_loop-Out whole zero s room got good no_error is total enough = absurd (omega arith)
  read_loop-Out whole (suc fuel) s room got good no_error is total enough =
      let ih = read_loop-Out whole fuel in
      test-Out whole (is_ok s.err && ltb 0 room) (ret (pos (len - room)) got s)
        (elim s.input [
          | [] ↦
              refilled decode read at_end switch (read_loop decode read at_end switch fuel len) s
                len room got (read s.parent 0 buff_size)
          | _ ∷ _ ↦
              round decode read at_end switch (read_loop decode read at_end switch fuel len) s room
                got
        ])
        (stopped whole s room got s.err good refl no_error is total)
        (λ test.
          let (e, space) = running s.err room test in
          input-Out whole s.input
            (refilled decode read at_end switch (read_loop decode read at_end switch fuel len) s len
              room got (read s.parent 0 buff_size))
            (round decode read at_end switch (read_loop decode read at_end switch fuel len) s room
              got)
            (λ none_in.
              refilled-Out whole fuel ih s room got (read s.parent 0 buff_size) good e none_in space
                is total enough (reads.serves s.parent 0 buff_size good.parent) refl)
            (λ more. round-Out whole fuel ih s room got good e more space is total enough))

  from_loop :
      (s : Stream D S) (r : Reply (Stream D S))
      → Out (left rest plain s) r
      → Served Ready (left rest plain) s len r × Blamed Valid read err_ok r
  from_loop s stuck h = absurd h
  from_loop s (ret (pos k) bytes s') (count, fits, next, at_end, good, fine) =
      ((count, fits, next, at_end, good), fine)
  from_loop s (ret (negsuc e) bytes s') (few, same, good, is, broken, failed) =
      ((few, same, good), (is, broken, inr failed))

  by_err :
      (s : Stream D S) (e : Err) (fuel room : ℕ)
      → room ≡ len
      → Ready s
      → s.err ≡ e
      → Fueled fuel s len
      → let r : Reply (Stream D S) = elim e [
        | err_eof ↦ ret (pos 0) [] s
        | err_error ↦ ret minus_one [] s
        | err_ok ↦ read_loop decode read at_end switch fuel len s room []
      ] in
        Served Ready (left rest plain) s len r × Blamed Valid read e r
  by_err s err_eof fuel room full good e enough = (
    (refl, omega arith, refl, (λ _ _. ap (λ z. text rest plain z s.coder (ahead rest s)) e), good),
    inl (λ f. eof_not_error (sym e ∙ f)),
  )
  by_err s err_error fuel room full good e enough = ((omega arith, refl, good), (refl, e, inl refl))
  by_err s err_ok fuel room full good e enough =
      from_loop s (read_loop decode read at_end switch fuel len s room []) (
        read_loop-Out (left rest plain s) fuel s room [] good (λ f. ok_not_error (sym e ∙ f)) refl
          (omega arith) (omega arith))

  pub decompress-Served :
      (s : Stream D S) (fuel : ℕ)
      → Ready s
      → Fueled fuel s len
      → let r = decompress decode read at_end switch fuel s len len in
        Served Ready (left rest plain) s len r × Blamed Valid read s.err r
  unfolding decompress
  decompress-Served s fuel good enough = by_err s s.err fuel len refl good refl enough
