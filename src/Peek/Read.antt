-- ===== src/Peek/Read.antt =====
-- `peek_read` against the reader contract.
use wandio.Base.{
  ℕ, zero, suc, ◌+◌, ◌-◌, ◌%◌, ◌≤◌, ◌<◌, ◌≡◌, ◌∙◌, sym, ap, refl, inl, inr, [], ◌∷◌, ◌++◌, ◌&&◌,
  append-eq-nil, append_assoc, min, some, length, take, drop, slice, length-append, length-take,
  length-drop, take-append-take-drop, ltb, leb, ◌==◌, ==_iff, le→ltb, ltb→lt, drop-drop, tests,
  leb→le, Bool-cases, ℤ, pos, negsuc, Bytes, arith,
}
use wandio.Reader.{Reply, ret, stuck}
use wandio.Reader.Contract.{Served, IsReader}
use wandio.Peek.{
  Pointer, null, freed, block, Allocation, memory, Peek, refill_buffer, tidy, short, direct,
  indirect, rest_of_read, from_buffer, peek_read, min_read_size,
}
use wandio.Peek.Inv.{Shape, pending, IsValid, unread}
use wandio.Peek.Refill.{load_inside, refill-Refilled, Refilled, fresh}

splits_at :
    (b : Bytes) (l o m : ℕ) (got : Bytes)
    → length got ≡ m
    → m ≤ l - o
    → take (l - o) (drop o b)
      ≡ take m (drop o b) ++ take (l - (o + length got)) (drop (o + length got) b)
splits_at b l o m got e h =
    let f : l - (o + m) ≡ l - o - m = omega arith in
    rw (e, f, ← drop-drop o m b) (sym (take-append-take-drop m (l - o) (drop o b) h))

take_zero : (n : ℕ) (b : Bytes) → n ≡ 0 → take n b ≡ []
take_zero n b e = rw e

sub_eq_zero : (l o : ℕ) → l ≤ o → l - o ≡ 0
sub_eq_zero l o h = omega arith

module _ {S : Type 0} (Valid : S → Type 0) (rest : S → Bytes) (read : S → ℕ → ℕ → Reply S)
    (alloc : ℕ → Allocation) (reads : IsReader Valid rest read)
    (enough : (n : ℕ) → (b : Bytes) × (alloc n ≡ memory b) × (length b ≡ n)) where
  abbrev Good : Peek S → Type 0
  Good = IsValid Valid

  abbrev input : Peek S → Bytes
  input = unread rest

  abbrev ServedPeek : Peek S → ℕ → Reply (Peek S) → Type 0
  ServedPeek = Served Good input

  -- dropping an exhausted buffer changes nothing that is unread
  record Tidied (p q : Peek S) : Type 0 where
    good : Good q
    same : input q ≡ input p

  tidy-Tidied :
      (c : S) (x : Pointer) (l : ℤ) (o : ℕ)
      → Valid c
      → Shape x l o
      → let p : Peek S = record { child = c; buffer = x; length = l; offset = o } in
        Tidied p (tidy read alloc p)
  unfolding tidy
  tidy-Tidied c null (pos l) o v sh = record {
    good = record { child = v; shape = sh };
    same = refl;
  }
  tidy-Tidied c null (negsuc e) o v sh = elim sh [ ]
  tidy-Tidied c freed l o v sh = elim sh [ ]
  tidy-Tidied c (block b) (negsuc e) o v sh = record {
    good = record { child = v; shape = (refl, refl) };
    same = refl;
  }
  tidy-Tidied c (block b) (pos l) o v sh = elim (Bool-cases (leb l o)) [
    | inl done ↦ rw done (record {
      good = record { child = v; shape = (refl, refl) };
      same = rw (sub_eq_zero l o (leb→le l o done));
    })
    | inr more ↦ rw more (record { good = record { child = v; shape = sh }; same = refl })
  ]

  short-Served :
      (p q : Peek S) (n : ℕ) (got : Bytes)
      → length got ≤ n
      → input p ≡ got ++ input q
      → input q ≡ []
      → Good q
      → ServedPeek p n (short read alloc got (pos 0) q)
  unfolding short
  short-Served p q n [] h e z g = (refl, omega arith, e, (λ _ _. e ∙ z), g)
  short-Served p q n (x ∷ got) h e z g = (refl, h, e, (λ k. absurd (omega arith)), g)

  short_error :
      (p q : Peek S) (n : ℕ) (got : Bytes) (e : ℕ)
      → length got ≤ n
      → input p ≡ got ++ input q
      → Good q
      → ServedPeek p n (short read alloc got (negsuc e) q)
  unfolding short
  short_error p q n [] e h s g = (omega arith, sym s, g)
  short_error p q n (x ∷ got) e h s g = (refl, h, s, (λ k. absurd (omega arith)), g)

  direct-Served :
      (p q : Peek S) (n len : ℕ) (got : Bytes) (reply : Reply S)
      → length got + len ≤ n
      → 0 < len
      → input p ≡ got ++ rest q.child
      → pending q.buffer q.length q.offset ≡ []
      → Good q
      → Served Valid rest q.child len reply
      → ServedPeek p n (direct read alloc got q reply)
  unfolding direct
  direct-Served p q n len got stuck room pos_len splits gone g h = h
  direct-Served p q n len got (ret (negsuc e) bytes c) room pos_len splits gone g (few, same, v) =
      short_error p (record q { child = c }) n got e (omega arith) (rw (gone, same) splits)
        (record { child = v; shape = g.shape })
  direct-Served p q n len got (ret (pos zero) bytes c) room pos_len splits gone g
        (count, fits, next, at_end, v) =
      let over : rest c ≡ [] =
        append-eq-nil bytes (rest c) count (sym next ∙ at_end refl pos_len) in
      short-Served p (record q { child = c }) n got (omega arith)
        (splits ∙ rw (at_end refl pos_len, gone, over)) (rw (gone, over))
        (record { child = v; shape = g.shape })
  direct-Served p q n len got (ret (pos (suc k)) bytes c) room pos_len splits gone g
        (count, fits, next, at_end, v) =
      let t = tidy-Tidied c q.buffer q.length q.offset v g.shape in
      (
        omega (arith, length-append got bytes),
        omega arith,
        splits ∙ rw (next, t.same, gone, append_assoc got bytes (rest c)),
        (λ z. absurd (omega arith)),
        t.good,
      )

  indirect_some :
      (p : Peek S) (n len k : ℕ) (got before b bs : Bytes) (c : S)
      → length got + len ≤ n
      → 0 < len
      → input p ≡ got ++ before
      → suc k ≤ length b
      → before ≡ take (suc k) b ++ rest c
      → Valid c
      → ServedPeek p n (
          indirect read alloc got len
            (ret (pos (suc k)) bs (fresh Valid rest read alloc reads enough c b (pos (suc k)))))
  unfolding indirect
  indirect_some p n len k got before b bs c room pos_len splits fits next v =
      let m = min len (suc k) in
      let t = tidy-Tidied c (block b) (pos (suc k)) m v (omega arith, fits) in
      rw (load_inside b 0 m (omega arith), indirect, Served)
        (
          omega (arith, length-append got (take m b), length-take m b),
          omega arith,
          splits
              ∙ rw (t.same, next, ← take-append-take-drop m (suc k) b (omega arith))
                  (simp append_assoc),
          (λ z. absurd (omega arith)),
          t.good,
        )

  indirect-Served :
      (p : Peek S) (n len : ℕ) (got before : Bytes) (reply : Reply (Peek S))
      → length got + len ≤ n
      → 0 < len
      → input p ≡ got ++ before
      → Refilled Valid rest read alloc reads enough before reply
      → ServedPeek p n (indirect read alloc got len reply)
  unfolding indirect
  indirect-Served p n len got before stuck room pos_len splits h = h
  indirect-Served p n len got before (ret (negsuc e) _ q) room pos_len splits (c, b, eq, same, v) =
      rw eq
        (short_error p _ n got e (omega arith) (rw same splits) (record { child = v; shape = tt }))
  indirect-Served p n len got before (ret (pos zero) _ q) room pos_len splits
        (c, b, eq, at_end, fits, next, v) =
      rw eq (
        short-Served p _ n got (omega arith) (rw (← next) splits) (sym next ∙ at_end refl)
          (record { child = v; shape = (omega arith, omega arith) }))
  indirect-Served p n len got before (ret (pos (suc k)) bs q) room pos_len splits
        (c, b, eq, at_end, fits, next, v) =
      rw eq (indirect_some p n len k got before b bs c room pos_len splits fits next v)

  -- the copy out of the buffer into the caller's
  record Copied (c : S) (x : Pointer) (l o len : ℕ) : Type 0 where
    got : Bytes
    is :
        from_buffer read alloc (record { child = c; buffer = x; length = pos l; offset = o }) l len
        ≡ some got
    fits : length got ≤ len
    shape : Shape x (pos l) (o + length got)
    splits : pending x (pos l) o ≡ got ++ pending x (pos l) (o + length got)
    exhausted : 0 < len - length got → l ≡ o + length got

  copied : (c : S) (x : Pointer) (l o len : ℕ) → Shape x (pos l) o → Copied c x l o len
  unfolding from_buffer
  copied c null l o len sh = record {
    got = [];
    is = refl;
    fits = omega arith;
    shape = (sh.0, omega arith);
    splits = refl;
    exhausted = λ h. omega arith;
  }
  copied c freed l o len sh = elim sh [ ]
  copied c (block b) l o len sh = elim (Bool-cases (l == 0)) [
    | inl nothing ↦
        let z : l ≡ 0 = (==_iff l 0).0 nothing in
        record {
          got = [];
          is = rw nothing;
          fits = omega arith;
          shape = (omega arith, sh.1);
          splits = ap (pending (block b) (pos l)) (omega arith);
          exhausted = λ h. omega arith;
        }
    | inr some_bytes ↦
        let m = min len (l - o) in
        let count : length (slice b o m) ≡ m =
          omega (arith, length-take m (drop o b), length-drop o b) in
        record {
          got = slice b o m;
          is = rw (some_bytes, le→ltb l o sh.0, load_inside b o m (omega arith));
          fits = omega arith;
          shape = (omega arith, sh.1);
          splits = splits_at b l o m (slice b o m) count (omega arith);
          exhausted = λ h. omega arith;
        }
  ]

  pending_exhausted : (x : Pointer) (l o : ℕ) → Shape x (pos l) o → l ≡ o → pending x (pos l) o ≡ []
  pending_exhausted null l o sh e = refl
  pending_exhausted freed l o sh e = refl
  pending_exhausted (block b) l o sh e = take_zero (l - o) (drop o b) (omega arith)

  rest-Served :
      (p : Peek S) (c : S) (x : Pointer) (l o n addr len : ℕ) (got : Bytes)
      → length got + len ≡ n
      → input p ≡ got ++ (pending x (pos l) o ++ rest c)
      → Shape x (pos l) o
      → Valid c
      → (0 < len → l ≡ o)
      → ServedPeek p n (
          rest_of_read read alloc got
            (record { child = c; buffer = x; length = pos l; offset = o })
            l
            addr
            len)
  unfolding rest_of_read
  rest-Served p c x l o n addr len got total splits sh v exhausted = elim (Bool-cases (ltb 0 len)) [
    | inl wanted ↦
        let q : Peek S = record { child = c; buffer = x; length = pos l; offset = o } in
        let e : l ≡ o = exhausted (ltb→lt 0 len wanted) in
        let gone = pending_exhausted x l o sh e in
        rw (wanted, (==_iff l o).1 e)
          (elim (Bool-cases (len % min_read_size == 0 && addr % min_read_size == 0)) [
            | inl straight ↦ rw straight (
                direct-Served p q n len got (read c addr len) (omega arith) (ltb→lt 0 len wanted)
                  (rw gone at splits) gone (record { child = v; shape = sh })
                  (reads.serves c addr len v))
            | inr buffered ↦ rw buffered (
                indirect-Served p n len got (rest c) (refill_buffer read alloc q len) (omega arith)
                  (ltb→lt 0 len wanted) (rw gone at splits)
                  (refill-Refilled Valid rest read alloc reads enough q l len v refl e))
          ])
    | inr enough_read ↦ rw enough_read (
        let t = tidy-Tidied c x (pos l) o v sh in
        (refl, omega arith, rw t.same splits, (λ z w. absurd (omega tests)), t.good))
  ]

  read_parts :
      (c : S) (x : Pointer) (l : ℤ) (o addr len : ℕ)
      → Valid c
      → Shape x l o
      → let p : Peek S = record { child = c; buffer = x; length = l; offset = o } in
        ServedPeek p len (peek_read read alloc p addr len)
  unfolding peek_read
  read_parts c x (negsuc e) o addr len v sh = (omega arith, refl, record { child = v; shape = sh })
  read_parts c x (pos l) o addr len v sh =
      let k = copied c x l o len sh in
      rw (k.is, peek_read, Served)
        (rest-Served (record { child = c; buffer = x; length = pos l; offset = o }) c x l
          (o + length k.got) len (addr + length k.got) (len - length k.got) k.got
          (omega (arith, k.fits)) (rw (k.splits, append_assoc)) k.shape v k.exhausted)

  -- Over a child that keeps the reader contract, and with memory granted, `peek_read` keeps the
  -- contract too, whatever the sizes and alignments of the calls: no assertion fails and no access
  -- leaves a block, each call returns the next bytes of the same input, the end is reported only at
  -- the end, and an error loses nothing.
  pub peek_read-IsReader : IsReader (IsValid Valid) (unread rest) (peek_read read alloc)
  peek_read-IsReader = record {
    serves = λ p addr len g. read_parts p.child p.buffer p.length p.offset addr len g.child g.shape;
  }
