-- ===== src/Peek/Look.antt =====
-- `peek_peek` against the contract of a peek.
use wandio.Base.{
  ℕ, ◌+◌, ◌-◌, ◌*◌, ◌%◌, ◌≤◌, ◌<◌, ◌≡◌, ◌∙◌, sym, subst, ap, refl, inl, inr, [], ◌++◌,
  append-eq-nil, append_assoc, min, some, length, take, drop, blit, slice, length-take, length-drop,
  take-append, take-blit, take-blit_front, length-blit, drop-take, drop-append_le,
  take-append-take-drop, ltb, ==_iff, ltb→lt, le→ltb, Bool-cases, pos, negsuc, Bytes, arith, tests,
}
use wandio.Reader.{Reply, ret, stuck}
use wandio.Reader.Contract.{Served, IsReader, Peeked}
use wandio.Peek.{
  Pointer, null, freed, block, Allocation, memory, Peek, look_size, load, realigned, look, extended,
  extend, peek_peek,
}
use wandio.Peek.Inv.{Shape, pending, IsValid, unread}
use wandio.Peek.Refill.{load_inside, store_inside}

-- A peek asks the child for what is missing and more, so that the buffer is a positive multiple of
-- 1 MB long when the read is complete.
pub look_size_bounds :
    (l offset len : ℕ)
    → l - offset < len
    → (len - (l - offset) < look_size l offset len)
      × ((l + look_size l offset len) % (1024 * 1024) ≡ 0)
unfolding look_size
look_size_bounds l offset len h = omega arith

offset_le : (x : Pointer) (l o : ℕ) → Shape x (pos l) o → o ≤ l
offset_le null l o sh = omega arith
offset_le freed l o sh = elim sh [ ]
offset_le (block b) l o sh = sh.0

-- the block that `alignedrealloc` returns holds the old block's first `l` bytes
record Regrown (old : Pointer) (l offset n : ℕ) (new : Bytes) : Type 0 where
  b : Bytes
  is : realigned old l new ≡ some b
  size : length b ≡ l + n
  same : pending (block b) (pos l) offset ≡ pending old (pos l) offset

realigned-Regrown :
    (old : Pointer) (l offset n : ℕ) (new : Bytes)
    → Shape old (pos l) offset
    → length new ≡ l + n
    → Regrown old l offset n new
unfolding realigned
realigned-Regrown null l offset n new sh size = record {
  b = new;
  is = rw ((==_iff l 0).1 sh.0);
  size = size;
  same = let e : l - offset ≡ 0 = omega arith in rw e;
}
realigned-Regrown freed l offset n new sh size = elim sh [ ]
realigned-Regrown (block ob) l offset n new sh size =
    let kept = take l ob in
    let few : length kept ≡ l = omega (arith, length-take l ob) in
    record {
      b = blit new 0 kept;
      is = rw (load_inside ob 0 l (omega arith), store_inside new 0 kept (omega arith), realigned);
      size = length-blit new 0 kept (omega arith) ∙ size;
      same =
          sym (drop-take offset l (blit new 0 kept))
          ∙ ap (drop offset) (
              subst (λ n. take n (blit new 0 kept) ≡ kept) few
                (take-append kept (drop (0 + length kept) new)))
          ∙ drop-take offset l ob;
    }

module _ {S : Type 0} (Valid : S → Type 0) (rest : S → Bytes) (read : S → ℕ → ℕ → Reply S)
    (alloc : ℕ → Allocation) (reads : IsReader Valid rest read)
    (enough : (n : ℕ) → (b : Bytes) × (alloc n ≡ memory b) × (length b ≡ n)) where
  abbrev Looked : Bytes → ℕ → Reply (Peek S) → Type 0
  Looked = Peeked (IsValid Valid) (unread rest)

  look-Looked :
      (c : S) (x : Pointer) (l o len : ℕ)
      → Shape x (pos l) o
      → Valid c
      → (l ≤ o → 0 < len → rest c ≡ [])
      → let p : Peek S = record { child = c; buffer = x; length = pos l; offset = o } in
        Looked (unread rest p) len (look p l len)
  unfolding look load
  look-Looked c null l o len sh v over =
      let none_here : min len (l - o) ≡ 0 = omega arith in
      rw (le→ltb l o (omega arith), (==_iff (min len (l - o)) 0).1 none_here, Looked, Peeked)
        (
          refl,
          omega arith,
          refl,
          (rest c, refl),
          (λ _ w. over (omega arith) w),
          record { child = v; shape = sh },
        )
  look-Looked c freed l o len sh v over = elim sh [ ]
  look-Looked c (block b) l o len sh v over =
      let n = min len (l - o) in
      let count : length (slice b o n) ≡ n =
        omega (arith, length-take n (drop o b), length-drop o b) in
      rw (le→ltb l o sh.0, load_inside b o n (omega arith), Looked, Peeked)
        (
          sym count,
          omega arith,
          refl,
          (
            take (l - o - n) (drop n (drop o b)) ++ rest c,
            (rw (← take-append-take-drop n (l - o) (drop o b) (omega arith))
                (append_assoc (take n (drop o b)) (take (l - o - n) (drop n (drop o b))) (rest c))),
          ),
          (λ z w. let e : l - o ≡ 0 = omega arith in rw e (over (omega arith) w)),
          record { child = v; shape = sh },
        )

  -- the bytes that the child stored behind the first `l` come next
  pending_extended :
      (b bytes : Bytes) (l o : ℕ)
      → l + length bytes ≤ length b
      → o ≤ l
      → pending (block (blit b l bytes)) (pos (l + length bytes)) o
        ≡ pending (block b) (pos l) o ++ bytes
  pending_extended b bytes l o fits le =
      sym (drop-take o (l + length bytes) (blit b l bytes))
      ∙ ap (drop o) (take-blit b l bytes (omega arith))
      ∙ drop-append_le o (take l b) bytes (omega (arith, length-take l b))
      ∙ ap (λ front. front ++ bytes) (drop-take o l b)

  extended-Looked :
      (x : Pointer) (b : Bytes) (l o n len : ℕ) (s : S) (reply : Reply S)
      → length b ≡ l + n
      → o ≤ l
      → 0 < n
      → pending (block b) (pos l) o ≡ pending x (pos l) o
      → Served Valid rest s n reply
      → let p : Peek S = record { child = s; buffer = x; length = pos l; offset = o } in
        Looked (unread rest p) len (extended read alloc p b l len reply)
  unfolding extended
  extended-Looked x b l o n len s stuck size le more same h = h
  extended-Looked x b l o n len s (ret (negsuc e) bytes c) size le more same (few, left, v) =
      let kept =
        sym (drop-take o l (blit b l bytes))
        ∙ ap (drop o) (take-blit_front b l bytes (omega arith))
        ∙ drop-take o l b in
      rw (store_inside b l bytes (omega arith), Looked, Peeked)
        (
          omega arith,
          rw (kept, same, left),
          record { child = v; shape = (le, omega (arith, length-blit b l bytes (omega arith))) },
        )
  extended-Looked x b l o n len s (ret (pos k) bytes c) size le more same
        (count, fits, next, at_end, v) =
      let all = pending_extended b bytes l o (omega arith) le in
      let whole : pending (block (blit b l bytes)) (pos (l + length bytes)) o ++ rest c
          ≡ pending x (pos l) o ++ rest s =
        rw (all, same, next) (append_assoc (pending x (pos l) o) bytes (rest c)) in
      rw (store_inside b l bytes (omega arith), extended, count)
        (subst
          (λ i. Looked i len (
            look
              (record {
                child = c;
                buffer = block (blit b l bytes);
                length = pos (l + length bytes);
                offset = o;
              })
              (l + length bytes) len))
          whole
          (look-Looked c (block (blit b l bytes)) (l + length bytes) o len
            (omega arith, omega (arith, length-blit b l bytes (omega arith))) v
            (λ h _.
              append-eq-nil bytes (rest c) (omega arith) (sym next ∙ at_end (omega arith) more))))

  extend-Looked :
      (c : S) (x : Pointer) (l o len : ℕ)
      → Shape x (pos l) o
      → Valid c
      → l - o < len
      → let p : Peek S = record { child = c; buffer = x; length = pos l; offset = o } in
        Looked (unread rest p) len (extend read alloc p l len)
  unfolding extend
  extend-Looked c x l o len sh v short =
      let n = look_size l o len in
      let (new, granted, size) = enough (l + n) in
      let r = realigned-Regrown x l o n new sh size in
      rw (granted, r.is, extend, Looked)
        (extended-Looked x r.b l o n len c (read c l n) r.size (offset_le x l o sh)
          (omega (arith, look_size_bounds l o len short)) r.same (reads.serves c l n v))

  peek_parts :
      (c : S) (x : Pointer) (l o addr len : ℕ)
      → Shape x (pos l) o
      → Valid c
      → let p : Peek S = record { child = c; buffer = x; length = pos l; offset = o } in
        Looked (unread rest p) len (peek_peek read alloc p addr len)
  unfolding peek_peek
  peek_parts c x l o addr len sh v = elim (Bool-cases (ltb (l - o) len)) [
    | inl short ↦ rw (short) (extend-Looked c x l o len sh v (ltb→lt (l - o) len short))
    | inr full ↦ rw (full) (look-Looked c x l o len sh v (λ a b. absurd (omega tests)))
  ]

  -- While no error has been met, a peek over a child that keeps the reader contract returns the next
  -- bytes of the input, at most as many as asked for, leaves all of them unread, returns none
  -- only at the end of the input or when asked for none, and keeps the reader valid; where the
  -- child fails, nothing is lost.
  pub peek_peek-Peeked :
      (p : Peek S) (l addr len : ℕ)
      → p.length ≡ pos l
      → IsValid Valid p
      → Peeked (IsValid Valid) (unread rest) (unread rest p) len (peek_peek read alloc p addr len)
  peek_peek-Peeked p l addr len e good =
      subst
        (λ z.
          let q : Peek S = record p { length = z } in
          Peeked (IsValid Valid) (unread rest) (unread rest q) len
            (peek_peek read alloc q addr len))
        (sym e)
        (peek_parts p.child p.buffer l p.offset addr len
          (subst (λ z. Shape p.buffer z p.offset) e good.shape) good.child)
