-- ===== src/Peek/Faults.antt =====
-- What the peeking reader does where memory is refused or a buffered read has failed.
use wandio.Base.{
  ℕ, suc, ◌+◌, ◌-◌, ◌%◌, ◌<◌, ◌≡◌, ◌≢◌, ◌∙◌, subst, [], ◌∷◌, length, ==_ne, lt→ltb, pos, negsuc,
  minus_one, Bytes, arith,
}
use wandio.Reader.{Reply, ret, stuck}
use wandio.Reader.Contract.{Peeked}
use wandio.Peek.{
  Pointer, null, Allocation, memory, refused, Peek, opened, look_size, extend, peek_peek,
  refill_size, refill_buffer, refill_sized, filled, peek_read, from_buffer, rest_of_read, indirect,
  short, min_read_size,
}
use wandio.Peek.Inv.{IsValid, unread}
use wandio.Peek.Refill.{refill_size_bounds}

same_len : (n : ℕ) → n - 0 ≡ n
same_len n = omega arith

-- A peek on `p`, where the child, asked once more, replies so: only an error that comes with no
-- bytes is returned, and leaves the reader as it was.
abbrev pub AfterError : {S : Type 0} → Peek S → Reply S → Reply (Peek S) → Type 0
AfterError p (ret (negsuc e) [] c) r = r ≡ ret (negsuc e) [] (record p { child = c })
AfterError p (ret (negsuc e) (x ∷ bytes) c) r = r ≡ stuck
AfterError p (ret (pos k) bytes c) r = r ≡ stuck
AfterError p stuck r = r ≡ stuck

module _ {S : Type 0} (read : S → ℕ → ℕ → Reply S) (alloc : ℕ → Allocation) where
  peek_refused :
      (c : S) (x : Pointer) (l o addr len e : ℕ)
      → l - o < len
      → alloc (l + look_size l o len) ≡ refused e
      → let p : Peek S = record { child = c; buffer = x; length = pos l; offset = o } in
        peek_peek read alloc p addr len ≡ ret (pos e) [] (record p { buffer = null })
  unfolding peek_peek extend
  peek_refused c x l o addr len e few no_room = rw (lt→ltb (l - o) len few, extend, no_room)

  -- A peek that needs more memory and is refused it does not keep the contract of a peek: it
  -- returns the positive error code as if it were a count of bytes, stores none, and drops the
  -- buffer.
  peek_peek-refused :
      (Valid : S → Type 0) (rest : S → Bytes) (c : S) (x : Pointer) (l o addr len e : ℕ)
      → l - o < len
      → alloc (l + look_size l o len) ≡ refused (suc e)
      → let p : Peek S = record { child = c; buffer = x; length = pos l; offset = o } in
        (peek_peek read alloc p addr len ≡ ret (pos (suc e)) [] (record p { buffer = null }))
        × ¬ Peeked
            (IsValid Valid)
            (unread rest)
            (unread rest p)
            len
            (peek_peek read alloc p addr len)
  peek_peek-refused Valid rest c x l o addr len e few no_room =
      let is = peek_refused c x l o addr len (suc e) few no_room in
      let p : Peek S = record { child = c; buffer = x; length = pos l; offset = o } in
      (
        is,
        λ h. absurd (
            omega
              (arith, (subst (Peeked (IsValid Valid) (unread rest) (unread rest p) len) is h).0)),
      )

  -- the first read of a fresh reader, where it goes through the buffer
  first_read :
      (c : S) (addr len : ℕ)
      → 0 < len
      → len % min_read_size ≢ 0
      → peek_read read alloc (opened c) addr len
        ≡ indirect read alloc [] len (refill_buffer read alloc (opened c) len)
  unfolding peek_read from_buffer rest_of_read
  first_read c addr len some_len unaligned =
      rw (same_len len, lt→ltb 0 len some_len, ==_ne (len % min_read_size) 0 unaligned)

  first_refill :
      (c : S) (len : ℕ) {a : Allocation}
      → alloc (refill_size 0 len) ≡ a
      → refill_buffer read alloc (opened c) len ≡ elim a [
        | refused e ↦
            ret minus_one []
              (record { child = c; buffer = null; length = pos (refill_size 0 len); offset = 0 })
        | memory b ↦ filled read alloc (opened c) b (read c 0 (refill_size 0 len))
      ]
  unfolding refill_buffer refill_sized
  first_refill c len e = rw (lt→ltb 0 (refill_size 0 len) (refill_size_bounds 0 len).0, e)

  -- Where `refill_buffer` is refused memory on a fresh reader, the read reports an error, and every
  -- later read that asks for a byte fails an assertion.
  pub refill-refused :
      (c : S) (addr len e : ℕ)
      → 0 < len
      → len % min_read_size ≢ 0
      → alloc (refill_size 0 len) ≡ refused e
      → (p : Peek S) × (peek_read read alloc (opened c) addr len ≡ ret minus_one [] p)
        × ((addr' len' : ℕ) → 0 < len' → peek_read read alloc p addr' len' ≡ stuck)
  unfolding indirect short peek_read from_buffer rest_of_read
  refill-refused c addr len e some_len unaligned no_room = (
    record { child = c; buffer = null; length = pos (refill_size 0 len); offset = 0 },
    first_read c addr len some_len unaligned ∙ rw (first_refill c len no_room),
    λ addr' len' h. rw (
      same_len len',
      lt→ltb 0 len' h,
      ==_ne (refill_size 0 len) 0 (omega (arith, refill_size_bounds 0 len)),
    ),
  )
