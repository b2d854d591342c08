-- ===== src/Peek/Seek.antt =====
-- `peek_tell` and `peek_seek`, which are passed on to the child, whatever is in the buffer.
use wandio.Base.{
  ℕ, ◌+◌, ◌-◌, ◌≤◌, ◌<◌, ◌≡◌, ◌∙◌, sym, subst, ap, length, length-take, length-drop, drop, slice,
  min, ==_ne, le→ltb, lt→not_leb, some, ℤ, pos, Bytes, arith,
}
use wandio.Reader.{Reply, ret, Source, Errno, wandio_tell, wandio_seek}
use wandio.Peek.{block, Allocation, Peek, from_buffer, rest_of_read, tidy, peek_read}
use wandio.Peek.Refill.{load_inside}

module _ {S : Type 0} (io : Source S) where
  unfoldable pub peek_tell : Peek S → ℤ × Peek S × Errno
  peek_tell p = let (v, c, e) = wandio_tell io p.child in (v, record p { child = c }, e)

  unfoldable pub peek_seek : Peek S → ℤ → ℕ → ℤ × Peek S × Errno
  peek_seek p offset whence =
      let (v, c, e) = wandio_seek io p.child offset whence in (v, record p { child = c }, e)

module _ {S : Type 0} (read : S → ℕ → ℕ → Reply S) (alloc : ℕ → Allocation) where
  -- a read of fewer bytes than are left in the buffer
  buffered_read :
      (c : S) (b : Bytes) (l o addr len : ℕ)
      → l ≤ length b
      → o + len < l
      → peek_read read alloc
          (record { child = c; buffer = block b; length = pos l; offset = o })
          addr
          len
        ≡ ret
            (pos len)
            (slice b o len)
            (record { child = c; buffer = block b; length = pos l; offset = o + len })
  unfolding peek_read from_buffer rest_of_read tidy
  buffered_read c b l o addr len inside less =
      let m : min len (l - o) ≡ len = omega arith in
      let size : length (slice b o len) ≡ len =
        omega (arith, length-take len (drop o b), length-drop o b) in
      let nothing : len - len ≡ 0 = omega arith in
      let p : Peek S = record { child = c; buffer = block b; length = pos l; offset = o } in
      let got : from_buffer read alloc p l len ≡ some (slice b o len) = rw (
        ==_ne l 0 (λ e. omega arith),
        le→ltb l o (omega arith),
        m,
        load_inside b o len (omega arith),
      ) in
      let rest : rest_of_read read alloc (slice b o len) (record p { offset = o + len }) l
            (addr + len) 0
          ≡ ret (pos (length (slice b o len))) (slice b o len) (record p { offset = o + len }) =
        rw (lt→not_leb l (o + len) less) in
      rw (got, peek_read)
        (subst
          (λ n.
            rest_of_read read alloc (slice b o len) (record p { offset = o + n }) l (addr + n)
              (len - n)
            ≡ ret (pos len) (slice b o len) (record p { offset = o + len }))
          (sym size)
          (ap
              (λ n.
                rest_of_read read alloc (slice b o len) (record p { offset = o + len }) l
                  (addr + len) n)
              nothing
            ∙ rest
            ∙ ap (λ n. ret (pos n) (slice b o len) (record p { offset = o + len })) size))

module _ {S : Type 0} (io : Source S) (alloc : ℕ → Allocation) where
  -- Where a peeking reader has bytes in its buffer, a seek leaves them there: whatever the child does,
  -- a read behind the seek of fewer bytes than are left in the buffer returns these, from the place
  -- before the seek.
  pub peek_seek_stale :
      (c : S) (b : Bytes) (l o addr len : ℕ) (offset : ℤ) (whence : ℕ)
      → l ≤ length b
      → o + len < l
      → let p : Peek S = record { child = c; buffer = block b; length = pos l; offset = o } in
        let p' = (peek_seek io p offset whence).1 in
        peek_read io.read alloc p' addr len
        ≡ ret (pos len) (slice b o len) (record p' { offset = o + len })
  unfolding peek_seek
  peek_seek_stale c b l o addr len offset whence inside less =
      buffered_read io.read alloc (wandio_seek io c offset whence).1 b l o addr len inside less
