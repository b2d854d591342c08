-- ===== src/Peek/Refill.antt =====
-- `refill_buffer`: the size it asks for, and the buffer that it leaves.
use wandio.Base.{
  ℕ, ◌+◌, ◌*◌, ◌%◌, ◌≤◌, ◌<◌, ◌≡◌, max, refl, [], ◌++◌, some, length, take, drop, blit, slice,
  length-append, length-drop, take-append, ==_iff, lt→ltb, ℤ, pos, negsuc, Bytes, arith,
}
use wandio.Reader.{Reply, ret, stuck}
use wandio.Reader.Contract.{Served, IsReader}
use wandio.Peek.{
  block, Allocation, memory, Peek, refill_size, store, load, filled, refill_sized, refill_buffer,
}

-- The size asked of the child is the least multiple of 4096 that is greater than the buffer's
-- length, the request and 1 MB: it is such a multiple, and exceeds
-- the largest of the three by at most 4096.
pub refill_size_bounds :
    (l len : ℕ)
    → (l < refill_size l len)
      × (len < refill_size l len)
      × (refill_size l len % 4096 ≡ 0)
      × (1024 * 1024 < refill_size l len)
      × (refill_size l len ≤ max l (max (1024 * 1024) len) + 4096)
unfolding refill_size
refill_size_bounds l len = omega arith

pub store_inside :
    (b : Bytes) (at : ℕ) (bytes : Bytes)
    → at + length bytes ≤ length b
    → store b at bytes ≡ some (blit b at bytes)
unfolding store
store_inside b at bytes h = ground arith

pub load_inside :
    (b : Bytes) (at n : ℕ) → at + n ≤ length b → load (block b) at n ≡ some (slice b at n)
unfolding load
load_inside b at n h = ground arith

pub length-blit_start :
    (b bytes : Bytes) → length bytes ≤ length b → length (blit b 0 bytes) ≡ length b
length-blit_start b bytes h =
    omega (arith, length-append bytes (drop (0 + length bytes) b), length-drop (0 + length bytes) b)

module _ {S : Type 0} (Valid : S → Type 0) (rest : S → Bytes) (read : S → ℕ → ℕ → Reply S)
    (alloc : ℕ → Allocation) (reads : IsReader Valid rest read)
    (enough : (n : ℕ) → (b : Bytes) × (alloc n ≡ memory b) × (length b ≡ n)) where
  -- a buffer with the block `b`, of the given length and nothing read from it yet
  abbrev pub fresh : S → Bytes → ℤ → Peek S
  fresh c b l = record { child = c; buffer = block b; length = l; offset = 0 }

  -- what a refill leaves, of a child that had `input` to give
  abbrev pub Refilled : Bytes → Reply (Peek S) → Type 0
  Refilled input (ret (pos k) _ p) =
      (c : S) × (b : Bytes) × (p ≡ fresh c b (pos k))
      × (k ≡ 0 → input ≡ [])
      × (k ≤ length b)
      × (input ≡ take k b ++ rest c)
      × Valid c
  Refilled input (ret (negsuc e) _ p) =
      (c : S) × (b : Bytes) × (p ≡ fresh c b (negsuc e)) × (rest c ≡ input) × Valid c
  Refilled input stuck = ⊥

  filled-Refilled :
      (p : Peek S) (b : Bytes) (n : ℕ) (s : S) (reply : Reply S)
      → length b ≡ n
      → 0 < n
      → Served Valid rest s n reply
      → Refilled (rest s) (filled read alloc p b reply)
  unfolding filled
  filled-Refilled p b n s stuck hb hn h = h
  filled-Refilled p b n s (ret (pos k) bytes c) hb hn (count, fits, splits, at_end, valid) =
      rw (store_inside b 0 bytes (omega arith), Refilled)
        (
          c,
          blit b 0 bytes,
          refl,
          (λ z. at_end z hn),
          omega (arith, length-blit_start b bytes),
          rw (count, take-append bytes (drop (0 + length bytes) b)) splits,
          valid,
        )
  filled-Refilled p b n s (ret (negsuc e) bytes c) hb hn (fits, same, valid) =
      rw (store_inside b 0 bytes (omega arith), Refilled) (c, blit b 0 bytes, refl, same, valid)

  pub refill-Refilled :
      (p : Peek S) (l len : ℕ)
      → Valid p.child
      → p.length ≡ pos l
      → l ≡ p.offset
      → Refilled (rest p.child) (refill_buffer read alloc p len)
  unfolding refill_buffer refill_sized filled
  refill-Refilled p l len valid hl ho =
      let n = refill_size l len in
      let (b, granted, size) = enough n in
      rw (hl, (==_iff l p.offset).1 ho, lt→ltb l n (refill_size_bounds l len).0, granted)
        (filled-Refilled p b n p.child (read p.child 0 n) size
          (omega (arith, refill_size_bounds l len)) (reads.serves p.child 0 n valid))
