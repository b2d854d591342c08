-- ===== src/Peek.antt =====
-- lib/ior-peek.c, the reader that buffers its child's bytes so that they can be looked at.
pub mod Inv
pub mod Refill
pub mod Read
pub mod Look
pub mod Faults
pub mod Seek
mod Tests
use wandio.Base.{
  ℕ, suc, zero, ◌+◌, ◌-◌, ◌*◌, ◌%◌, ◌^◌, ◌<◌, min, max, Bool, true, false, not, ◌&&◌, [], ◌∷◌, ◌++◌,
  Option, none, some, length, take, drop, blit, slice, ltb, leb, ◌==◌, if◌then◌else◌, ℤ, pos,
  negsuc, minus_one, Bytes,
}
use wandio.Reader.{Reply, ret, stuck}

abbrev pub min_read_size : ℕ
min_read_size = 4096

-- WANDIO_BUFFER_SIZE
abbrev pub peek_size : ℕ
peek_size = 1024 * 1024

-- A heap pointer: NULL, one whose block has been freed, or one to a block with its contents.
pub data Pointer : Type 0 where
  null : Pointer
  freed : Pointer
  block : Bytes → Pointer

-- `posix_memalign`: a block with arbitrary contents, or an error code.
pub data Allocation : Type 0 where
  memory : Bytes → Allocation
  refused : ℕ → Allocation

-- `struct peek_t`
pub record Peek (S : Type 0) : Type 0 where
  pub child : S
  pub buffer : Pointer
  pub length : ℤ
  pub offset : ℕ

-- `peek_open` on a child that is not NULL
abbrev pub opened : {S : Type 0} → S → Peek S
opened c = record { child = c; buffer = null; length = pos 0; offset = 0 }

pub peek_open : {S : Type 0} → Option S → Option (Peek S)
peek_open none = none
peek_open (some c) = some (opened c)

-- how much `refill_buffer` asks of the child, for a buffer of length `l`
pub refill_size : ℕ → ℕ → ℕ
refill_size l len =
    let wanted = max l (max peek_size len) in wanted + (min_read_size - wanted % min_read_size)

-- how much `peek_peek` asks of the child, for a buffer of length `l` of which `offset` is read
pub look_size : ℕ → ℕ → ℕ → ℕ
look_size l offset len =
    let missing = len - (l - offset) in missing + (peek_size - (l + missing) % peek_size)

-- the same where the buffer's length is -(e + 1)
pub broken_size : ℕ → ℕ → ℕ → ℕ
broken_size e offset len = len + offset + suc e + (peek_size - (len + offset) % peek_size)

-- `free`
abbrev release : Pointer → Pointer
release null = null
release freed = freed
release (block _) = freed

-- `memcpy(block + at, bytes)`, `none` where it leaves the block
pub store : Bytes → ℕ → Bytes → Option Bytes
store b at bytes = if leb (at + length bytes) (length b) then some (blit b at bytes) else none

-- `memcpy(…, block + at, n)`, `none` where it leaves the block
pub load : Pointer → ℕ → ℕ → Option Bytes
load null at n = none
load freed at n = none
load (block b) at n = if leb (at + n) (length b) then some (slice b at n) else none

-- `alignedrealloc` to `size` bytes of a block that holds `l` bytes, `l < size`: the new block
-- with the old bytes at its start. `none` is a copy that leaves the old block.
realigned : Pointer → ℕ → Bytes → Option Bytes
realigned old l new = elim old [
  | null ↦ if l == 0 then some new else none
  | other ↦ elim (load other 0 l) [ none ↦ none | some bytes ↦ store new 0 bytes ]
]

-- `Right, now return data from the buffer`
look : {S : Type 0} → Peek S → ℕ → ℕ → Reply (Peek S)
look p l len =
    let n = min len (l - p.offset) in
    if ltb l p.offset then stuck else elim (load p.buffer p.offset n) [
      | none ↦ if n == 0 then ret (pos 0) [] p else stuck
      | some bytes ↦ ret (pos n) bytes p
    ]

-- The child's `read`, with its name table entry, and the allocator.
module _ {S : Type 0} (read : S → ℕ → ℕ → Reply S) (alloc : ℕ → Allocation) where
  -- what `refill_buffer` does with the child's reply to a read into the block `b`
  filled : Peek S → Bytes → Reply S → Reply (Peek S)
  filled p b stuck = stuck
  filled p b (ret v bytes c) = elim (store b 0 bytes) [
    | none ↦ stuck
    | some b' ↦ ret v [] (record p { child = c; buffer = block b'; length = v; offset = 0 })
  ]

  -- `refill_buffer` from `Is the current buffer big enough?` on, for a buffer of length `l`
  refill_sized : Peek S → ℕ → ℕ → Reply (Peek S)
  refill_sized p l n =
      if ltb l n
      then elim (alloc n) [
        | refused e ↦
            ret minus_one [] (record p { buffer = release p.buffer; length = pos n; offset = 0 })
        | memory b ↦ filled p b (read p.child 0 n)
      ]
      else elim p.buffer [ block b ↦ filled p b (read p.child 0 n) | _ ↦ stuck ]

  pub refill_buffer : Peek S → ℕ → Reply (Peek S)
  refill_buffer p len = elim p.length [
    | negsuc _ ↦ stuck
    | pos l ↦ if l == p.offset then refill_sized p l (refill_size l len) else stuck
  ]

  -- `Have we read past the end of the buffer?`
  tidy : Peek S → Peek S
  tidy p = elim p.buffer [
    | null ↦ p
    | _ ↦ elim p.length [
      | negsuc _ ↦ record p { buffer = null; length = pos 0; offset = 0 }
      | pos l ↦ if leb l p.offset then record p { buffer = null; length = pos 0; offset = 0 } else p
    ]
  ]

  -- the return when the child gave less than one byte: what was in the buffer, or the child's value
  short : Bytes → ℤ → Peek S → Reply (Peek S)
  short [] v p = ret v [] p
  short got v p = ret (pos (length got)) got p

  -- the branch that reads straight into the caller's buffer, on the child's reply
  direct : Bytes → Peek S → Reply S → Reply (Peek S)
  direct got p stuck = stuck
  direct got p (ret (negsuc e) bytes c) = short got (negsuc e) (record p { child = c })
  direct got p (ret (pos zero) bytes c) = short got (pos 0) (record p { child = c })
  direct got p (ret (pos (suc k)) bytes c) =
      ret (pos (length got + suc k)) (got ++ bytes) (tidy (record p { child = c }))

  -- the other branch, on the reply of `refill_buffer`
  indirect : Bytes → ℕ → Reply (Peek S) → Reply (Peek S)
  indirect got len stuck = stuck
  indirect got len (ret (negsuc e) _ p) = short got (negsuc e) p
  indirect got len (ret (pos zero) _ p) = short got (pos 0) p
  indirect got len (ret (pos (suc k)) _ p) =
      let n = min len (suc k) in
      elim (load p.buffer 0 n) [
        | none ↦ stuck
        | some bytes ↦ ret (pos (length got + n)) (got ++ bytes) (tidy (record p { offset = n }))
      ]

  -- `peek_read` after the copy out of the buffer, with `len` bytes still wanted at `addr`
  rest_of_read : Bytes → Peek S → ℕ → ℕ → ℕ → Reply (Peek S)
  rest_of_read got p l addr len =
      if ltb 0 len
      then if not (l == p.offset)
        then stuck
        else if len % min_read_size == 0 && addr % min_read_size == 0
        then direct got p (read p.child addr len)
        else indirect got len (refill_buffer p len)
      else ret (pos (length got)) got (tidy p)

  -- `Is some of this data in the buffer?`: `none` is a copy out of bounds
  from_buffer : Peek S → ℕ → ℕ → Option Bytes
  from_buffer p l len = elim p.buffer [
    | null ↦ some []
    | _ ↦
        if l == 0
        then some []
        else if ltb l p.offset
        then none
        else load p.buffer p.offset (min len (l - p.offset))
  ]

  pub peek_read : Peek S → ℕ → ℕ → Reply (Peek S)
  peek_read p addr len = elim p.length [
    | negsuc e ↦ ret (negsuc e) [] p
    | pos l ↦ elim (from_buffer p l len) [
      | none ↦ stuck
      | some got ↦
          rest_of_read got (record p { offset = p.offset + length got }) l (addr + length got)
            (len - length got)
    ]
  ]

  -- the child's reply to a read of more bytes into `b` behind the first `l`
  extended : Peek S → Bytes → ℕ → ℕ → Reply S → Reply (Peek S)
  extended p b l len stuck = stuck
  extended p b l len (ret (negsuc e) bytes c) = elim (store b l bytes) [
    | none ↦ stuck
    | some b' ↦ ret (negsuc e) [] (record p { child = c; buffer = block b' })
  ]
  extended p b l len (ret (pos k) bytes c) = elim (store b l bytes) [
    | none ↦ stuck
    | some b' ↦ look (record p { child = c; buffer = block b'; length = pos (l + k) }) (l + k) len
  ]

  -- `No, we need to extend the buffer.`
  extend : Peek S → ℕ → ℕ → Reply (Peek S)
  extend p l len =
      let n = look_size l p.offset len in
      elim (alloc (l + n)) [
        | refused e ↦ ret (pos e) [] (record p { buffer = null })
        | memory new ↦ elim (realigned p.buffer l new) [
          | none ↦ stuck
          | some b ↦ extended p b l len (read p.child l n)
        ]
      ]

  -- the child's reply to a read to an address before the block: what it stores is misplaced, and
  -- behind a reply that is no error the length is still negative, and so is that of the `memcpy`
  misplaced : Peek S → Reply S → Reply (Peek S)
  misplaced p stuck = stuck
  misplaced p (ret (negsuc e) [] c) = ret (negsuc e) [] (record p { child = c })
  misplaced p (ret (negsuc e) (x ∷ bytes) c) = stuck
  misplaced p (ret (pos k) bytes c) = stuck

  -- `No, we need to extend the buffer.` where the length is -(e + 1): as a `size_t` it is more than
  -- any size, so that `alignedrealloc` returns the old block
  extend_broken : Peek S → ℕ → ℕ → Reply (Peek S)
  extend_broken p e len = elim p.buffer [
    | null ↦ ret (pos 0) [] p
    | _ ↦ misplaced p (read p.child (2 ^ 64 - suc e) (broken_size e p.offset len))
  ]

  pub peek_peek : Peek S → ℕ → ℕ → Reply (Peek S)
  peek_peek p addr len = elim p.length [
    | negsuc e ↦ extend_broken p e len
    | pos l ↦ if ltb (l - p.offset) len then extend p l len else look p l len
  ]
