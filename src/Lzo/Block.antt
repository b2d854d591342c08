-- ===== src/Lzo/Block.antt =====
-- The blocks: no assertion fails, and what they hold.
use wandio.Base.{
  ℕ, ◌+◌, ◌%◌, ◌^◌, ◌≤◌, ◌<◌, ◌≡◌, ◌∙◌, sym, ap, refl, Bool, true, false, [], ◌∷◌, ◌++◌, append-nil,
  append_assoc, List, some, length, length-append, ltb, lt→ltb, ltb→lt, if◌then◌else◌, Bytes, arith,
}
use wandio.Lzo.{
  Lzo, lzo_ok, buffer_size, write_buf, write_bufs, fields, write_fields, lzo_wwrite_block, packed,
  asserted, or_asserted,
}

abbrev pub joined : List Bytes → Bytes
joined [] = []
joined (b ∷ bs) = b ++ joined bs

-- pieces that fit are all there
pub write_bufs-joined :
    (max_block : ℕ) (buffer : Bytes) (bs : List Bytes)
    → length buffer + length (joined bs) < buffer_size max_block
    → write_bufs max_block buffer bs ≡ some (buffer ++ joined bs)
unfolding write_bufs write_buf
write_bufs-joined max_block buffer [] h = ap some (sym (append-nil buffer))
write_bufs-joined max_block buffer (b ∷ bs) h =
    let fits : length buffer + length b < buffer_size max_block =
      omega (arith, length-append b (joined bs)) in
    let more : length (buffer ++ b) + length (joined bs) < buffer_size max_block =
      omega (arith, length-append b (joined bs), length-append buffer b) in
    rw (lt→ltb (length buffer + length b) (buffer_size max_block) fits, write_bufs)
      (write_bufs-joined max_block (buffer ++ b) bs more
        ∙ ap some (append_assoc buffer b (joined bs)))

-- A library that never fails, as lzo1x_1_compress does not.
pub record Works (lzo : Lzo) : Type 0 where
  pub compresses : (b : Bytes) → (c : Bytes) × (lzo.compress b ≡ lzo_ok c)

module _ (max_block : ℕ) (lzo : Lzo) (works : Works lzo) where
  -- the block that stands for the bytes
  abbrev pub block_of : Bytes → Bytes
  block_of b = joined (fields max_block lzo b (works.compresses b).0)

  payload_size :
      (z : Bool) (b c : Bytes)
      → ltb (length c) (length b % 2 ^ 32) ≡ z
      → length (if z then c else b) ≤ length b
  payload_size true b c e = omega (arith, ltb→lt (length c) (length b % 2 ^ 32) e)
  payload_size false b c e = omega arith

  block_size : (b : Bytes) → length b ≤ max_block → length (block_of b) < buffer_size max_block
  block_size b h =
      let c = (works.compresses b).0 in
      let z = ltb (length c) (length b % 2 ^ 32) in
      let payload = if z then c else b in
      omega (arith, payload_size z b c refl, length-append payload [])

  -- For 1 to MAX_BLOCK_SIZE bytes, and a library that does not fail, no assertion fails in
  -- `lzo_wwrite_block`: the block, which has the fields of the format one behind the other, fits its
  -- buffer.
  pub lzo_wwrite_block-packed :
      (b : Bytes)
      → 0 < length b
      → length b ≤ max_block
      → (lzo_wwrite_block max_block lzo b ≡ packed (block_of b))
        × (length (block_of b) < buffer_size max_block)
  unfolding lzo_wwrite_block write_fields
  lzo_wwrite_block-packed b some_bytes few =
      let c = (works.compresses b).0 in
      let fits = block_size b few in
      (
        ap (write_fields max_block lzo b) (works.compresses b).1
            ∙ ap
                (λ z.
                  if z
                  then or_asserted (write_bufs max_block [] (fields max_block lzo b c))
                  else asserted)
                (lt→ltb 0 (length b) some_bytes)
            ∙ ap or_asserted
                (write_bufs-joined max_block [] (fields max_block lzo b c) (omega (arith, fits))),
        fits,
      )
