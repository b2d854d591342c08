-- ===== src/Lzo/Unpack.antt =====
-- A reader of the file format, for the blocks that the writer makes.
use wandio.Base.{
  ℕ, zero, suc, ◌+◌, ◌*◌, ◌%◌, ◌^◌, ◌<◌, ◌≡◌, ◌∙◌, sym, subst, ap, refl, Bool, true, false, ◌&&◌,
  [], ◌∷◌, ◌++◌, append-nil, append_assoc, Option, none, some, length, length-take, length-drop,
  take, drop, take-append, drop-append, take-append-drop, ltb, ◌==◌, ==_refl, ltb→lt, lt→ltb,
  le→ltb, if◌then◌else◌, Bytes, arith,
}
use wandio.Lzo.{Lzo, lzo_ok, write32}
use wandio.Lzo.Block.{Works, block_of}
use wandio.Lzo.Direct.{all_blocks, all_blocks_next}

-- a number of four bytes, the highest first, and the bytes behind it
pub read32 : Bytes → Option (ℕ × Bytes)
read32 (a ∷ b ∷ c ∷ d ∷ rest) = some (a * 2 ^ 24 + b * 2 ^ 16 + c * 2 ^ 8 + d, rest)
read32 bytes = none

read32-write32 : (v : ℕ) (rest : Bytes) → v < 2 ^ 32 → read32 (write32 v ++ rest) ≡ some (v, rest)
unfolding read32
read32-write32 v rest h = ap (λ z. some (z, rest)) (omega arith)

module _ (decompress : Bytes → Option Bytes) (adler : Bytes → ℕ) where
  -- the data of a block, where length and checksum are right
  checked : ℕ → ℕ → Option Bytes → Option Bytes
  checked len sum none = none
  checked len sum (some b) = if length b == len && adler b == sum then some b else none

  -- a block's data, behind its three numbers, of which the second is the length of what is stored
  stored : ℕ → ℕ → ℕ → Bytes → Option Bytes
  stored len size sum bytes =
      let payload = take size bytes in
      checked len sum (if ltb size len then decompress payload else some payload)

  -- the blocks behind one with this data
  prepended : Option Bytes → Option (Bytes × Bytes) → Option (Bytes × Bytes)
  prepended none o = none
  prepended (some b) none = none
  prepended (some b) (some (more, rest)) = some (b ++ more, rest)

  third : (Bytes → Option (Bytes × Bytes)) → ℕ → ℕ → Option (ℕ × Bytes) → Option (Bytes × Bytes)
  third continue len size none = none
  third continue len size (some (sum, bytes)) =
      prepended (stored len size sum bytes) (continue (drop size bytes))

  second : (Bytes → Option (Bytes × Bytes)) → ℕ → Option (ℕ × Bytes) → Option (Bytes × Bytes)
  second continue len none = none
  second continue len (some (size, bytes)) = third continue len size (read32 bytes)

  first : (Bytes → Option (Bytes × Bytes)) → Option (ℕ × Bytes) → Option (Bytes × Bytes)
  first continue none = none
  first continue (some (zero, bytes)) = some ([], bytes)
  first continue (some (suc len, bytes)) = second continue (suc len) (read32 bytes)

  -- The blocks up to the end marker, which is a length of 0, on fuel for their number: the data, and
  -- what is behind the marker.
  pub unpack : ℕ → Bytes → Option (Bytes × Bytes)
  unpack zero bytes = none
  unpack (suc fuel) bytes = first (unpack fuel) (read32 bytes)

  marker : (fuel : ℕ) (rest : Bytes) → unpack (suc fuel) (write32 0 ++ rest) ≡ some ([], rest)
  unfolding unpack first
  marker fuel rest = ap (first (unpack fuel)) (read32-write32 0 rest (omega arith))

  prepended-some :
      (front back rest : Bytes)
      → prepended (some front) (some (back, rest)) ≡ some (front ++ back, rest)
  unfolding prepended
  prepended-some front back rest = refl

  -- how the other half of the library and its checksum fit the compressing half
  pub record Restores (lzo : Lzo) : Type 0 where
    pub restores : (b c : Bytes) → lzo.compress b ≡ lzo_ok c → decompress c ≡ some b
    pub same : (b : Bytes) → lzo.adler b ≡ adler b
    pub small : (b : Bytes) → adler b < 2 ^ 32

  module _ (max_block : ℕ) (lzo : Lzo) (works : Works lzo) (half : Restores lzo) where
    checked_same : (b : Bytes) → checked (length b) (lzo.adler b) (some b) ≡ some b
    unfolding checked
    checked_same b =
        ap (λ z. if length b == length b && z == lzo.adler b then some b else none)
          (sym (half.same b))
        ∙ rw (==_refl (length b), ==_refl (lzo.adler b))

    -- what is stored is found, whether it is compressed or not
    stored-payload :
        (b rest : Bytes) (z : Bool)
        → ltb (length (works.compresses b).0) (length b % 2 ^ 32) ≡ z
        → length b < 2 ^ 32
        → let c = (works.compresses b).0 in
          let payload = if z then c else b in
          stored (length b) (if z then length c else length b) (lzo.adler b) (payload ++ rest)
          ≡ some b
    unfolding stored
    stored-payload b rest true test few =
        let (c, is) = works.compresses b in
        let shorter : ltb (length c) (length b) ≡ true =
          lt→ltb (length c) (length b)
            (omega (arith, ltb→lt (length c) (length b % 2 ^ 32) test)) in
        ap
          (λ z. checked (length b) (lzo.adler b) (
            if z
            then decompress (take (length c) (c ++ rest))
            else some (take (length c) (c ++ rest))))
          shorter
        ∙ ap (λ z. checked (length b) (lzo.adler b) (decompress z)) (take-append c rest)
        ∙ ap (checked (length b) (lzo.adler b)) (half.restores b c is)
        ∙ checked_same b
    stored-payload b rest false test few =
        ap
          (λ z. checked (length b) (lzo.adler b) (
            if z
            then decompress (take (length b) (b ++ rest))
            else some (take (length b) (b ++ rest))))
          (le→ltb (length b) (length b) (omega arith))
        ∙ ap (λ z. checked (length b) (lzo.adler b) (some z)) (take-append b rest)
        ∙ checked_same b

    size_fits :
        (b : Bytes) (z : Bool)
        → ltb (length (works.compresses b).0) (length b % 2 ^ 32) ≡ z
        → length b < 2 ^ 32
        → let c = (works.compresses b).0 in
          ((if z then length c else length b) ≡ length (if z then c else b))
          × ((if z then length c else length b) < 2 ^ 32)
    size_fits b true test few =
        (refl, omega (arith, ltb→lt (length (works.compresses b).0) (length b % 2 ^ 32) test))
    size_fits b false test few = (refl, few)

    unpack-block :
        (fuel : ℕ) (b rest : Bytes)
        → 0 < length b
        → length b < 2 ^ 32
        → unpack (suc fuel) (block_of max_block lzo works b ++ rest)
          ≡ prepended (some b) (unpack fuel rest)
    unfolding unpack first second third
    unpack-block fuel [] rest some_bytes few = absurd (omega arith)
    unpack-block fuel (x ∷ xs) rest some_bytes few =
        let b = x ∷ xs in
        let len = length b in
        let c = (works.compresses b).0 in
        let z = ltb (length c) (len % 2 ^ 32) in
        let size = if z then length c else len in
        let payload = if z then c else b in
        let sum = lzo.adler b in
        let tail = (payload ++ []) ++ rest in
        let tail_is : tail ≡ payload ++ rest = ap (λ y. y ++ rest) (append-nil payload) in
        let (same, fits) = size_fits b z refl few in
        let sum_fits : sum < 2 ^ 32 = subst (λ y. y < 2 ^ 32) (sym (half.same b)) (half.small b) in
        ap (first (unpack fuel)) (read32-write32 len (write32 size ++ (write32 sum ++ tail)) few)
        ∙ ap (second (unpack fuel) len) (read32-write32 size (write32 sum ++ tail) fits)
        ∙ ap (third (unpack fuel) len size) (read32-write32 sum tail sum_fits)
        ∙ ap (λ y. prepended (stored len size sum y) (unpack fuel (drop size y))) tail_is
        ∙ ap (λ y. prepended y (unpack fuel (drop size (payload ++ rest))))
            (stored-payload b rest z refl few)
        ∙ ap (λ y. prepended (some b) (unpack fuel (drop y (payload ++ rest)))) same
        ∙ ap (λ y. prepended (some b) (unpack fuel y)) (drop-append payload rest)

    -- For bytes that are cut into blocks of less than 2^32: the reader of the format, with the
    -- library's other half and fuel for the blocks, has from what the writer writes for them and the
    -- end marker these bytes, and what is behind the marker.
    pub unpack-all_blocks :
        (fuel : ℕ) (b rest : Bytes)
        → 0 < max_block
        → max_block < 2 ^ 32
        → length b < fuel
        → unpack fuel (all_blocks max_block lzo works b ++ (write32 0 ++ rest)) ≡ some (b, rest)
    unpack-all_blocks zero b rest some_bytes few enough = absurd (omega arith)
    unpack-all_blocks (suc fuel) [] rest some_bytes few enough = marker fuel rest
    unpack-all_blocks (suc fuel) (x ∷ xs) rest some_bytes few enough =
        let b = x ∷ xs in
        let front = take max_block b in
        let back = drop max_block b in
        let tail = write32 0 ++ rest in
        let size : 0 < length front = omega (arith, length-take max_block b) in
        let bound : length front < 2 ^ 32 = omega (arith, length-take max_block b) in
        let ih =
          unpack-all_blocks fuel back rest some_bytes few
            (omega (arith, length-drop max_block b)) in
        ap (λ y. unpack (suc fuel) (y ++ tail))
          (all_blocks_next max_block lzo works b some_bytes (omega arith))
        ∙ ap (unpack (suc fuel)) (
            append_assoc (block_of max_block lzo works front) (all_blocks max_block lzo works back)
              tail)
        ∙ unpack-block fuel front (all_blocks max_block lzo works back ++ tail) size bound
        ∙ ap (prepended (some front)) ih
        ∙ prepended-some front back rest
        ∙ ap (λ y. some (y, rest)) (take-append-drop max_block b)
