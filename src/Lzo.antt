-- ===== src/Lzo.antt =====
-- lib/iow-lzo.c, the writer of lzop files: the blocks, the header, and the writer without threads. Farm
-- has the writer with threads.
pub mod Block
pub mod Direct
pub mod Unpack
pub mod Farm
pub mod Toy
mod Tests
use wandio.Base.{
  ℕ, zero, suc, ◌+◌, ◌*◌, ◌/◌, ◌%◌, ◌^◌, min, Bool, true, false, [], ◌∷◌, ◌++◌, List, Option, none,
  some, length, take, drop, ltb, if◌then◌else◌, ℤ, pos, negsuc, Bytes, codes,
}
use wandio.Writer.{Outcome, done, aborted, no_fuel}

-- what `lzo1x_1_compress` returns other than LZO_E_OK
pub data LzoError : Type 0 where
  failed out_of_memory not_compressible input_overrun output_overrun lookbehind_overrun
        eof_not_found input_not_consumed not_yet_implemented unknown :
      LzoError

pub data Compressed : Type 0 where
  lzo_ok : Bytes → Compressed
  lzo_error : LzoError → Compressed

-- The library. `adler` is `lzo_adler32` from ADLER32_INIT_VALUE on.
pub record Lzo : Type 0 where
  pub compress : Bytes → Compressed
  pub adler : Bytes → ℕ
  pub version : ℕ

-- -EINVAL, -ENOMEM, -ENOENT and -ENOSYS
abbrev pub negative_errno : LzoError → ℤ
negative_errno out_of_memory = negsuc 11
negative_errno output_overrun = negsuc 11
negative_errno eof_not_found = negsuc 1
negative_errno not_yet_implemented = negsuc 37
negative_errno e = negsuc 21

-- MAX_BUFFER_SIZE, by MAX_BLOCK_SIZE
abbrev pub buffer_size : ℕ → ℕ
buffer_size max_block = max_block + max_block / 16 + 64 + 3

-- what `htonl`, `htons` make of a value, byte by byte
abbrev pub write32 : ℕ → Bytes
write32 v = (v / 2 ^ 24 % 256) ∷ (v / 2 ^ 16 % 256) ∷ (v / 2 ^ 8 % 256) ∷ (v % 256) ∷ []

abbrev pub write16 : ℕ → Bytes
write16 v = (v / 2 ^ 8 % 256) ∷ (v % 256) ∷ []

abbrev pub write8 : ℕ → Bytes
write8 v = (v % 256) ∷ []

-- `write_buf` on a buffer that holds `buffer` up to its offset; `none` is a failed assertion.
module _ (max_block : ℕ) where
  unfoldable pub write_buf : Bytes → Bytes → Option Bytes
  write_buf buffer bytes =
      if ltb (length buffer + length bytes) (buffer_size max_block)
      then some (buffer ++ bytes)
      else none

  -- calls of it one after the other
  unfoldable pub write_bufs : Bytes → List Bytes → Option Bytes
  write_bufs buffer [] = some buffer
  write_bufs buffer (b ∷ bs) = elim (write_buf buffer b) [
    | none ↦ none
    | some buffer' ↦ write_bufs buffer' bs
  ]

-- What `lzo_wwrite_block` does: it returns its length with the block in `outbuf`, or an error with
-- nothing there, or an assertion fails.
pub data BlockResult : Type 0 where
  packed : Bytes → BlockResult
  refused : ℤ → BlockResult
  asserted : BlockResult

abbrev pub or_asserted : Option Bytes → BlockResult
or_asserted none = asserted
or_asserted (some b) = packed b

module _ (max_block : ℕ) (lzo : Lzo) where
  -- the fields of a block: original length, length, checksum and data, compressed if that is shorter
  abbrev pub fields : Bytes → Bytes → List Bytes
  fields buffer b2 =
      let len = length buffer in
      let shorter = ltb (length b2) (len % 2 ^ 32) in
      write32 len
      ∷ write32 (if shorter then length b2 else len)
      ∷ write32 (lzo.adler buffer)
      ∷ (if shorter then b2 else buffer)
      ∷ []

  -- behind the compression, with the assertion that there is data
  write_fields : Bytes → Compressed → BlockResult
  write_fields buffer (lzo_error e) = refused (negative_errno e)
  write_fields buffer (lzo_ok b2) =
      if ltb 0 (length buffer)
      then or_asserted (write_bufs max_block [] (fields buffer b2))
      else asserted

  pub lzo_wwrite_block : Bytes → BlockResult
  lzo_wwrite_block buffer = write_fields buffer (lzo.compress buffer)

  -- `lzop_magic`, and the header's fields behind it, with the time
  abbrev pub lzop_magic : Bytes
  lzop_magic = 0x89 ∷ 0x4c ∷ 0x5a ∷ 0x4f ∷ 0x00 ∷ 0x0d ∷ 0x0a ∷ 0x1a ∷ 0x0a ∷ []

  -- F_OS_UNIX and F_ADLER32_D
  abbrev pub header_flags : ℕ
  header_flags = 0x03000001

  abbrev pub header_fields : ℕ → List Bytes
  header_fields now =
      write16 0x1010
      ∷ write16 lzo.version
      ∷ write16 0x0940
      ∷ write8 1
      ∷ write8 5
      ∷ write32 header_flags
      ∷ write32 0x600
      ∷ write32 now
      ∷ write32 0
      ∷ write8 (length (codes "compresseddata"))
      ∷ codes "compresseddata"
      ∷ []

  -- The header, with the checksum of what is behind the magic; F_H_CRC32 is not among the flags.
  pub lzo_header : ℕ → Option Bytes
  lzo_header now = elim (write_bufs max_block [] (lzop_magic ∷ header_fields now)) [
    | none ↦ none
    | some b ↦ write_buf max_block b (write32 (lzo.adler (drop (length lzop_magic) b)))
  ]

  module _ {W : Type 0} (write : W → Bytes → ℤ × W) where
    -- what becomes of a block of `size` bytes; what the child returns is not looked at
    block_written : (W → Bytes → Outcome W) → W → Bytes → ℕ → BlockResult → Outcome W
    block_written continue w buffer size (packed b) = continue (write w b).1 (drop size buffer)
    block_written continue w buffer size (refused e) = done e (write w []).1
    block_written continue w buffer size asserted = aborted

    -- `lzo_wwrite` without threads, on fuel. `ret` is always 0, and so is the value at the end.
    pub direct_loop : ℕ → W → Bytes → Outcome W
    direct_loop zero w buffer = no_fuel
    direct_loop (suc fuel) w [] = done (pos 0) w
    direct_loop (suc fuel) w (x ∷ xs) =
        let size = min (length (x ∷ xs)) max_block in
        block_written (direct_loop fuel) w (x ∷ xs) size (lzo_wwrite_block (take size (x ∷ xs)))

    -- `lzo_wclose` without threads: the end marker
    abbrev pub direct_close : W → W
    direct_close w = (write w (write32 0)).1
