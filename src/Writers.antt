-- ===== src/Writers.antt =====
-- `wandio_wcreate` of lib/wandio.c: which writers a file is written through.
pub mod Chain
mod Tests
use wandio.Base.{
  ℕ, zero, suc, Bool, true, false, not, ◌&&◌, Option, none, some, leb, ◌==◌, if◌then◌else◌, Bytes,
}
use wandio.Compression.{Method, none_method, zlib, bz2, lzo, lzma, zstd, lz4, number}
use wandio.Options.{Settings}

-- The compressing writers: `qat_wopen`, `zlib_wopen`, `lzo_wopen`, `bz_wopen`, `lzma_wopen`,
-- `zstd_wopen`, `lz4_wopen`.
pub data Encoder : Type 0 where
  qat_w zlib_w lzo_w bz_w lzma_w zstd_w lz4_w : Encoder

-- A chain of writers, the outermost first, an encoder with its level.
pub data Iow : Type 0 where
  stdio_iow : Bytes → ℕ → Iow
  encoder_iow : Encoder → ℕ → Iow → Iow
  thread_iow : Iow → Iow

-- The macros that configure fixes: HAVE_LIBQATZIP, HAVE_LIBZ, HAVE_LIBLZO2, HAVE_LIBBZ2,
-- HAVE_LIBLZMA, HAVE_LIBZSTD, HAVE_LIBLZ4F.
pub record Build : Type 0 where
  pub libqatzip : Bool
  pub libz : Bool
  pub liblzo2 : Bool
  pub libbz2 : Bool
  pub liblzma : Bool
  pub libzstd : Bool
  pub liblz4f : Bool

-- What the system and the libraries answer: whether the file opens for writing, and whether an
-- encoder's set-up calls succeed. `zlib_wopen` and `bz_wopen` ignore what theirs return.
pub record World : Type 0 where
  pub wopens : Bytes → Bool
  pub starts : Encoder → Bool

-- An assertion fails; or a writer or NULL is returned, after a warning or without.
pub data Created : Type 0 where
  aborted : Created
  returned : (warned : Bool) → Option Iow → Created

abbrev always_starts : Encoder → Bool
always_starts zlib_w = true
always_starts bz_w = true
always_starts _ = false

module _ (w : World) where
  abbrev pub encoder_starts : Encoder → Bool
  encoder_starts zlib_w = true
  encoder_starts bz_w = true
  encoder_starts e = w.starts e

  -- an encoder's open on a writer that is there
  abbrev pub wopen : Encoder → ℕ → Iow → Option Iow
  wopen e level base = if encoder_starts e then some (encoder_iow e level base) else none

  -- one `#if` section: where it is compiled in, the encoder replaces the base
  abbrev pub encode_if : Bool → Encoder → ℕ → Iow → Option Iow
  encode_if false e level base = some base
  encode_if true e level base = wopen e level base

module _ (b : Build) (w : World) where
  -- the branch for WANDIO_COMPRESS_ZLIB: zlib where QAT is not built in or does not start
  pub encode_zlib : ℕ → Iow → Option Iow
  encode_zlib level base =
      let tried : Option Iow = if b.libqatzip then wopen w qat_w level base else some base in
      if b.libz && not (b.libqatzip && w.starts qat_w) then wopen w zlib_w level base else tried

  -- the branch of the method, at a level that is not 0
  pub encode : Method → ℕ → Iow → Option Iow
  unfolding encode_zlib
  encode none_method level base = some base
  encode zlib level base = encode_zlib level base
  encode bz2 level base = encode_if w b.libbz2 bz_w level base
  encode lzo level base = encode_if w b.liblzo2 lzo_w level base
  encode lzma level base = encode_if w b.liblzma lzma_w level base
  encode zstd level base = encode_if w b.libzstd zstd_w level base
  encode lz4 level base = encode_if w b.liblz4f lz4_w level base

  -- `iow == base`
  is_base : Option Iow → Bool
  is_base (some (stdio_iow f flags)) = true
  is_base _ = false

  -- from `if (compression_level != 0)` on, with the file open
  encode_and_thread : ℕ → Method → ℕ → Iow → Created
  unfolding is_base encode
  encode_and_thread threads m level base =
      let iow : Option Iow = if level == 0 then some base else encode m level base in
      returned (not (number m == 0) && is_base iow)
        (elim iow [ none ↦ none | some x ↦ if threads == 0 then some x else some (thread_iow x) ])

  -- The environment is read first; `threads` is what it leaves in `use_threads`.
  pub wandio_wcreate : ℕ → Bytes → Method → ℕ → ℕ → Created
  unfolding encode_and_thread
  wandio_wcreate threads f m level flags =
      if not (leb level 9)
      then aborted
      else if w.wopens f
      then encode_and_thread threads m level (stdio_iow f flags)
      else returned false none
