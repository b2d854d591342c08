-- ===== src/Pipeline.antt =====
-- `create_io_reader` and `wandio_create` of lib/wandio.c: which readers a file is read through.
pub mod Magic
pub mod Scheme
pub mod Create
mod Tests
use wandio.Base.{
  ℕ, zero, suc, ◌+◌, ◌/◌, ◌%◌, Bool, true, false, not, ◌&&◌, ◌||◌, List, [], ◌∷◌, Option, none,
  some, take, get_or, ltb, leb, ◌==◌, if◌then◌else◌, ℤ, pos, negsuc, Bytes, codes, starts_with,
}
use wandio.Options.{Settings, parse_env}

-- The decompressing readers: `qat_open`, `zlib_open`, `bz_open`, `lzma_open`, `zstd_lz4_open`.
pub data Decoder : Type 0 where
  qat zlib bz lzma zstd_lz4 : Decoder

-- A chain of readers, the outermost first.
pub data Io : Type 0 where
  stdio_io : Bytes → Io
  http_io : Bytes → Io
  swift_io : Bytes → Io
  peek_io : Io → Io
  decoder_io : Decoder → Io → Io
  thread_io : Io → Io

-- The macros that configure fixes: HAVE_HTTP, HAVE_LIBQATZIP, HAVE_LIBZ, HAVE_LIBBZ2,
-- HAVE_LIBLZMA, HAVE_LIBZSTD, HAVE_LIBLZ4F.
pub record Build : Type 0 where
  pub http : Bool
  pub libqatzip : Bool
  pub libz : Bool
  pub libbz2 : Bool
  pub liblzma : Bool
  pub libzstd : Bool
  pub liblz4f : Bool

-- What the system and the libraries answer: whether the file or URI opens, whether the libraries'
-- set-up calls succeed (`qzInit` and `qzSetupSession`, `lzma_auto_decoder`,
-- `LZ4F_createDecompressionContext`), whether there is memory for the reading thread's buffers, and
-- what the first peek returns (`len`) and stores (`buffer`).
pub record World : Type 0 where
  pub opens : Bytes → Bool
  pub qat_starts : Bool
  pub lzma_starts : Bool
  pub lz4f_starts : Bool
  pub threads_start : Bool
  pub first_len : Bytes → ℤ
  pub first_bytes : Bytes → Bytes

-- `strstr`: the number of bytes before the first occurrence
pub strstr : Bytes → Bytes → Option ℕ
strstr [] word = if starts_with [] word then some 0 else none
strstr (c ∷ s) word =
    if starts_with (c ∷ s) word
    then some 0
    else elim (strstr s word) [ none ↦ none | some n ↦ some (suc n) ]

-- `isalnum` in the C locale
abbrev pub is_alnum : ℕ → Bool
is_alnum c = (leb b'0' c && leb c b'9') || (leb b'A' c && leb c b'Z') || (leb b'a' c && leb c b'z')

abbrev pub all_alnum : Bytes → Bool
all_alnum [] = true
all_alnum (c ∷ cs) = is_alnum c && all_alnum cs

-- `Is the protocol sane`: the bytes before "://" are letters and digits
pub is_uri : Bytes → Bool
is_uri f = elim (strstr f (codes "://")) [ none ↦ false | some n ↦ all_alnum (take n f) ]

abbrev open_if : Bool → Io → Option Io
open_if true io = some io
open_if false io = none

module _ (b : Build) (w : World) where
  -- the innermost reader, before `peek_open`; without HTTP a URI ends the function
  pub open_base : Bytes → Option Io
  open_base f =
      if not (is_uri f)
      then open_if (w.opens f) (stdio_io f)
      else if not b.http
      then none
      else elim (strstr f (codes "swift://")) [
        | some _ ↦ open_if (w.opens f) (swift_io f)
        | none ↦ open_if (w.opens f) (http_io f)
      ]

  -- Whether a decoder's open returns a reader. `zlib_open` and `bz_open` ignore what the set-up
  -- calls return.
  abbrev pub starts : Decoder → Bool
  starts qat = w.qat_starts
  starts zlib = true
  starts bz = true
  starts lzma = w.lzma_starts
  starts zstd_lz4 = not b.liblz4f || w.lz4f_starts

  -- a decoder's open on a reader that is there
  abbrev pub start : Decoder → Io → Option Io
  start d base = open_if (starts d) (decoder_io d base)

-- `len >= n` for the `int` that the peek returned
abbrev pub at_least : ℤ → ℕ → Bool
at_least (pos k) n = leb n k
at_least (negsuc k) n = false

-- `buffer[i] == c`
abbrev pub byte_is : Bytes → ℕ → ℕ → Bool
byte_is buffer i c = get_or buffer i 0 == c

module _ (len : ℤ) (buffer : Bytes) where
  pub is_gzip : Bool
  is_gzip =
      at_least len 3 && byte_is buffer 0 0x1f && byte_is buffer 1 0x8b && byte_is buffer 2 0x08

  pub is_compress : Bool
  is_compress = at_least len 2 && byte_is buffer 0 0x1f && byte_is buffer 1 0x9d

  pub is_bzip : Bool
  is_bzip =
      at_least len 3 && byte_is buffer 0 b'B' && byte_is buffer 1 b'Z' && byte_is buffer 2 b'h'

  pub is_xz : Bool
  is_xz =
      at_least len 5
      && byte_is buffer 0 0xfd
      && byte_is buffer 1 b'7'
      && byte_is buffer 2 b'z'
      && byte_is buffer 3 b'X'
      && byte_is buffer 4 b'Z'

  pub is_zstd : Bool
  is_zstd =
      at_least len 6
      && byte_is buffer 0 0x28
      && byte_is buffer 1 0xb5
      && byte_is buffer 2 0x2f
      && byte_is buffer 3 0xfd

  pub is_lz4 : Bool
  is_lz4 =
      at_least len 6
      && byte_is buffer 0 0x04
      && byte_is buffer 1 0x22
      && byte_is buffer 2 0x4d
      && byte_is buffer 3 0x18

  -- `buffer[0] & 0xf0` is 0x50
  pub is_skippable : Bool
  is_skippable =
      at_least len 6
      && get_or buffer 0 0 / 16 % 16 == 5
      && byte_is buffer 1 0x2a
      && byte_is buffer 2 0x4d
      && byte_is buffer 3 0x18

-- What a test of the detection does with the reader found so far: `refuse` returns NULL from
-- `create_io_reader`.
pub data Detected : Type 0 where
  refuse : Detected
  go_on : Option Io → Detected

infixl 5 ◌>>=◌
abbrev pub ◌>>=◌ : Detected → (Option Io → Detected) → Detected
refuse >>= f = refuse
go_on io >>= f = f io

-- one test, with its `#if`: a decoder replaces the reader found, its absence refuses
abbrev pub check : Bool → Bool → Option Io → Option Io → Detected
check false have decoder io = go_on io
check true false decoder io = refuse
check true true decoder io = go_on decoder

module _ (b : Build) (w : World) (base : Io) where
  -- the test for gzip: the QAT decoder if there is one and it starts, else zlib
  check_gzip : Bool → Option Io → Detected
  check_gzip false io = go_on io
  check_gzip true io =
      let tried = if b.libqatzip then start b w qat base else io in
      let found : Option Io = elim tried [
        | some d ↦ some d
        | none ↦ if b.libz then start b w zlib base else none
      ] in
      elim found [ none ↦ refuse | some d ↦ go_on (some d) ]

  pub autodetect : ℤ → Bytes → Detected
  unfolding check_gzip
  autodetect len buffer =
      check_gzip (is_gzip len buffer) none
      >>= check (is_compress len buffer) b.libz (start b w zlib base)
      >>= check (is_bzip len buffer) b.libbz2 (start b w bz base)
      >>= check (is_xz len buffer) b.liblzma (start b w lzma base)
      >>= check (is_zstd len buffer) b.libzstd (start b w zstd_lz4 base)
      >>= check (is_lz4 len buffer) b.liblz4f (start b w zstd_lz4 base)
      >>= check (is_skippable len buffer) (b.liblz4f || b.libzstd) (start b w zstd_lz4 base)

  -- `Now open a threaded, peekable reader`
  pub finish : ℕ → Detected → Option Io
  finish threads refuse = none
  finish threads (go_on found) =
      let io : Io = elim found [ none ↦ base | some d ↦ d ] in
      if threads == 0
      then some (peek_io io)
      else if w.threads_start
      then some (peek_io (thread_io io))
      else none

module _ (b : Build) (w : World) where
  pub create_io_reader : ℕ → Bytes → Bool → Option Io
  create_io_reader threads f detect = elim (open_base b w f) [
    | none ↦ none
    | some opened ↦
        let base = peek_io opened in
        finish b w base threads
          (if detect then autodetect b w base (w.first_len f) (w.first_bytes f) else go_on none)
  ]

  -- The two entry points. They read the environment first; `none` of the environment is a misuse of
  -- memory in `parse_env`.
  module _ (atoi : Bytes → ℤ) where
    pub wandio_create : Settings → Option Bytes → Bytes → Option (Settings × Option Io)
    wandio_create s env f = elim (parse_env atoi s env) [
      | none ↦ none
      | some s' ↦ some (s', create_io_reader s'.use_threads f s'.use_autodetect)
    ]

    pub wandio_create_uncompressed : Settings → Option Bytes → Bytes → Option (Settings × Option Io)
    wandio_create_uncompressed s env f = elim (parse_env atoi s env) [
      | none ↦ none
      | some s' ↦ some (s', create_io_reader s'.use_threads f false)
    ]
