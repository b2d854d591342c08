-- ===== src/Writers/Chain.antt =====
-- The chain of writers that `wandio_wcreate` builds, and its warning.
use wandio.Base.{
  ℕ, ◌≡◌, ◌≢◌, ◌≤◌, ◌<◌, ◌∙◌, ap, refl, inl, inr, Bool, true, false, not, ◌&&◌, ◌||◌, Option, none,
  some, Bool-cases, if◌then◌else◌, ◌==◌, ==_ne, le→leb, Bytes, arith,
}
use wandio.Compression.{Method, none_method, zlib, bz2, lzo, lzma, zstd, lz4, number}
use wandio.Writers.{
  Encoder, qat_w, zlib_w, lzo_w, bz_w, lzma_w, zstd_w, lz4_w, Iow, stdio_iow, encoder_iow,
  thread_iow, Build, World, Created, returned, encoder_starts, wopen, encode_if, encode_zlib,
  encode, is_base, encode_and_thread, wandio_wcreate,
}

-- Whether the library was built with an encoder for the method.
abbrev pub supported : Build → Method → Bool
supported b none_method = false
supported b zlib = b.libqatzip || b.libz
supported b bz2 = b.libbz2
supported b lzo = b.liblzo2
supported b lzma = b.liblzma
supported b zstd = b.libzstd
supported b lz4 = b.liblz4f

-- The encoder that writes a method's format: QAT hardware where it is built in and starts, or has no
-- zlib to stand in for it.
abbrev pub encoder_for : Build → World → Method → Encoder
encoder_for b w none_method = zlib_w
encoder_for b w zlib = if b.libqatzip && (w.starts qat_w || not b.libz) then qat_w else zlib_w
encoder_for b w bz2 = bz_w
encoder_for b w lzo = lzo_w
encoder_for b w lzma = lzma_w
encoder_for b w zstd = zstd_w
encoder_for b w lz4 = lz4_w

-- Whether an encoder's open gives a writer: those of zlib and bzip2 do not look at their set-up.
abbrev pub ready : World → Encoder → Bool
ready w zlib_w = true
ready w bz_w = true
ready w qat_w = w.starts qat_w
ready w lzo_w = w.starts lzo_w
ready w lzma_w = w.starts lzma_w
ready w zstd_w = w.starts zstd_w
ready w lz4_w = w.starts lz4_w

abbrev threaded : ℕ → Iow → Iow
threaded threads x = if threads == 0 then x else thread_iow x

module _ (b : Build) (w : World) (threads : ℕ) (f : Bytes) (flags : ℕ) where
  -- At level 0 the file is written as it is, and for every method but NONE the warning says that
  -- the library was built without the method, whether or not it was.
  wcreate_level_zero :
      (m : Method)
      → w.wopens f ≡ true
      → wandio_wcreate b w threads f m 0 flags
        ≡ returned (not (number m == 0)) (some (threaded threads (stdio_iow f flags)))
  unfolding wandio_wcreate
  wcreate_level_zero m opened = ground arith

  abbrev file : Iow
  file = stdio_iow f flags

  -- what the encoders make of the file
  data Encoded (level : ℕ) (built : Bool) (e : Encoder) (o : Option Iow) : Type 0 where
    raw : built ≡ false → o ≡ some file → Encoded level built e o
    nothing : built ≡ true → ready w e ≡ false → o ≡ none → Encoded level built e o
    encoded :
        built ≡ true
        → ready w e ≡ true
        → o ≡ some (encoder_iow e level file)
        → Encoded level built e o

  starts-ready : (e : Encoder) → encoder_starts w e ≡ ready w e
  starts-ready zlib_w = refl
  starts-ready bz_w = refl
  starts-ready qat_w = refl
  starts-ready lzo_w = refl
  starts-ready lzma_w = refl
  starts-ready zstd_w = refl
  starts-ready lz4_w = refl

  wopen-Encoded : (e : Encoder) (level : ℕ) → Encoded level true e (wopen w e level file)
  wopen-Encoded e level = elim (Bool-cases (ready w e)) [
    | inl up ↦ rw (starts-ready e, up) (encoded refl up refl)
    | inr broken ↦ rw (starts-ready e, broken) (nothing refl broken refl)
  ]

  encode_if-Encoded :
      (have : Bool) (e : Encoder) (level : ℕ) → Encoded level have e (encode_if w have e level file)
  encode_if-Encoded false e level = raw refl refl
  encode_if-Encoded true e level = wopen-Encoded e level

  encode_zlib-Encoded :
      (level : ℕ)
      → Encoded level (b.libqatzip || b.libz) (encoder_for b w zlib) (encode_zlib b w level file)
  unfolding encode_zlib
  encode_zlib-Encoded level = elim (Bool-cases b.libqatzip) [
    | inr slow ↦ elim (Bool-cases b.libz) [
      | inl z ↦ rw (slow, z) (encoded refl refl refl)
      | inr lacking ↦ rw (slow, lacking) (raw refl refl)
    ]
    | inl quick ↦ elim (Bool-cases (w.starts qat_w)) [
      | inl up ↦ elim (Bool-cases b.libz) [
        | inl z ↦ rw (quick, up, z) (encoded refl up refl)
        | inr lacking ↦ rw (quick, up, lacking) (encoded refl up refl)
      ]
      | inr broken ↦ elim (Bool-cases b.libz) [
        | inl z ↦ rw (quick, broken, z) (encoded refl refl refl)
        | inr lacking ↦ rw (quick, broken, lacking) (nothing refl broken refl)
      ]
    ]
  ]

  encode-Encoded :
      (m : Method) (level : ℕ)
      → m ≢ none_method
      → Encoded level (supported b m) (encoder_for b w m) (encode b w m level file)
  unfolding encode
  encode-Encoded none_method level other = absurd (other refl)
  encode-Encoded zlib level other = encode_zlib-Encoded level
  encode-Encoded bz2 level other = encode_if-Encoded b.libbz2 bz_w level
  encode-Encoded lzo level other = encode_if-Encoded b.liblzo2 lzo_w level
  encode-Encoded lzma level other = encode_if-Encoded b.liblzma lzma_w level
  encode-Encoded zstd level other = encode_if-Encoded b.libzstd zstd_w level
  encode-Encoded lz4 level other = encode_if-Encoded b.liblz4f lz4_w level

  -- What `wandio_wcreate` returns at a level that is not 0, given whether the library was built with
  -- the method, and the encoder for it.
  abbrev pub Warned : ℕ → Bool → Encoder → Created → Type 0
  Warned level built e c =
      (x : Option Iow) × (c ≡ returned (not built) x)
      × (built ≡ false → x ≡ some (threaded threads (stdio_iow f flags)))
      × (built ≡ true
          → x ≡ (
              if ready w e
              then some (threaded threads (encoder_iow e level (stdio_iow f flags)))
              else none))

  named : (m : Method) → m ≢ none_method → (number m == 0) ≡ false
  named none_method other = absurd (other refl)
  named zlib other = refl
  named _ other = refl

  created :
      (m : Method) (level : ℕ) {o : Option Iow}
      → 0 < level
      → level ≤ 9
      → w.wopens f ≡ true
      → m ≢ none_method
      → encode b w m level file ≡ o
      → wandio_wcreate b w threads f m level flags
        ≡ returned
            (is_base b w o)
            (elim o [ none ↦ none | some x ↦ if threads == 0 then some x else some (thread_iow x) ])
  unfolding wandio_wcreate encode_and_thread
  created m level lo hi opened other is =
      rw (le→leb level 9 hi, opened, named m other, ==_ne level 0 (omega arith), is)

  some-threaded :
      (x : Iow) → (if threads == 0 then some x else some (thread_iow x)) ≡ some (threaded threads x)
  some-threaded x = ground arith

  warned :
      (level : ℕ) (built : Bool) (e : Encoder) (c : Created) {o : Option Iow}
      → (c
          ≡ returned (is_base b w o) (elim o [
            | none ↦ none
            | some x ↦ if threads == 0 then some x else some (thread_iow x)
          ]))
      → Encoded level built e o
      → Warned level built e c
  unfolding is_base
  warned level built e c is (raw lacking o) = (
    some (threaded threads file),
    rw lacking ((rw o at is) ∙ ap (returned true) (some-threaded file)),
    (λ _. refl),
    λ has. cc,
  )
  warned level built e c is (nothing has broken o) =
      (none, rw has (rw o at is), (λ lacking. cc), λ _. rw broken)
  warned level built e c is (encoded has up o) = (
    some (threaded threads (encoder_iow e level file)),
    rw has ((rw o at is) ∙ ap (returned false) (some-threaded (encoder_iow e level file))),
    (λ lacking. cc),
    λ _. rw up,
  )

  -- At the levels from 1 to 9, for a method other than NONE, the warning is given exactly where the
  -- library was built without the method, and then the file is written as it is. For a method
  -- that it was built with, the method's encoder, at that level, writes to the file if its open gives
  -- a writer, under a thread if threads are on, and there is no writer if it does not. For zlib, QAT
  -- is this encoder where it is built in and starts, or where zlib is not built in.
  pub wcreate-Warned :
      (m : Method) (level : ℕ)
      → 0 < level
      → level ≤ 9
      → w.wopens f ≡ true
      → m ≢ none_method
      → Warned level
          (supported b m)
          (encoder_for b w m)
          (wandio_wcreate b w threads f m level flags)
  wcreate-Warned m level lo hi opened other =
      warned level (supported b m) (encoder_for b w m) _ (created m level lo hi opened other refl)
        (encode-Encoded m level other)
