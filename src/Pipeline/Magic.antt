-- ===== src/Pipeline/Magic.antt =====
-- The detection of the compression from the first bytes.
use wandio.Base.{
  ℕ, ◌/◌, ◌%◌, ◌≡◌, ◌≢◌, refl, inl, inr, Bool, true, false, ◌||◌, ◌&&◌, Option, none, some, get_or,
  Bool-cases, if◌then◌else◌, ℤ, Bytes, arith,
}
use wandio.Pipeline.{
  Decoder, Io, decoder_io, Build, World, start, is_gzip, is_compress, is_bzip, is_xz, is_zstd,
  is_lz4, is_skippable, Detected, refuse, go_on, ◌>>=◌, check, check_gzip, autodetect, qat, zlib,
  bz, lzma, zstd_lz4,
}

pub data Format : Type 0 where
  gzip compress bzip xz zstd lz4 skippable : Format

abbrev pub test : ℤ → Bytes → Format → Bool
test len buffer gzip = is_gzip len buffer
test len buffer compress = is_compress len buffer
test len buffer bzip = is_bzip len buffer
test len buffer xz = is_xz len buffer
test len buffer zstd = is_zstd len buffer
test len buffer lz4 = is_lz4 len buffer
test len buffer skippable = is_skippable len buffer

-- what the first two bytes say
abbrev Lead : Format → ℕ → ℕ → Type 0
Lead gzip a b = (a ≡ 0x1f) × (b ≡ 0x8b)
Lead compress a b = (a ≡ 0x1f) × (b ≡ 0x9d)
Lead bzip a b = (a ≡ b'B') × (b ≡ b'Z')
Lead xz a b = (a ≡ 0xfd) × (b ≡ b'7')
Lead zstd a b = (a ≡ 0x28) × (b ≡ 0xb5)
Lead lz4 a b = (a ≡ 0x04) × (b ≡ 0x22)
Lead skippable a b = (a / 16 % 16 ≡ 5) × (b ≡ 0x2a)

test-Lead :
    (len : ℤ) (buffer : Bytes) (f : Format)
    → test len buffer f ≡ true
    → Lead f (get_or buffer 0 0) (get_or buffer 1 0)
unfolding is_gzip is_compress is_bzip is_xz is_zstd is_lz4 is_skippable
test-Lead len buffer gzip h = ground arith
test-Lead len buffer _ h = ground arith

Lead-eq : (f g : Format) (a b : ℕ) → Lead f a b → Lead g a b → f ≡ g
Lead-eq gzip gzip a b h k = refl
Lead-eq gzip _ a b h k = ground arith
Lead-eq compress compress a b h k = refl
Lead-eq compress _ a b h k = ground arith
Lead-eq bzip bzip a b h k = refl
Lead-eq bzip _ a b h k = ground arith
Lead-eq xz xz a b h k = refl
Lead-eq xz _ a b h k = ground arith
Lead-eq zstd zstd a b h k = refl
Lead-eq zstd _ a b h k = ground arith
Lead-eq lz4 lz4 a b h k = refl
Lead-eq lz4 _ a b h k = ground arith
Lead-eq skippable skippable a b h k = refl
Lead-eq skippable _ a b h k = ground arith

-- The tests exclude one another.
test-eq :
    (len : ℤ) (buffer : Bytes) (f g : Format)
    → test len buffer f ≡ true
    → test len buffer g ≡ true
    → f ≡ g
test-eq len buffer f g h k =
    Lead-eq f g (get_or buffer 0 0) (get_or buffer 1 0) (test-Lead len buffer f h)
      (test-Lead len buffer g k)

module _ (len : ℤ) (buffer : Bytes) (f : Format) (h : test len buffer f ≡ true) where
  other_tests : (g : Format) → f ≢ g → test len buffer g ≡ false
  other_tests g ne = elim (Bool-cases (test len buffer g)) [
    | inl k ↦ absurd (ne (test-eq len buffer f g h k))
    | inr k ↦ k
  ]

-- The decoder that a format other than gzip wants, and whether the library was built with it.
abbrev pub decoder_of : Format → Decoder
decoder_of gzip = zlib
decoder_of compress = zlib
decoder_of bzip = bz
decoder_of xz = lzma
decoder_of _ = zstd_lz4

abbrev pub built_for : Build → Format → Bool
built_for b gzip = b.libz
built_for b compress = b.libz
built_for b bzip = b.libbz2
built_for b xz = b.liblzma
built_for b zstd = b.libzstd
built_for b lz4 = b.liblz4f
built_for b skippable = b.liblz4f || b.libzstd

check-false : (d : Detected) (have : Bool) (io : Option Io) → (d >>= check false have io) ≡ d
check-false refuse have io = refl
check-false (go_on x) have io = refl

module _ (b : Build) (w : World) (base : Io) where
  -- What a format asks for: its decoder, or a refusal where the library was built without it. For
  -- gzip the QAT decoder is preferred where it is built in and starts.
  abbrev pub wanted : Format → Detected
  wanted gzip =
      if b.libqatzip && w.qat_starts
      then go_on (some (decoder_io qat base))
      else if b.libz
      then go_on (start b w zlib base)
      else refuse
  wanted f = if built_for b f then go_on (start b w (decoder_of f) base) else refuse

  asks_gzip : check_gzip b w base true none ≡ wanted gzip
  unfolding check_gzip
  asks_gzip = ground arith

  asks_of :
      (d : Detected) (f : Format)
      → d ≡ go_on none
      → f ≢ gzip
      → (d >>= check true (built_for b f) (start b w (decoder_of f) base)) ≡ wanted f
  asks_of d gzip e ne = absurd (ne refl)
  asks_of d compress e ne = ground arith
  asks_of d _ e ne = ground arith

  asks :
      (len : ℤ) (buffer : Bytes) (f : Format)
      → test len buffer f ≡ true
      → autodetect b w base len buffer ≡ wanted f
  unfolding autodetect
  asks len buffer gzip h =
      let o = other_tests len buffer gzip h in
      simp
        (
          h,
          o compress (λ e. cc),
          o bzip (λ e. cc),
          o xz (λ e. cc),
          o zstd (λ e. cc),
          o lz4 (λ e. cc),
          o skippable (λ e. cc),
          check-false,
        )
        asks_gzip
  asks len buffer compress h =
      let o = other_tests len buffer compress h in
      simp
        (
          h,
          o gzip (λ e. cc),
          o bzip (λ e. cc),
          o xz (λ e. cc),
          o zstd (λ e. cc),
          o lz4 (λ e. cc),
          o skippable (λ e. cc),
          check-false,
        )
        (asks_of (go_on none) compress refl (λ e. cc))
  asks len buffer bzip h =
      let o = other_tests len buffer bzip h in
      simp
        (
          h,
          o gzip (λ e. cc),
          o compress (λ e. cc),
          o xz (λ e. cc),
          o zstd (λ e. cc),
          o lz4 (λ e. cc),
          o skippable (λ e. cc),
          check-false,
        )
        (asks_of (go_on none) bzip refl (λ e. cc))
  asks len buffer xz h =
      let o = other_tests len buffer xz h in
      simp
        (
          h,
          o gzip (λ e. cc),
          o compress (λ e. cc),
          o bzip (λ e. cc),
          o zstd (λ e. cc),
          o lz4 (λ e. cc),
          o skippable (λ e. cc),
          check-false,
        )
        (asks_of (go_on none) xz refl (λ e. cc))
  asks len buffer zstd h =
      let o = other_tests len buffer zstd h in
      simp
        (
          h,
          o gzip (λ e. cc),
          o compress (λ e. cc),
          o bzip (λ e. cc),
          o xz (λ e. cc),
          o lz4 (λ e. cc),
          o skippable (λ e. cc),
          check-false,
        )
        (asks_of (go_on none) zstd refl (λ e. cc))
  asks len buffer lz4 h =
      let o = other_tests len buffer lz4 h in
      simp
        (
          h,
          o gzip (λ e. cc),
          o compress (λ e. cc),
          o bzip (λ e. cc),
          o xz (λ e. cc),
          o zstd (λ e. cc),
          o skippable (λ e. cc),
          check-false,
        )
        (asks_of (go_on none) lz4 refl (λ e. cc))
  asks len buffer skippable h =
      let o = other_tests len buffer skippable h in
      simp
        (
          h,
          o gzip (λ e. cc),
          o compress (λ e. cc),
          o bzip (λ e. cc),
          o xz (λ e. cc),
          o zstd (λ e. cc),
          o lz4 (λ e. cc),
        )
        (asks_of (go_on none) skippable refl (λ e. cc))

  -- The detection does what the format asks for whose magic bytes the input begins with, whatever
  -- the order of the tests, and leaves an input that begins with none of them as it is.
  pub autodetect-wanted :
      (len : ℤ) (buffer : Bytes)
      → ((f : Format) → test len buffer f ≡ true → autodetect b w base len buffer ≡ wanted f)
        × (((f : Format) → test len buffer f ≡ false) → autodetect b w base len buffer ≡ go_on none)
  unfolding autodetect check_gzip
  autodetect-wanted len buffer = (
    asks len buffer,
    λ other.
        rw (
          other gzip,
          other compress,
          other bzip,
          other xz,
          other zstd,
          other lz4,
          other skippable,
        ),
  )
