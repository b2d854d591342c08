-- ===== src/Pipeline/Create.antt =====
-- The chain of readers that `create_io_reader` builds.
use wandio.Base.{
  ℕ, ◌≡◌, ◌≢◌, ◌∙◌, sym, ap, refl, inl, inr, Bool, true, false, Option, none, some, Bool-cases,
  Option-cases, if◌then◌else◌, ◌==◌, ℤ, Bytes, arith,
}
use wandio.Pipeline.{
  Decoder, Io, peek_io, thread_io, decoder_io, Build, World, start, starts, open_base, Detected,
  refuse, go_on, ◌>>=◌, check, check_gzip, autodetect, finish, create_io_reader, qat, zlib, bz,
  lzma, zstd_lz4, is_gzip, is_compress, is_bzip, is_xz, is_zstd, is_lz4, is_skippable,
}
use wandio.Pipeline.Magic.{
  Format, test, decoder_of, built_for, autodetect-wanted, wanted, gzip, compress,
}

abbrev decoded : Option Decoder → Io → Io
decoded none base = base
decoded (some d) base = decoder_io d base

-- The chain of readers over an opened file: the peeking reader, the decoder if there is one, the
-- reading thread unless threads are turned off, and a peeking reader again.
abbrev pub chain : ℕ → Option Decoder → Io → Io
chain threads d opened =
    let io = decoded d (peek_io opened) in
    if threads == 0 then peek_io io else peek_io (thread_io io)

module _ (b : Build) (w : World) where
  -- what the detection has found is nothing or a decoder over the base
  abbrev OverBase : Io → Detected → Type 0
  OverBase base refuse = Unit
  OverBase base (go_on none) = Unit
  OverBase base (go_on (some io)) = (d : Decoder) × (io ≡ decoder_io d base)

  start-OverBase : (base : Io) (d : Decoder) → OverBase base (go_on (start b w d base))
  start-OverBase base d = elim (Bool-cases (starts b w d)) [
    | inl ready ↦ rw ready (d, refl)
    | inr broken ↦ rw broken tt
  ]

  check-OverBase :
      (base : Io) (m : Detected) (hit have : Bool) (d : Decoder)
      → OverBase base m
      → OverBase base (m >>= check hit have (start b w d base))
  check-OverBase base refuse hit have d h = h
  check-OverBase base (go_on io) false have d h = h
  check-OverBase base (go_on io) true false d h = tt
  check-OverBase base (go_on io) true true d h = start-OverBase base d

  gzip-OverBase : (base : Io) (hit : Bool) → OverBase base (check_gzip b w base hit none)
  unfolding check_gzip
  gzip-OverBase base false = tt
  gzip-OverBase base true = elim (Bool-cases b.libqatzip) [
    | inl quick ↦ elim (Bool-cases w.qat_starts) [
      | inl ready ↦ rw (quick, ready) (qat, refl)
      | inr broken ↦ elim (Bool-cases b.libz) [
        | inl built ↦ rw (quick, broken, built) (zlib, refl)
        | inr lacking ↦ rw (quick, broken, lacking) tt
      ]
    ]
    | inr slow ↦ elim (Bool-cases b.libz) [
      | inl built ↦ rw (slow, built) (zlib, refl)
      | inr lacking ↦ rw (slow, lacking) tt
    ]
  ]

  autodetect-OverBase :
      (base : Io) (len : ℤ) (buffer : Bytes) → OverBase base (autodetect b w base len buffer)
  unfolding autodetect
  autodetect-OverBase base len buffer = check-OverBase base _ (is_skippable len buffer) _ zstd_lz4 (
      check-OverBase base _ (is_lz4 len buffer) _ zstd_lz4 (
        check-OverBase base _ (is_zstd len buffer) _ zstd_lz4 (
          check-OverBase base _ (is_xz len buffer) _ lzma (
            check-OverBase base _ (is_bzip len buffer) _ bz (
              check-OverBase base _ (is_compress len buffer) _ zlib
                (gzip-OverBase base (is_gzip len buffer)))))))

  -- what `finish` makes of a detection, as a chain
  record Chained (threads : ℕ) (opened io : Io) (m : Detected) : Type 0 where
    decoder : Option Decoder
    shape : io ≡ chain threads decoder opened
    found : m ≡ go_on none → decoder ≡ none

  finish-Chained :
      (threads : ℕ) (opened io : Io) (m : Detected)
      → OverBase (peek_io opened) m
      → finish b w (peek_io opened) threads m ≡ some io
      → Chained threads opened io m
  unfolding finish
  finish-Chained threads opened io refuse o h = cc
  finish-Chained threads opened io (go_on none) o h = record {
    decoder = none;
    shape = ground arith;
    found = λ _. refl;
  }
  finish-Chained threads opened io (go_on (some x)) (d, e) h = record {
    decoder = some d;
    shape = ground arith;
    found = λ w. cc;
  }

  create_failed :
      (threads : ℕ) (f : Bytes) (detect : Bool)
      → open_base b w f ≡ none
      → create_io_reader b w threads f detect ≡ none
  unfolding create_io_reader
  create_failed threads f detect e = rw (e, create_io_reader)

  -- the reader over an opened file, given what the detection is asked
  abbrev detection : Bytes → Io → Bool → Detected
  detection f opened true = autodetect b w (peek_io opened) (w.first_len f) (w.first_bytes f)
  detection f opened false = go_on none

  create_opened :
      (threads : ℕ) (f : Bytes) (detect : Bool) (opened : Io)
      → open_base b w f ≡ some opened
      → create_io_reader b w threads f detect
        ≡ finish b w (peek_io opened) threads (detection f opened detect)
  unfolding create_io_reader
  create_opened threads f true opened e = rw (e, create_io_reader)
  create_opened threads f false opened e = rw (e, create_io_reader)

  detection-OverBase :
      (f : Bytes) (opened : Io) (detect : Bool)
      → OverBase (peek_io opened) (detection f opened detect)
  detection-OverBase f opened true =
      autodetect-OverBase (peek_io opened) (w.first_len f) (w.first_bytes f)
  detection-OverBase f opened false = tt

  -- Whatever `create_io_reader` returns is a peeking reader over at most one decoder over a peeking
  -- reader over the opened file, with a reading thread in between exactly if threads are on. With
  -- the detection off there is no decoder.
  pub create-chain :
      (threads : ℕ) (f : Bytes) (detect : Bool) (io : Io)
      → create_io_reader b w threads f detect ≡ some io
      → (opened : Io) × (d : Option Decoder) × (open_base b w f ≡ some opened)
        × (io ≡ chain threads d opened)
        × (detect ≡ false → d ≡ none)
  create-chain threads f detect io h = elim (Option-cases (open_base b w f)) [
    | inl failed ↦ cc (create_failed threads f detect failed)
    | inr (opened, is) ↦
        let c =
          finish-Chained threads opened io (detection f opened detect)
            (detection-OverBase f opened detect)
            (sym (create_opened threads f detect opened is) ∙ h) in
        (opened, c.decoder, is, c.shape, λ off. c.found (ap (detection f opened) off))
  ]

  -- With the detection on and threads off, an input that begins with the magic bytes of a format
  -- other than gzip is read through the format's decoder where the library was built with it and
  -- the decoder starts. Where the decoder does not start the file is read as it is, undecoded, with
  -- no error; where the library was built without the decoder there is no reader.
  pub create-decodes :
      (f : Bytes) (opened : Io) (format : Format)
      → open_base b w f ≡ some opened
      → test (w.first_len f) (w.first_bytes f) format ≡ true
      → format ≢ gzip
      → create_io_reader b w 0 f true ≡ (
          if built_for b format
          then some (
              chain 0
                (if starts b w (decoder_of format) then some (decoder_of format) else none)
                opened)
          else none)
  unfolding finish
  create-decodes f opened format is hit ne =
      create_opened 0 f true opened is
      ∙ ap (finish b w (peek_io opened) 0)
          ((autodetect-wanted b w (peek_io opened) (w.first_len f) (w.first_bytes f)).0 format hit)
      ∙ by_format format ne
    where
      by_format :
          (format : Format)
          → format ≢ gzip
          → finish b w (peek_io opened) 0 (wanted b w (peek_io opened) format) ≡ (
              if built_for b format
              then some (
                  chain 0
                    (if starts b w (decoder_of format) then some (decoder_of format) else none)
                    opened)
              else none)
      by_format gzip ne = absurd (ne refl)
      by_format compress ne = ground arith
      by_format _ ne = ground arith
