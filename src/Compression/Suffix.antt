-- ===== src/Compression/Suffix.antt =====
-- The guess from a file name against the table of suffixes.
use wandio.Base.{
  Bool, not, ◌||◌, reverse, reverse-append, ◌-◌, ◌≡◌, ◌≢◌, ◌∙◌, sym, ap, refl, inl, inr, ◌⊎◌, ◌↔◌,
  true, false, List, [], ◌∷◌, ◌++◌, length, drop, take, length-append, drop-append,
  take-append-drop, str_eq_iff, str_eq_refl, le→leb, ◌==◌, Bool-cases, Bytes, codes, arith,
}
use wandio.Compression.{Entry, known_types, has_suffix, wandio_detect_compression_type}

-- The file name is something before the suffix.
abbrev pub EndsWith : Bytes → Bytes → Type 0
EndsWith f suffix = (stem : Bytes) × (f ≡ stem ++ suffix)

has_suffix-append : (stem suffix : Bytes) → has_suffix (stem ++ suffix) suffix ≡ true
unfolding has_suffix
has_suffix-append stem suffix =
    let size = length-append stem suffix in
    let e : length (stem ++ suffix) - length suffix ≡ length stem = omega (arith, size) in
    rw (
      e,
      le→leb (length suffix) (length (stem ++ suffix)) (omega (arith, size)),
      drop-append stem suffix,
      str_eq_refl suffix,
    )

has_suffix-EndsWith : (f suffix : Bytes) → has_suffix f suffix ≡ true → EndsWith f suffix
unfolding has_suffix
has_suffix-EndsWith f suffix h =
    let k = length f - length suffix in
    (
      take k f,
      sym (take-append-drop k f)
          ∙ ap (λ b. take k f ++ b) ((str_eq_iff (drop k f) suffix).0 (ground arith)),
    )

-- The two texts differ at a place that both have.
abbrev clash : Bytes → Bytes → Bool
clash [] ys = false
clash (x ∷ xs) [] = false
clash (x ∷ xs) (y ∷ ys) = not (x == y) || clash xs ys

clash-ne : (xs ys u v : Bytes) → clash xs ys ≡ true → xs ++ u ≢ ys ++ v
clash-ne [] ys u v h e = cc
clash-ne (x ∷ xs) [] u v h e = cc
clash-ne (x ∷ xs) (y ∷ ys) u v h e = ground (arith, clash-ne xs ys u v)

-- A name that ends in `s` does not end in a `t` that differs from `s` at some place from the end.
has_suffix-clash :
    (stem s t : Bytes) → clash (reverse s) (reverse t) ≡ true → has_suffix (stem ++ s) t ≡ false
has_suffix-clash stem s t apart = elim (Bool-cases (has_suffix (stem ++ s) t)) [
  | inl both ↦
      let (stem', e) = has_suffix-EndsWith (stem ++ s) t both in
      absurd (
        clash-ne (reverse s) (reverse t) (reverse stem) (reverse stem') apart
          (sym (reverse-append stem s) ∙ ap reverse e ∙ reverse-append stem' t))
  | inr other ↦ other
]

abbrev pub Listed : Entry → List Entry → Type 0
Listed e [] = ⊥
Listed e (x ∷ xs) = (e ≡ x) ⊎ Listed e xs

detect-append :
    (e : Entry)
    → Listed e known_types
    → (stem : Bytes) → wandio_detect_compression_type (stem ++ b'.' ∷ e.ext) ≡ e.compress_type
unfolding wandio_detect_compression_type
detect-append e (inl h) stem = rw (h, has_suffix-append stem (codes ".gz"))
detect-append e (inr (inl h)) stem = rw (
  h,
  has_suffix-clash stem (codes ".bz2") (codes ".gz") refl,
  has_suffix-append stem (codes ".bz2"),
)
detect-append e (inr (inr (inl h))) stem = rw (
  h,
  has_suffix-clash stem (codes ".lzo") (codes ".gz") refl,
  has_suffix-clash stem (codes ".lzo") (codes ".bz2") refl,
  has_suffix-clash stem (codes ".lzo") (codes ".xz") refl,
  has_suffix-append stem (codes ".lzo"),
)
detect-append e (inr (inr (inr (inl h)))) stem = rw (
  h,
  has_suffix-clash stem (codes ".xz") (codes ".gz") refl,
  has_suffix-clash stem (codes ".xz") (codes ".bz2") refl,
  has_suffix-append stem (codes ".xz"),
)
detect-append e (inr (inr (inr (inr (inl h))))) stem = rw (
  h,
  has_suffix-clash stem (codes ".zst") (codes ".gz") refl,
  has_suffix-clash stem (codes ".zst") (codes ".bz2") refl,
  has_suffix-clash stem (codes ".zst") (codes ".xz") refl,
  has_suffix-clash stem (codes ".zst") (codes ".lzo") refl,
  has_suffix-clash stem (codes ".zst") (codes ".lz4") refl,
  has_suffix-append stem (codes ".zst"),
)
detect-append e (inr (inr (inr (inr (inr (inl h)))))) stem = rw (
  h,
  has_suffix-clash stem (codes ".lz4") (codes ".gz") refl,
  has_suffix-clash stem (codes ".lz4") (codes ".bz2") refl,
  has_suffix-clash stem (codes ".lz4") (codes ".xz") refl,
  has_suffix-clash stem (codes ".lz4") (codes ".lzo") refl,
  has_suffix-append stem (codes ".lz4"),
)
detect-append e (inr (inr (inr (inr (inr (inr h)))))) stem = elim h [ ]

-- The guess falls on a method only where the test of its suffix succeeds.
detect-has_suffix :
    (f : Bytes) (e : Entry)
    → Listed e known_types
    → wandio_detect_compression_type f ≡ e.compress_type
    → has_suffix f (b'.' ∷ e.ext) ≡ true
unfolding wandio_detect_compression_type
detect-has_suffix f e (inl h) d = ground arith
detect-has_suffix f e (inr (inl h)) d = ground arith
detect-has_suffix f e (inr (inr (inl h))) d = ground arith
detect-has_suffix f e (inr (inr (inr (inl h)))) d = ground arith
detect-has_suffix f e (inr (inr (inr (inr (inl h))))) d = ground arith
detect-has_suffix f e (inr (inr (inr (inr (inr (inl h)))))) d = ground arith
detect-has_suffix f e (inr (inr (inr (inr (inr (inr h)))))) d = elim h [ ]

-- A file name is taken for a method's exactly if it ends in a dot and the extension that the table
-- has for the method.
pub detect_iff :
    (f : Bytes) (e : Entry)
    → Listed e known_types
    → (wandio_detect_compression_type f ≡ e.compress_type) ↔ EndsWith f (b'.' ∷ e.ext)
detect_iff f e l = (
  λ d. has_suffix-EndsWith f (b'.' ∷ e.ext) (detect-has_suffix f e l d),
  λ (stem, is). ap wandio_detect_compression_type is ∙ detect-append e l stem,
)
