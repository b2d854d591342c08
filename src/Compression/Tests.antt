-- ===== src/Compression/Tests.antt =====
-- Runs of the lookups, and the theorems at such inputs.
use wandio.Base.{◌≡◌, ◌↔◌, refl, inl, inr, some, none, codes}
use wandio.Compression.{
  Entry, zlib, lzma, none_method, known_types, wandio_detect_compression_type, has_suffix,
  wandio_lookup_compression_type, ctype_name,
}
use wandio.Compression.Suffix.{EndsWith, Listed, detect_iff}
use wandio.Compression.Name.{lookup_iff, lookup-ctype_name}

abbrev xz_entry : Entry
xz_entry = record { name = codes "lzma"; ext = codes "xz"; compress_type = lzma }

xz_entry-Listed : Listed xz_entry known_types
xz_entry-Listed = inr (inr (inr (inl refl)))

detect_runs :
    (wandio_detect_compression_type (codes "a.tar.gz") ≡ zlib)
    × (wandio_detect_compression_type (codes "gz") ≡ none_method)
unfolding wandio_detect_compression_type has_suffix
detect_runs = (refl, refl)

lookup_none : wandio_lookup_compression_type (codes "NONE") ≡ none
unfolding wandio_lookup_compression_type
lookup_none = refl

detect_iff_example :
    (wandio_detect_compression_type (codes "trace.xz") ≡ lzma)
    ↔ EndsWith (codes "trace.xz") (codes ".xz")
detect_iff_example = detect_iff (codes "trace.xz") xz_entry xz_entry-Listed

lookup_iff_example :
    (wandio_lookup_compression_type (codes "lzma") ≡ some xz_entry)
    ↔ (Listed xz_entry known_types × (codes "lzma" ≡ codes "lzma"))
lookup_iff_example = lookup_iff (codes "lzma") xz_entry

lookup-ctype_name_example :
    (e : Entry) × (wandio_lookup_compression_type (ctype_name lzma) ≡ some e)
    × (e.compress_type ≡ lzma)
lookup-ctype_name_example = lookup-ctype_name lzma (λ e. cc)
