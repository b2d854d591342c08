-- ===== src/Compression/Name.antt =====
-- The lookup by name.
use wandio.Base.{
  ◌≡◌, ◌≢◌, ◌∙◌, sym, subst, ap, refl, inl, inr, ◌↔◌, false, Bool-cases, List, [], ◌∷◌, ◌++◌, some,
  Bytes, codes, str_eq, str_eq_iff, arith,
}
use wandio.Compression.{
  Method, none_method, zlib, bz2, lzo, lzma, zstd, lz4, Entry, known_types, none_type,
  compression_type, ctype_name, name_from, wandio_lookup_compression_type, lookup_from,
}
use wandio.Compression.Suffix.{Listed}

-- what the loop finds is listed, has the name, and is not the last entry
found_from :
    (es : List Entry) (name : Bytes) (e : Entry)
    → lookup_from es name ≡ some e
    → Listed e es × (e.name ≡ name) × (str_eq e.name (codes "NONE") ≡ false)
unfolding lookup_from
found_from [] name e h = cc
found_from (x ∷ es) name e h = elim (Bool-cases (str_eq x.name (codes "NONE"))) [
  | inl last ↦ absurd (ground arith)
  | inr going ↦ elim (Bool-cases (str_eq x.name name)) [
    | inl hit ↦
        let same : x ≡ e = ground arith in
        (
          inl (sym same),
          ap Entry.name (sym same) ∙ (str_eq_iff x.name name).0 hit,
          subst (λ (y : Entry). str_eq y.name (codes "NONE") ≡ false) same going,
        )
    | inr miss ↦ let rest = found_from es name e (ground arith) in (inr rest.0, rest.1, rest.2)
  ]
]

Listed-known :
    (e : Entry) (es : List Entry)
    → Listed e (es ++ none_type ∷ [])
    → str_eq e.name (codes "NONE") ≡ false
    → Listed e es
Listed-known e [] (inl h) named = absurd (ground arith)
Listed-known e [] (inr h) named = h
Listed-known e (x ∷ es) (inl h) named = inl h
Listed-known e (x ∷ es) (inr h) named = inr (Listed-known e es h named)

lookup-name : (e : Entry) → Listed e known_types → wandio_lookup_compression_type e.name ≡ some e
unfolding wandio_lookup_compression_type lookup_from
lookup-name e (inl h) = rw h
lookup-name e (inr (inl h)) = rw h
lookup-name e (inr (inr (inl h))) = rw h
lookup-name e (inr (inr (inr (inl h)))) = rw h
lookup-name e (inr (inr (inr (inr (inl h))))) = rw h
lookup-name e (inr (inr (inr (inr (inr (inl h)))))) = rw h
lookup-name e (inr (inr (inr (inr (inr (inr h)))))) = elim h [ ]

-- Looking up a name finds exactly the table's entry of that name. The name NONE finds none.
pub lookup_iff :
    (name : Bytes) (e : Entry)
    → (wandio_lookup_compression_type name ≡ some e) ↔ (Listed e known_types × (e.name ≡ name))
unfolding wandio_lookup_compression_type
lookup_iff name e = (
  λ h. let f = found_from compression_type name e h in (Listed-known e known_types f.0 f.2, f.1),
  λ (l, n). rw (← n) (lookup-name e l),
)

-- The name that the library prints for a method is found again, as that method's entry.
pub lookup-ctype_name :
    (m : Method)
    → m ≢ none_method
    → (e : Entry) × (wandio_lookup_compression_type (ctype_name m) ≡ some e) × (e.compress_type ≡ m)
unfolding wandio_lookup_compression_type lookup_from ctype_name name_from
lookup-ctype_name none_method h = absurd (h refl)
lookup-ctype_name zlib h = (_, refl, refl)
lookup-ctype_name bz2 h = (_, refl, refl)
lookup-ctype_name lzo h = (_, refl, refl)
lookup-ctype_name lzma h = (_, refl, refl)
lookup-ctype_name zstd h = (_, refl, refl)
lookup-ctype_name lz4 h = (_, refl, refl)
