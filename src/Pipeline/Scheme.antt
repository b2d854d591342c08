-- ===== src/Pipeline/Scheme.antt =====
-- Which file names `create_io_reader` takes for URIs.
use wandio.Base.{
  ℕ, suc, ◌≡◌, ◌∙◌, ◌↔◌, sym, subst, ap, ap₂, refl, inl, inr, true, false, [], ◌∷◌, ◌++◌,
  append_assoc, none, some, take, length, Bool-cases, Option-cases, ◌==◌, ==_refl, Bytes, codes,
  starts_with, take-append, arith,
}
use wandio.Pipeline.{swift_io, Build, World, strstr, all_alnum, is_uri, open_base, open_if}

-- `starts_with` is being a prefix.
starts_with_rest :
    (s word : Bytes) → starts_with s word ≡ true → (rest : Bytes) × (s ≡ word ++ rest)
starts_with_rest s [] h = (s, refl)
starts_with_rest [] (y ∷ ys) h = absurd (ground arith)
starts_with_rest (x ∷ xs) (y ∷ ys) h =
    let (rest, e) = starts_with_rest xs ys (ground arith) in (rest, ground arith)

starts_with-append : (word rest : Bytes) → starts_with (word ++ rest) word ≡ true
starts_with-append [] rest = refl
starts_with-append (y ∷ ys) rest = rw (==_refl y, starts_with-append ys rest)

-- What `strstr` finds is an occurrence, behind as many bytes as it says.
strstr-found :
    (s word : Bytes) (n : ℕ)
    → strstr s word ≡ some n
    → (before : Bytes) × (rest : Bytes) × (s ≡ before ++ (word ++ rest)) × (length before ≡ n)
unfolding strstr
strstr-found [] word n h = elim (Bool-cases (starts_with [] word)) [
  | inl hit ↦ let (rest, e) = starts_with_rest [] word hit in ([], rest, e, ground arith)
  | inr miss ↦ absurd (ground arith)
]
strstr-found (c ∷ s) word n h = elim (Bool-cases (starts_with (c ∷ s) word)) [
  | inl hit ↦ let (rest, e) = starts_with_rest (c ∷ s) word hit in ([], rest, e, ground arith)
  | inr miss ↦ elim (Option-cases (strstr s word)) [
    | inl nowhere ↦ absurd (ground arith)
    | inr (m, there) ↦
        let (before, rest, e, size) = strstr-found s word m there in
        (c ∷ before, rest, ap (λ t. c ∷ t) e, ground arith)
  ]
]

strstr_here : (s word : Bytes) → starts_with s word ≡ true → strstr s word ≡ some 0
unfolding strstr
strstr_here [] word h = rw h
strstr_here (c ∷ s) word h = rw h

strstr_later :
    (c : ℕ) (s word : Bytes)
    → ((n : ℕ) × (strstr s word ≡ some n))
    → (n : ℕ) × (strstr (c ∷ s) word ≡ some n)
unfolding strstr
strstr_later c s word (n, e) = elim (Bool-cases (starts_with (c ∷ s) word)) [
  | inl hit ↦ (0, rw hit)
  | inr miss ↦ (suc n, rw (miss, e))
]

-- An occurrence anywhere is found, or one before it.
strstr-append :
    (before word rest : Bytes) → (n : ℕ) × (strstr (before ++ (word ++ rest)) word ≡ some n)
strstr-append [] word rest = (0, strstr_here (word ++ rest) word (starts_with-append word rest))
strstr-append (c ∷ before) word rest =
    strstr_later c (before ++ (word ++ rest)) word (strstr-append before word rest)

-- The first "://" of a text that begins with letters and digits up to it stands right behind them.
strstr_scheme :
    (p rest : Bytes)
    → all_alnum p ≡ true
    → strstr (p ++ (codes "://" ++ rest)) (codes "://") ≡ some (length p)
unfolding strstr
strstr_scheme [] rest h = refl
strstr_scheme (c ∷ p) rest h =
    let later = strstr_scheme p rest (ground arith) in
    let off : (c == b':') ≡ false = ground arith in rw (off, later)

is_uri_at : (f : Bytes) (n : ℕ) → strstr f (codes "://") ≡ some n → is_uri f ≡ all_alnum (take n f)
unfolding is_uri
is_uri_at f n e = rw (e, is_uri)

is_uri_nowhere : (f : Bytes) → strstr f (codes "://") ≡ none → is_uri f ≡ false
unfolding is_uri
is_uri_nowhere f e = rw (e, is_uri)

-- What a URI is: letters and digits, or nothing, then "://".
abbrev pub HasScheme : Bytes → Type 0
HasScheme f = (p : Bytes) × (rest : Bytes) × (f ≡ p ++ (codes "://" ++ rest)) × (all_alnum p ≡ true)

scheme-is_uri : (p rest : Bytes) → all_alnum p ≡ true → is_uri (p ++ (codes "://" ++ rest)) ≡ true
scheme-is_uri p rest sane =
    is_uri_at (p ++ (codes "://" ++ rest)) (length p) (strstr_scheme p rest sane)
    ∙ ap all_alnum (take-append p (codes "://" ++ rest))
    ∙ sane

is_uri-HasScheme : (f : Bytes) → is_uri f ≡ true → HasScheme f
is_uri-HasScheme f h = elim (Option-cases (strstr f (codes "://"))) [
  | inl nowhere ↦ cc (is_uri_nowhere f nowhere)
  | inr (n, found) ↦
      let (p, rest, e, size) = strstr-found f (codes "://") n found in
      let front : take n f ≡ p = ap₂ take (sym size) e ∙ take-append p (codes "://" ++ rest) in
      (p, rest, e, ap all_alnum (sym front) ∙ sym (is_uri_at f n found) ∙ h)
]

-- A file name is opened as a URI exactly if letters and digits, or nothing, stand before its
-- first "://".
pub is_uri_iff : (f : Bytes) → (is_uri f ≡ true) ↔ HasScheme f
is_uri_iff f = (is_uri-HasScheme f, λ (p, rest, e, sane). ap is_uri e ∙ scheme-is_uri p rest sane)

module _ (b : Build) (w : World) where
  -- With HTTP built in, any URI that holds "swift://" somewhere is opened as a Swift object, also
  -- one whose scheme is another, such as http.
  open_base_swift :
      (p before rest : Bytes)
      → all_alnum p ≡ true
      → b.http ≡ true
      → let f = p ++ (codes "://" ++ (before ++ (codes "swift://" ++ rest))) in
        open_base b w f ≡ open_if (w.opens f) (swift_io f)
  unfolding open_base
  open_base_swift p before rest sane http =
      let tail = before ++ (codes "swift://" ++ rest) in
      let front = p ++ (codes "://" ++ before) in
      let same : front ++ (codes "swift://" ++ rest) ≡ p ++ (codes "://" ++ tail) =
        simp append_assoc in
      let (n, found) = strstr-append front (codes "swift://") rest in
      rw (
        scheme-is_uri p tail sane,
        http,
        subst (λ t. strstr t (codes "swift://") ≡ some n) same found,
      )
