-- ===== src/Options/Parse.antt =====
-- `parse_env` against splitting the text at its commas.
use wandio.Base.{
  ◌+◌, ◌≤◌, ◌<◌, ◌≡◌, ◌≢◌, inl, inr, List, [], ◌∷◌, ◌++◌, none, some, length, length-append, ltb,
  lt→ltb, le→ltb, ◌==◌, ==_ne, Bool-cases, if◌then◌else◌, ℤ, Bytes, arith, tests,
}
use wandio.Options.{Settings, option_size, do_option, finish, scan, parse_env}

-- The text cut at each comma, the first piece beginning with `held`.
abbrev pub pieces : Bytes → Bytes → List Bytes
pieces held [] = held ∷ []
pieces held (c ∷ text) = if c == b',' then held ∷ pieces [] text else pieces (held ++ c ∷ []) text

abbrev pub Fit : List Bytes → Type 0
Fit [] = Unit
Fit (x ∷ xs) = (length x < option_size) × Fit xs

abbrev pub NoComma : Bytes → Type 0
NoComma [] = Unit
NoComma (c ∷ cs) = (c ≢ b',') × NoComma cs

module _ (atoi : Bytes → ℤ) where
  abbrev pub apply_all : Settings → List Bytes → Settings
  apply_all s [] = s
  apply_all s (x ∷ xs) = apply_all (do_option atoi s x) xs

  Fit-head : (held text : Bytes) → Fit (pieces held text) → length held < option_size
  Fit-head held [] h = h.0
  Fit-head held (c ∷ text) h = elim (Bool-cases (c == b',')) [
    | inl comma ↦ (rw comma at h).0
    | inr more ↦
        omega (arith, Fit-head (held ++ c ∷ []) text (rw more at h), length-append held (c ∷ []))
  ]

  scan-apply_all :
      (s : Settings) (held text : Bytes)
      → Fit (pieces held text)
      → scan atoi s held text ≡ some (apply_all s (pieces held text))
  unfolding scan finish
  scan-apply_all s held [] h = rw (lt→ltb (length held) option_size h.0)
  scan-apply_all s held (c ∷ text) h =
      rw (lt→ltb (length held) option_size (Fit-head held (c ∷ text) h), scan)
        (elim (Bool-cases (c == b',')) [
          | inl comma ↦ rw comma (scan-apply_all (do_option atoi s held) [] text (rw comma at h).1)
          | inr more ↦ rw more (scan-apply_all s (held ++ c ∷ []) text (rw more at h))
        ])

  -- Where every piece of the text between commas has at most 1023 bytes, `parse_env` carries out
  -- the options of the text cut at its commas, first to last.
  pub parse_env-apply_all :
      (s : Settings) (text : Bytes)
      → Fit (pieces [] text)
      → parse_env atoi s (some text) ≡ some (apply_all s (pieces [] text))
  unfolding parse_env
  parse_env-apply_all s text h = scan-apply_all s [] text h

  scan_overrun :
      (s : Settings) (held text rest : Bytes)
      → NoComma text
      → option_size ≤ length held + length text
      → length held ≤ option_size
      → scan atoi s held (text ++ rest) ≡ none
  unfolding scan finish
  scan_overrun s held [] [] plain long few = rw (le→ltb (length held) option_size (omega arith))
  scan_overrun s held [] (c ∷ rest) plain long few =
      rw (le→ltb (length held) option_size (omega arith), scan)
        (rw (le→ltb (length held) option_size (omega arith), finish))
  scan_overrun s held (c ∷ text) rest plain long few =
      elim (Bool-cases (ltb (length held) option_size)) [
        | inl room ↦
            rw (room, scan, ==_ne c b',' plain.0)
              (scan_overrun s (held ++ c ∷ []) text rest plain.1
                (omega (arith, length-append held (c ∷ [])))
                (omega (tests, length-append {0} held (c ∷ []))))
        | inr full ↦ rw (full, scan) (rw (full, finish))
      ]

  -- A text that begins with 1024 bytes or more, none of them a comma, makes `parse_env` write the
  -- final NUL behind its array.
  pub parse_env_overrun :
      (s : Settings) (long rest : Bytes)
      → NoComma long
      → option_size ≤ length long
      → parse_env atoi s (some (long ++ rest)) ≡ none
  unfolding parse_env
  parse_env_overrun s long rest plain h =
      scan_overrun s [] long rest plain (omega arith) (omega arith)
