-- ===== src/Codec/Toy.antt =====
-- A compression library for the tests: a byte is stored as its successor, and 0 ends a stream.
use wandio.Base.{
  ℕ, zero, suc, ◌+◌, ◌≤◌, ◌<◌, ◌≡◌, ◌≢◌, ◌∙◌, sym, ap, refl, inl, inr, Bool, true, false, [], ◌∷◌,
  ◌++◌, some, length, length-take, length-drop, lt-or-le, take, drop, drop_of_length_le, Bytes,
  arith,
}
use wandio.Codec.{Code, code_ok, code_end, code_error, Call}
use wandio.Codec.Decoder.{Finds, IsDecoder}
use wandio.Codec.Write.Encoder.{IsEncoder}

-- the text of what is stored, over all streams
abbrev pub text_of : Bytes → Bytes
text_of [] = []
text_of (zero ∷ x) = text_of x
text_of (suc c ∷ x) = c ∷ text_of x

abbrev pub stored : Bytes → Bytes
stored [] = []
stored (c ∷ x) = suc c ∷ stored x

pub text_of-append : (x y : Bytes) → text_of (x ++ y) ≡ text_of x ++ text_of y
text_of-append [] y = refl
text_of-append (zero ∷ x) y = text_of-append x y
text_of-append (suc c ∷ x) y = ap (λ z. c ∷ z) (text_of-append x y)

pub text_of-stored : (x : Bytes) → text_of (stored x) ≡ x
text_of-stored [] = refl
text_of-stored (c ∷ x) = ap (λ z. c ∷ z) (text_of-stored x)

length-stored : (x : Bytes) → length (stored x) ≡ length x
length-stored [] = refl
length-stored (c ∷ x) = ap suc (length-stored x)

-- A decoder is in the midst of a stream, or not.
abbrev pub plain : Bool → Bytes → Bytes
plain d x = text_of x

abbrev pub Complete : Bool → Bytes → Type 0
Complete true [] = ⊥
Complete false [] = Unit
Complete d (zero ∷ x) = Complete false x
Complete d (suc c ∷ x) = Complete true x

abbrev pub decode : Bool → Bytes → ℕ → Call Bool Code
decode d (zero ∷ x) room = record { used = 1; made = []; code = code_end; next = false }
decode d (suc c ∷ x) (suc room) = record { used = 1; made = c ∷ []; code = code_ok; next = true }
decode d x room = record { used = 0; made = []; code = code_error; next = d }

not_empty : (x : Bytes) → Complete true x → x ≢ []
not_empty [] h e = h
not_empty (c ∷ x) h e = absurd (omega (arith, ap length e))

ahead_of : (d : Bool) (c : ℕ) (x : Bytes) → Complete d (suc c ∷ x) → Complete true x
ahead_of true c x h = h
ahead_of false c x h = h

behind_end : (d : Bool) (x : Bytes) → Complete d (zero ∷ x) → Complete false x
behind_end true x h = h
behind_end false x h = h

pub decode-IsDecoder : IsDecoder plain Complete (some false) decode
decode-IsDecoder = record {
  no_more = λ d h. refl;
  takes = takes;
  fits = fits;
  moves = moves;
  finds = finds;
}
  where
    takes : (d : Bool) (input : Bytes) (room : ℕ) → (decode d input room).used ≤ length input
    takes d [] room = omega arith
    takes d (zero ∷ x) room = omega arith
    takes d (suc c ∷ x) zero = omega arith
    takes d (suc c ∷ x) (suc room) = omega arith

    fits : (d : Bool) (input : Bytes) (room : ℕ) → length (decode d input room).made ≤ room
    fits d [] room = omega arith
    fits d (zero ∷ x) room = omega arith
    fits d (suc c ∷ x) zero = omega arith
    fits d (suc c ∷ x) (suc room) = omega arith

    moves :
        (d : Bool) (input more : Bytes) (room : ℕ)
        → Complete d (input ++ more)
        → 0 < length input
        → 0 < room
        → let c = decode d input room in 0 < c.used + length c.made
    moves d [] more room h a b = absurd (omega arith)
    moves d (zero ∷ x) more room h a b = omega arith
    moves d (suc c ∷ x) more zero h a b = absurd (omega arith)
    moves d (suc c ∷ x) more (suc room) h a b = omega arith

    finds :
        (d : Bool) (input more : Bytes) (room : ℕ)
        → Complete d (input ++ more)
        → 0 < length input
        → 0 < room
        → let c = decode d input room in
          Finds plain Complete
            (some false)
            c.code
            c.next
            (plain d (input ++ more))
            c.made
            (drop c.used input ++ more)
    finds d [] more room h a b = absurd (omega arith)
    finds d (zero ∷ x) more room h a b = (behind_end d (x ++ more) h, refl)
    finds d (suc c ∷ x) more zero h a b = absurd (omega arith)
    finds d (suc c ∷ x) more (suc room) h a b =
        let rest = ahead_of d c (x ++ more) h in (rest, not_empty (x ++ more) rest, refl)

-- An encoder is what it has emitted.
abbrev pub emitted : Bytes → Bytes
emitted e = e

abbrev pub encode : Bytes → Bytes → ℕ → Call Bytes Code
encode e input room = record {
  used = length (take room input);
  made = stored (take room input);
  code = code_ok;
  next = e ++ stored (take room input);
}

abbrev pub bound : Bytes → Bytes → ℕ
bound e input = length input

pub encode-IsEncoder : IsEncoder text_of emitted bound encode
encode-IsEncoder = record {
  takes = λ e input room. omega (arith, length-take room input);
  fits = λ e input room. omega (arith, length-stored (take room input), length-take room input);
  feeds = λ e input room.
      text_of-append e (stored (take room input))
      ∙ ap (λ z. text_of e ++ z) (text_of-stored (take room input) ∙ sym (taken_again room input));
  emits = λ e input room. refl;
  runs = λ e input room a b. refl;
  works = λ e input room a b. elim (lt-or-le room (length input)) [
    | inl full ↦ inr (omega (arith, length-stored (take room input), length-take room input))
    | inr all ↦
        inl (
          drop_of_length_le (length (take room input)) input
            (omega (arith, length-take room input)))
  ];
  bounded = λ e input room. omega (
    arith,
    length-stored (take room input),
    length-take room input,
    length-drop (length (take room input)) input,
  );
}
  where
    taken_again : (n : ℕ) (x : Bytes) → take (length (take n x)) x ≡ take n x
    taken_again zero x = refl
    taken_again (suc n) [] = refl
    taken_again (suc n) (c ∷ x) = ap (λ z. c ∷ z) (taken_again n x)
