-- ===== src/Codec/Decoder.antt =====
-- What the readers rely on of a decompression library, as its documentation has it: a call with
-- input and room gets on, and over an input that is complete it reports no error.
use wandio.Base.{ℕ, ◌+◌, ◌≤◌, ◌<◌, ◌≡◌, ◌≢◌, [], ◌++◌, Option, none, some, length, drop, Bytes}
use wandio.Codec.{Code, code_ok, code_end, code_error, Call}

-- `plain d x` is the text of the input `x` for a decoder in the state `d`; `Complete d x` says that
-- `x` is what is left of a file that ends where a stream may end. Behind the end of a stream the
-- caller starts another in the state `restart`, or reads no more.
module _ {D : Type 0} (plain : D → Bytes → Bytes) (Complete : D → Bytes → Type 0) where
  -- behind a call that made `made` of the text `whole` and left the input `x`
  abbrev pub Finds : Option D → Code → D → Bytes → Bytes → Bytes → Type 0
  Finds r code_ok d whole made x = Complete d x × (x ≢ []) × (whole ≡ made ++ plain d x)
  Finds (some d') code_end d whole made x = Complete d' x × (whole ≡ made ++ plain d' x)
  Finds none code_end d whole made x = whole ≡ made
  Finds r code_error d whole made x = ⊥

  pub record IsDecoder (restart : Option D) (decode : D → Bytes → ℕ → Call D Code) : Type 0 where
    pub no_more : (d : D) → Complete d [] → plain d [] ≡ []
    pub takes : (d : D) (input : Bytes) (room : ℕ) → (decode d input room).used ≤ length input
    pub fits : (d : D) (input : Bytes) (room : ℕ) → length (decode d input room).made ≤ room
    pub moves :
        (d : D) (input more : Bytes) (room : ℕ)
        → Complete d (input ++ more)
        → 0 < length input
        → 0 < room
        → let c = decode d input room in 0 < c.used + length c.made
    pub finds :
        (d : D) (input more : Bytes) (room : ℕ)
        → Complete d (input ++ more)
        → 0 < length input
        → 0 < room
        → let c = decode d input room in
          Finds restart c.code c.next (plain d (input ++ more)) c.made (drop c.used input ++ more)
