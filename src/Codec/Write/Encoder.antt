-- ===== src/Codec/Write/Encoder.antt =====
-- What the writers rely on of a compression library, as its documentation has it: a call with input
-- and room reports no error and goes on until the input is used or the room is full, and the output
-- has a bound.
use wandio.Base.{ℕ, ◌+◌, ◌≤◌, ◌<◌, ◌≡◌, ◌⊎◌, [], ◌++◌, length, take, drop, Bytes}
use wandio.Codec.{Code, code_ok, Call}

-- `fed e` is the input that an encoder in the state `e` has used so far, `emitted e` the output that
-- it has made, and `bound e x` limits what it makes of more input `x`.
module _ {E : Type 0} (fed emitted : E → Bytes) (bound : E → Bytes → ℕ) where
  pub record IsEncoder (encode : E → Bytes → ℕ → Call E Code) : Type 0 where
    pub takes : (e : E) (input : Bytes) (room : ℕ) → (encode e input room).used ≤ length input
    pub fits : (e : E) (input : Bytes) (room : ℕ) → length (encode e input room).made ≤ room
    pub feeds :
        (e : E) (input : Bytes) (room : ℕ)
        → let c = encode e input room in fed c.next ≡ fed e ++ take c.used input
    pub emits :
        (e : E) (input : Bytes) (room : ℕ)
        → let c = encode e input room in emitted c.next ≡ emitted e ++ c.made
    pub runs :
        (e : E) (input : Bytes) (room : ℕ)
        → 0 < length input
        → 0 < room
        → (encode e input room).code ≡ code_ok
    pub works :
        (e : E) (input : Bytes) (room : ℕ)
        → 0 < length input
        → 0 < room
        → let c = encode e input room in (drop c.used input ≡ []) ⊎ (length c.made ≡ room)
    pub bounded :
        (e : E) (input : Bytes) (room : ℕ)
        → let c = encode e input room in
          length c.made + bound c.next (drop c.used input) ≤ bound e input
