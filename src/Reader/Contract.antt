-- ===== src/Reader/Contract.antt =====
-- What lib/wandio.h promises of `read`: the amount of bytes read, 0 at the end of the input, a
-- negative value for an error. The bytes are those that come next in the input.
use wandio.Base.{ℕ, ◌≤◌, ◌<◌, ◌≡◌, ◌++◌, [], length, pos, negsuc, Bytes}
use wandio.Reader.{Reply, ret, stuck}

-- A call on state `s` with room for `n` bytes, by a reader whose states `Valid` admits and whose
-- unread input is `rest`.
module _ {S : Type 0} (Valid : S → Type 0) (rest : S → Bytes) where
  abbrev pub Served : S → ℕ → Reply S → Type 0
  Served s n (ret (pos k) bytes s') =
      (k ≡ length bytes)
      × (k ≤ n)
      × (rest s ≡ bytes ++ rest s')
      × (k ≡ 0 → 0 < n → rest s ≡ [])
      × Valid s'
  Served s n (ret (negsuc e) bytes s') = (length bytes ≤ n) × (rest s' ≡ rest s) × Valid s'
  Served s n stuck = ⊥

  pub record IsReader (read : S → ℕ → ℕ → Reply S) : Type 0 where
    pub serves : (s : S) (addr n : ℕ) → Valid s → Served s n (read s addr n)

  -- A peek with `input` to come returns its next bytes and leaves all of it unread.
  abbrev pub Peeked : Bytes → ℕ → Reply S → Type 0
  Peeked input n (ret (pos k) bytes s') =
      (k ≡ length bytes)
      × (k ≤ n)
      × (rest s' ≡ input)
      × ((more : Bytes) × (input ≡ bytes ++ more))
      × (k ≡ 0 → 0 < n → input ≡ [])
      × Valid s'
  Peeked input n (ret (negsuc e) bytes s') = (length bytes ≤ n) × (rest s' ≡ input) × Valid s'
  Peeked input n stuck = ⊥
