-- ===== src/Reader/Memory.antt =====
-- A reader of bytes in memory, over which the readers are run, as an instance of the contract.
use wandio.Base.{
  ℕ, ◌≡◌, ◌<◌, refl, sym, [], ◌∷◌, length, take, drop, length-take, take-append-drop, pos, Bytes,
  arith,
}
use wandio.Reader.{Reply, ret}
use wandio.Reader.Contract.{IsReader}

-- a file in memory
unfoldable pub from_memory : Bytes → ℕ → ℕ → Reply Bytes
from_memory s addr n = ret (pos (length (take n s))) (take n s) (drop n s)

empty_of_take : (n : ℕ) (s : Bytes) → length (take n s) ≡ 0 → 0 < n → s ≡ []
empty_of_take n [] h lt = refl
empty_of_take n (x ∷ s) h lt = absurd (omega (arith, length-take n (x ∷ s)))

abbrev pub Any : Bytes → Type 0
Any _ = Unit

abbrev pub all_of : Bytes → Bytes
all_of s = s

pub from_memory-IsReader : IsReader Any all_of from_memory
unfolding from_memory
from_memory-IsReader = record {
  serves = λ s addr n v.
      (refl, omega (arith, length-take n s), sym (take-append-drop n s), empty_of_take n s, tt);
}
