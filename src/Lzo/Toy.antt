-- ===== src/Lzo/Toy.antt =====
-- A library for the tests, which makes one byte of three zeros at the front.
use wandio.Base.{
  ℕ, zero, suc, ◌+◌, ◌*◌, ◌%◌, ◌^◌, ◌<◌, ◌≡◌, ◌∙◌, ap, sym, refl, [], ◌∷◌, Option, none, some,
  Bytes, arith,
}
use native.Mathlib.Nat.{mod-lt}
use wandio.Lzo.{Lzo, Compressed, lzo_ok, lzo_error}
use wandio.Lzo.Block.{Works}
use wandio.Lzo.Unpack.{Restores}

abbrev squeeze : Bytes → Bytes
squeeze [] = 1 ∷ []
squeeze (suc a ∷ r) = 1 ∷ suc a ∷ r
squeeze (zero ∷ []) = 1 ∷ 0 ∷ []
squeeze (zero ∷ suc b ∷ r) = 1 ∷ 0 ∷ suc b ∷ r
squeeze (zero ∷ zero ∷ []) = 1 ∷ 0 ∷ 0 ∷ []
squeeze (zero ∷ zero ∷ suc c ∷ r) = 1 ∷ 0 ∷ 0 ∷ suc c ∷ r
squeeze (zero ∷ zero ∷ zero ∷ r) = 0 ∷ r

abbrev pub unsqueeze : Bytes → Option Bytes
unsqueeze [] = none
unsqueeze (zero ∷ r) = some (0 ∷ 0 ∷ 0 ∷ r)
unsqueeze (suc n ∷ r) = some r

abbrev pub checksum : Bytes → ℕ
checksum [] = 1
checksum (x ∷ xs) = (x + checksum xs * 3) % 2 ^ 32

abbrev pub toy : Lzo
toy = record { compress = λ b. lzo_ok (squeeze b); adler = checksum; version = 0x20a0 }

pub toy-Works : Works toy
toy-Works = record { compresses = λ b. (squeeze b, refl) }

abbrev bytes_of : Compressed → Bytes
bytes_of (lzo_ok b) = b
bytes_of (lzo_error e) = []

unsqueeze-squeeze : (b : Bytes) → unsqueeze (squeeze b) ≡ some b
unsqueeze-squeeze [] = refl
unsqueeze-squeeze (suc a ∷ r) = refl
unsqueeze-squeeze (zero ∷ []) = refl
unsqueeze-squeeze (zero ∷ suc b ∷ r) = refl
unsqueeze-squeeze (zero ∷ zero ∷ []) = refl
unsqueeze-squeeze (zero ∷ zero ∷ suc c ∷ r) = refl
unsqueeze-squeeze (zero ∷ zero ∷ zero ∷ r) = refl

checksum_small : (b : Bytes) → checksum b < 2 ^ 32
checksum_small [] = omega arith
checksum_small (x ∷ xs) = mod-lt (x + checksum xs * 3) (omega arith)

pub toy-Restores : Restores unsqueeze checksum toy
toy-Restores = record {
  restores = λ b c e. ap unsqueeze (sym (ap bytes_of e)) ∙ unsqueeze-squeeze b;
  same = λ b. refl;
  small = checksum_small;
}
