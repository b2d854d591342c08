-- ===== src/Fgets/Tests.antt =====
-- Runs of the line reader over text in memory, and its theorem at such an input.
use wandio.Base.{
  ℕ, ◌≡◌, ◌<◌, refl, sym, true, false, [], ◌∷◌, length, take, drop, length-take, take-append-drop,
  pos, Bytes, codes, arith,
}
use wandio.Reader.{Reply, ret}
use wandio.Reader.Contract.{IsReader}
use wandio.Fgets.{wandio_generic_fgets, fgets_loop, stored_byte}
use wandio.Fgets.Line.{GotLine, fgets-GotLine}

text_read : Bytes → ℕ → ℕ → Reply Bytes
text_read s addr n = ret (pos (length (take n s))) (take n s) (drop n s)

abbrev AnyText : Bytes → Type 0
AnyText _ = Unit

abbrev unread_text : Bytes → Bytes
unread_text s = s

at_end_of : (n : ℕ) (s : Bytes) → length (take n s) ≡ 0 → 0 < n → s ≡ []
at_end_of n [] h lt = refl
at_end_of n (x ∷ s) h lt = absurd (omega (arith, length-take n (x ∷ s)))

text_read-IsReader : IsReader AnyText unread_text text_read
unfolding text_read
text_read-IsReader = record {
  serves = λ s addr n v.
      (refl, omega (arith, length-take n s), sym (take-append-drop n s), at_end_of n s, tt);
}

chomped_run :
    wandio_generic_fgets text_read true (codes "ab\ncd") (pos 10)
    ≡ ret (pos 3) (b'a' ∷ b'b' ∷ 0 ∷ 0 ∷ []) (codes "cd")
unfolding wandio_generic_fgets fgets_loop text_read stored_byte
chomped_run = refl

cut_run :
    wandio_generic_fgets text_read false (codes "abcd") (pos 3)
    ≡ ret (pos 2) (b'a' ∷ b'b' ∷ 0 ∷ []) (codes "cd")
unfolding wandio_generic_fgets fgets_loop text_read stored_byte
cut_run = refl

fgets-GotLine_example :
    GotLine AnyText unread_text text_read true [] 9
      (codes "ab\ncd")
      (wandio_generic_fgets text_read true (codes "ab\ncd") (pos 10))
fgets-GotLine_example =
    fgets-GotLine AnyText unread_text text_read true text_read-IsReader 9 (codes "ab\ncd")
      (omega arith) tt
