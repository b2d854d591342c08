-- ===== src/ThreadReader/Slices.antt =====
-- The data of the queue, when a slice of it is copied and when a buffer becomes EMPTY.
use wandio.Base.{
  put_same, ℕ, suc, ◌+◌, ◌%◌, ◌≤◌, ◌≡◌, ◌∙◌, sym, subst, ap, refl, inl, inr, false, List, [], ◌∷◌,
  ◌++◌, length, length-take, take, drop, slice, ◌==◌, ==_iff, Bool-cases, take-append_le, take-take,
  drop-drop, drop_of_length_le, take-append-drop, drop-take, drop-append_le, ℤ, Bytes, arith, true,
}
use wandio.ThreadReader.{Slot, Producer, waiting, reading, publishing, exited, copying, put}
use wandio.ThreadReader.Ring.{Ring}
use wandio.ThreadReader.Queue.{count, data_of, queued, Sound, AllSound, reach, Busy, flight}
use wandio.ThreadReader.Inv.{Turn, is_end, Owed}

module _ (n : ℕ) where
  -- a slice of the head buffer's data, and what is queued behind it
  pub slice-queued :
      (x : Slot) (q : List Slot) (o m : ℕ)
      → o + m ≤ count x.len
      → Sound x
      → drop o (queued (x ∷ q)) ≡ slice x.space o m ++ drop (o + m) (queued (x ∷ q))
  slice-queued x q o m h ok =
      let d = queued (x ∷ q) in
      let size : length (data_of x) ≡ count x.len =
        omega (arith, length-take (count x.len) x.space) in
      let front : take (o + m) d ≡ take (o + m) x.space =
        take-append_le (o + m) (data_of x) (queued q) (omega arith)
        ∙ take-take (o + m) (count x.len) x.space h in
      let part : take m (drop o d) ≡ slice x.space o m =
        ap (λ k. take k (drop o d)) (omega arith)
        ∙ sym (drop-take o (o + m) d)
        ∙ ap (drop o) front
        ∙ drop-take o (o + m) x.space
        ∙ ap (λ k. take k (drop o x.space)) (omega arith) in
      sym (take-append-drop m (drop o d))
      ∙ ap (λ z. z ++ drop m (drop o d)) part
      ∙ ap (λ z. slice x.space o m ++ z) (drop-drop o m d)

  -- all of the head buffer's data is read
  pub drop_head :
      (x : Slot) (q : List Slot) (o : ℕ)
      → count x.len ≤ o
      → o ≤ count x.len
      → Sound x
      → drop o (queued (x ∷ q)) ≡ queued q
  drop_head x q o h k ok =
      let size : length (data_of x) ≡ count x.len =
        omega (arith, length-take (count x.len) x.space) in
      drop-append_le o (data_of x) (queued q) (omega arith)
      ∙ ap (λ z. z ++ queued q) (drop_of_length_le o (data_of x) (omega arith))

  -- the `memcpy` moves the next bytes of the queue to the caller
  pub copied_bytes :
      (r : ℕ) (q : List Slot) (sl : ℕ → Slot) (len copied o m : ℕ)
      → Ring n r q sl
      → AllSound q
      → Busy (copying len copied m) q
      → o + m ≤ reach q
      → drop o (queued q) ≡ slice (sl (r % n)).space o m ++ drop (o + m) (queued q)
  copied_bytes r [] sl len copied o m ring ok busy h = absurd busy
  copied_bytes r (x ∷ q) sl len copied o m ring ok busy h =
      slice-queued x q o m h ok.0
      ∙ ap (λ s. slice s.space o m ++ drop (o + m) (queued (x ∷ q))) (sym ring.holds.0)

  -- that a buffer becomes EMPTY leaves the data of all buffers
  pub emptied :
      (P : Bytes → ℤ → Type 0) (sl : ℕ → Slot) (i b : ℕ)
      → P (sl b).space (sl b).len
      → let s = put sl i (record (sl i) { full = false }) b in P s.space s.len
  emptied P sl i b h = elim (Bool-cases (b == i)) [
    | inl same ↦
        let e : b ≡ i = (==_iff b i).0 same in
        subst (λ s. P s.space s.len)
          (sym (
            ap (put sl i (record (sl i) { full = false })) e
            ∙ put_same sl i (record (sl i) { full = false })))
          (subst (λ j. P (sl j).space (sl j).len) e h)
    | inr other ↦ rw (other) h
  ]

  -- the producer's turn, and what it holds, when the head of the queue is gone
  pub popped-Turn :
      (r : ℕ) (x : Slot) (q : List Slot) (sl : ℕ → Slot) (i : ℕ) (p : Producer)
      → Turn n r (x ∷ q) sl p
      → Turn n (suc r) q (put sl i (record (sl i) { full = false })) p
  popped-Turn r x q sl i (waiting b) h = h ∙ ap (λ k. k % n) (omega arith)
  popped-Turn r x q sl i (reading b) h = (h.0 ∙ ap (λ k. k % n) (omega arith), omega (arith, h.1))
  popped-Turn r x q sl i (publishing b) (at, room, ok) = (
    at ∙ ap (λ k. k % n) (omega arith),
    omega arith,
    emptied (λ sp l. count l ≤ length sp) sl i b ok,
  )
  popped-Turn r x q sl i exited h = tt

  pub flight_popped :
      (sl : ℕ → Slot) (i : ℕ) (p : Producer)
      → flight sl p ≡ flight (put sl i (record (sl i) { full = false })) p
  flight_popped sl i (publishing b) =
      emptied (λ sp l. data_of (sl b) ≡ take (count l) sp) sl i b refl
  flight_popped sl i (waiting b) = refl
  flight_popped sl i (reading b) = refl
  flight_popped sl i exited = refl

  pub popped-Owed :
      {S : Type 0} (rest : S → Bytes) (sl : ℕ → Slot) (i : ℕ) (p : Producer) (c : S)
      → Owed rest sl p c
      → Owed rest (put sl i (record (sl i) { full = false })) p c
  popped-Owed rest sl i (publishing b) c h =
      emptied (λ sp l. is_end l ≡ true → rest c ≡ []) sl i b h
  popped-Owed rest sl i (waiting b) c h = tt
  popped-Owed rest sl i (reading b) c h = tt
  popped-Owed rest sl i exited c h = tt
