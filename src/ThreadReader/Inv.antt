-- ===== src/ThreadReader/Inv.antt =====
-- What holds of the two threads at every moment.
use wandio.Base.{
  ℕ, ◌+◌, ◌%◌, ◌≤◌, ◌<◌, ◌≡◌, refl, Bool, true, false, List, [], ◌∷◌, ◌++◌, Option, none, some,
  length, length-append, length-take, drop, if◌then◌else◌, Bytes, arith, ℤ, pos, zero,
}
use wandio.ThreadReader.{
  Slot, Producer, waiting, reading, publishing, exited, Consumer, Threads, is_positive,
}
use wandio.ThreadReader.Ring.{Ring}
use wandio.ThreadReader.Queue.{
  count, data_of, queued, Sound, AllSound, reach, claim, lead, Busy, flight, lead_le,
}

-- where the producer stands with respect to the queue
module _ (n : ℕ) where
  abbrev pub Turn : (r : ℕ) → List Slot → (ℕ → Slot) → Producer → Type 0
  Turn r q sl (waiting b) = b ≡ (r + length q) % n
  Turn r q sl (reading b) = (b ≡ (r + length q) % n) × (length q < n)
  Turn r q sl (publishing b) = (b ≡ (r + length q) % n) × (length q < n) × Sound (sl b)
  Turn r q sl exited = Unit

pub offset_bound :
    {S : Type 0} (t : Threads S) (c : Consumer) (q : List Slot)
    → t.offset + claim c ≤ reach q
    → AllSound q
    → t.offset + lead c ≤ length (queued q)
offset_bound t c [] h s = omega (arith, lead_le c)
offset_bound t c (x ∷ q) h s =
    omega (
      arith,
      lead_le c,
      length-append (data_of x) (queued q),
      length-take (count x.len) x.space,
      s.0,
    )

-- `len == 0`
abbrev pub is_end : ℤ → Bool
is_end (pos zero) = true
is_end z = false

abbrev pub Stopped : Producer → Type 0
Stopped exited = Unit
Stopped p = ⊥

module _ {S : Type 0} (rest : S → Bytes) where
  -- a buffer without data is the last one, and one of an end of the child's input is that
  abbrev pub Ended : List Slot → Producer → S → Type 0
  Ended [] p c = Unit
  Ended (x ∷ q) p c =
      (is_positive x.len ≡ false → (q ≡ []) × Stopped p × (is_end x.len ≡ true → rest c ≡ []))
      × Ended q p c

  abbrev pub Owed : (ℕ → Slot) → Producer → S → Type 0
  Owed sl (publishing b) c = is_end (sl b).len ≡ true → rest c ≡ []
  Owed sl p c = Unit

  -- while the producer runs, no buffer without data is queued
  pub running-Ended :
      (q : List Slot) (p p' : Producer) (c c' : S) → (Stopped p → ⊥) → Ended q p c → Ended q p' c'
  running-Ended [] p p' c c' runs h = tt
  running-Ended (x ∷ q) p p' c c' runs h =
      (λ none_left. absurd (runs (h.0 none_left).1), running-Ended q p p' c c' runs h.1)

  pub append-Ended :
      (q : List Slot) (x : Slot) (p next : Producer) (c : S)
      → (Stopped p → ⊥)
      → (is_end x.len ≡ true → rest c ≡ [])
      → Ended q p c
      → Ended (q ++ x ∷ []) (if is_positive x.len then next else exited) c
  append-Ended [] x p next c runs owed h = (λ none_left. (refl, rw none_left tt, owed), tt)
  append-Ended (y ∷ q) x p next c runs owed h =
      (λ none_left. absurd (runs (h.0 none_left).1), append-Ended q x p next c runs owed h.1)

module _ {S : Type 0} (Valid : S → Type 0) (rest : S → Bytes) (n : ℕ) (input : Bytes) where
  -- The invariant, for the threads at `p` and `c`: the next `length q` buffers are the queue `q`, and
  -- what has been handed out, is queued and is still with the child makes up the input.
  pub record Inv (t : Threads S) (p : Producer) (c : Consumer) : Type 0 where
    pub r : ℕ
    pub q : List Slot
    pub at : t.in_buffer ≡ r % n
    pub ring : Ring n r q t.slots
    pub sound : AllSound q
    pub turn : Turn n r q t.slots p
    pub within : t.offset + claim c ≤ reach q
    pub busy : Busy c q
    pub last : Ended rest q p t.child
    pub owed : Owed rest t.slots p t.child
    pub child : Valid t.child
    pub whole :
        input
        ≡ t.given ++ (drop (t.offset + lead c) (queued q) ++ (flight t.slots p ++ rest t.child))

  abbrev pub Kept : Option (Threads S) → Type 0
  Kept none = Unit
  Kept (some t) = Inv t t.producer t.consumer

  pub if-Kept :
      (z : Bool) (a b : Option (Threads S))
      → (z ≡ true → Kept a)
      → (z ≡ false → Kept b)
      → Kept (if z then a else b)
  if-Kept true a b f g = f refl
  if-Kept false a b f g = g refl
