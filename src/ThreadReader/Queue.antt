-- ===== src/ThreadReader/Queue.antt =====
-- The queue of the FULL buffers and what the two threads hold of it.
use wandio.Base.{
  ℕ, ◌≤◌, ◌≡◌, ◌∙◌, sym, ap, List, [], ◌∷◌, ◌++◌, append-nil, append_assoc, length, take, ℤ, pos,
  negsuc, Bytes, arith,
}
use wandio.ThreadReader.{Slot, Producer, publishing, Consumer, outside, wanting, copying, moved}

-- how many bytes of a buffer with this `len` are data
abbrev pub count : ℤ → ℕ
count (pos k) = k
count (negsuc e) = 0

abbrev pub data_of : Slot → Bytes
data_of x = take (count x.len) x.space

abbrev pub queued : List Slot → Bytes
queued [] = []
queued (x ∷ q) = data_of x ++ queued q

abbrev pub Sound : Slot → Type 0
Sound x = count x.len ≤ length x.space

abbrev pub AllSound : List Slot → Type 0
AllSound [] = Unit
AllSound (x ∷ q) = Sound x × AllSound q

-- how far the offset may go
abbrev pub reach : List Slot → ℕ
reach [] = 0
reach (x ∷ q) = count x.len

-- the bytes of the slice under way, and those of it that are already handed out
abbrev pub claim : Consumer → ℕ
claim (copying len copied m) = m
claim (moved len copied m) = m
claim c = 0

abbrev pub lead : Consumer → ℕ
lead (moved len copied m) = m
lead c = 0

-- a slice is only under way in a buffer that is there
abbrev pub Busy : Consumer → List Slot → Type 0
Busy (copying len copied m) [] = ⊥
Busy (moved len copied m) [] = ⊥
Busy c q = Unit

-- the bytes that the child has handed over for a buffer that is not FULL yet
abbrev pub flight : (ℕ → Slot) → Producer → Bytes
flight sl (publishing b) = data_of (sl b)
flight sl p = []

pub lead_le : (c : Consumer) → lead c ≤ claim c
lead_le (outside v) = omega arith
lead_le (wanting a b) = omega arith
lead_le (copying a b m) = omega arith
lead_le (moved a b m) = omega arith

pub queued-append : (q : List Slot) (x : Slot) → queued (q ++ x ∷ []) ≡ queued q ++ data_of x
queued-append [] x = append-nil (data_of x)
queued-append (y ∷ q) x =
    ap (λ z. data_of y ++ z) (queued-append q x)
    ∙ sym (append_assoc (data_of y) (queued q) (data_of x))

pub AllSound-append : (q : List Slot) (x : Slot) → Sound x → AllSound q → AllSound (q ++ x ∷ [])
AllSound-append [] x s h = (s, h)
AllSound-append (y ∷ q) x s h = (h.0, AllSound-append q x s h.1)

pub reach-append : (q : List Slot) (x : Slot) (o : ℕ) → o ≤ reach q → o ≤ reach (q ++ x ∷ [])
reach-append [] x o h = omega arith
reach-append (y ∷ q) x o h = h

pub Busy-append : (c : Consumer) (q : List Slot) (x : Slot) → Busy c q → Busy c (q ++ x ∷ [])
Busy-append (outside v) q x h = tt
Busy-append (wanting a b) q x h = tt
Busy-append (copying a b m) [] x h = tt
Busy-append (copying a b m) (y ∷ q) x h = tt
Busy-append (moved a b m) [] x h = tt
Busy-append (moved a b m) (y ∷ q) x h = tt

pub Busy-moved :
    (len copied m : ℕ) (q : List Slot) → Busy (copying len copied m) q → Busy (moved len copied m) q
Busy-moved len copied m [] h = h
Busy-moved len copied m (x ∷ q) h = tt
