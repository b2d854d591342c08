-- ===== src/ThreadReader/End.antt =====
-- When `thread_read` reports the end of the input, under every interleaving of the two threads.
use wandio.Base.{
  ℕ, zero, suc, ◌+◌, ◌<◌, ◌≡◌, ◌∙◌, sym, subst, ap, ap₂, refl, Bool, true, false, [], ◌++◌,
  append-nil, Option, none, some, take, drop, drop-nil, if◌then◌else◌, ℤ, pos, negsuc, Bytes,
}
use wandio.Reader.{Reply}
use wandio.Reader.Contract.{IsReader}
use wandio.ThreadReader.{
  Slot, Producer, waiting, reading, publishing, exited, Consumer, outside, wanting, Threads,
  is_positive, thread_open, next_slice, consume, Reach,
}
use wandio.ThreadReader.Ring.{Ring-head}
use wandio.ThreadReader.Queue.{count, data_of, queued, lead, flight}
use wandio.ThreadReader.Inv.{Inv, is_end, Stopped, Ended}
use wandio.ThreadReader.Order.{opened, Reach-Keep}
use mathlib.Core.Bool.{false≢true}

is_end-is_positive : (z : ℤ) → is_end z ≡ true → is_positive z ≡ false
is_end-is_positive (pos zero) e = refl
is_end-is_positive (pos (suc k)) e = absurd (false≢true e)
is_end-is_positive (negsuc k) e = refl

no_data : (z : ℤ) (sp : Bytes) → is_end z ≡ true → take (count z) sp ≡ []
no_data (pos zero) sp e = refl
no_data (pos (suc k)) sp e = absurd (false≢true e)
no_data (negsuc k) sp e = refl

no_flight : (sl : ℕ → Slot) (p : Producer) → Stopped p → flight sl p ≡ []
no_flight sl (waiting b) h = refl
no_flight sl (reading b) h = refl
no_flight sl (publishing b) h = absurd h
no_flight sl exited h = refl

-- whether a call has just returned 0
abbrev at_end : Consumer → Bool
at_end (outside z) = is_end z
at_end c = false

abbrev ends : {S : Type 0} → Option (Threads S) → Bool
ends none = false
ends (some t) = at_end t.consumer

module _ {S : Type 0} (Valid : S → Type 0) (rest : S → Bytes) (read : S → ℕ → ℕ → Reply S) (n : ℕ)
    (some_buffer : 0 < n) where
  -- all of the input has been handed out when the buffer to be read next is one of length 0
  given_all :
      (input : Bytes) (t : Threads S) (p : Producer) (c : Consumer)
      → Inv Valid rest n input t p c
      → (t.slots t.in_buffer).full ≡ true
      → is_end (t.slots t.in_buffer).len ≡ true
      → t.given ≡ input
  given_all input t p c i full over =
      let (x, q, e, here) =
        Ring-head n i.r i.q t.slots some_buffer (subst (λ j. (t.slots j).full ≡ true) i.at full)
          i.ring in
      let is_last : is_end x.len ≡ true =
        subst (λ s. is_end s.len ≡ true) (ap t.slots i.at ∙ here) over in
      let ended =
        (subst (λ z. Ended rest z p t.child) e i.last).0 (is_end-is_positive x.len is_last) in
      let none_queued : queued i.q ≡ [] =
        ap queued e
        ∙ ap (λ z. data_of x ++ queued z) ended.0
        ∙ ap (λ z. z ++ []) (no_data x.len x.space is_last) in
      let tail : drop (t.offset + lead c) (queued i.q) ++ (flight t.slots p ++ rest t.child) ≡ [] =
        ap₂ (λ y z. y ++ z) (drop-nil (t.offset + lead c) none_queued)
          (ap₂ (λ y z. y ++ z) (no_flight t.slots p ended.1) (ended.2 is_last)) in
      sym (i.whole ∙ ap (λ z. t.given ++ z) tail ∙ append-nil t.given)

  found_end :
      (t : Threads S) (len : ℕ) (v : ℤ)
      → ends (some (next_slice read n t len 0 v)) ≡ true
      → is_end v ≡ true
  unfolding next_slice
  found_end t len (pos zero) e = refl
  found_end t len (pos (suc k)) e = absurd (false≢true e)
  found_end t len (negsuc k) e = absurd (false≢true e)

  asked :
      (input : Bytes) (t : Threads S) (p : Producer) (len : ℕ) (z : Bool)
      → Inv Valid rest n input t p (wanting (suc len) 0)
      → (t.slots t.in_buffer).full ≡ z
      → ends (if z then some (next_slice read n t (suc len) 0 (t.slots t.in_buffer).len) else none)
        ≡ true
      → t.given ≡ input
  asked input t p len true i full e =
      given_all input t p (wanting (suc len) 0) i full
        (found_end t (suc len) (t.slots t.in_buffer).len e)
  asked input t p len false i full e = absurd (false≢true e)

  reported :
      (input : Bytes) (t : Threads S) (p : Producer) (len : ℕ)
      → Inv Valid rest n input t p (wanting (suc len) 0)
      → ends (consume read n t (wanting (suc len) 0)) ≡ true
      → t.given ≡ input
  unfolding consume
  reported input t p len i e = asked input t p len (t.slots t.in_buffer).full i refl e

-- Over a child that keeps the reader contract and with at least one buffer, whatever the interleaving:
-- where a call of `thread_read` that asks for a byte and has none yet returns 0, the calls have
-- stored all of the child's input.
pub end_of_input :
    {S : Type 0} (Valid : S → Type 0) (rest : S → Bytes) (read : S → ℕ → ℕ → Reply S) (n : ℕ)
    → IsReader Valid rest read
    → 0 < n
    → (c : S) → Valid c
    → (t t' : Threads S) (len : ℕ) → Reach read n (thread_open c) t
    → t.consumer ≡ wanting (suc len) 0
    → consume read n t t.consumer ≡ some t'
    → t'.consumer ≡ outside (pos 0)
    → t.given ≡ rest c
end_of_input Valid rest read n reads some_buffer c v t t' len reached asks step ended =
    let i =
      Reach-Keep Valid rest read n reads some_buffer (rest c) (thread_open c) t
        (opened Valid rest read n reads some_buffer (rest c) c v refl) reached in
    reported Valid rest read n some_buffer (rest c) t t.producer len
      (subst (Inv Valid rest n (rest c) t t.producer) asks i)
      (ap (λ k. ends (consume read n t k)) (sym asks) ∙ ap ends step ∙ ap at_end ended)
