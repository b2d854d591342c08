-- ===== src/ThreadWriter/Closing.antt =====
-- The writing thread never waits for ever: no deadlock, and `thread_wclose` comes back.
use wandio.Writer.Contract.{TakesAll, Flushes}
use wandio.Base.{
  ℕ, suc, ◌+◌, ◌*◌, ◌%◌, ◌≤◌, ◌<◌, ◌≡◌, ◌≢◌, ◌∙◌, sym, min, length, take, drop, ◌-◌, subst, ap,
  refl, inl, inr, Bool, true, false, ◌||◌, [], ◌∷◌, append-nil, none, some, lt-or-le, if◌then◌else◌,
  Bytes, arith,
}
use wandio.Writer.{Sink}
use wandio.ThreadWriter.{
  Consumer, waiting, writing, written, exited, Main, outside, wanting, copying, moved, closed,
  Threads, thread_wopen, drain, feed, Reach,
}
use mathlib.Core.Bool.{false≢true}
use wandio.ThreadWriter.Inv.{Open, AtConsumer, Inv}
use wandio.ThreadWriter.Ends.{drain_all, drain_all-Reach, closing-Ends}
use wandio.ThreadWriter.Order.{Reach-Keep}

-- in a call of `thread_wwrite`
abbrev pub InCall : Main → Type 0
InCall (outside v) = ⊥
InCall closed = ⊥
InCall p = Unit

module _ (size m : ℕ) {W : Type 0} (Valid : W → Type 0) (taken : W → Bytes) (io : Sink W)
    (all : TakesAll Valid taken io.write) (flushes : Flushes Valid taken io)
    (some_byte : 0 < size) where
  all_taken :
      (t : Threads W) (c : Consumer)
      → c ≡ exited
      → Inv size m Valid taken t t.main c
      → taken t.child ≡ t.accepted
  all_taken t c e i =
      let j = subst (Inv size m Valid taken t t.main) e i in
      sym (j.whole ∙ append-nil (taken t.child))

  -- Over a fresh child that takes all it is given, with at least one buffer of at least one byte, and
  -- whatever the two threads and the calls have done before: once `thread_wclose` has been called,
  -- the writing thread, of which alone there are steps left, ends within three steps for each buffer and
  -- three more, so that the `pthread_join` comes back; and then the child has taken all bytes that
  -- `thread_wwrite` has taken over.
  pub closing_ends :
      (w : W)
      → Valid w
      → taken w ≡ []
      → (t : Threads W) → Reach io size (suc m) (thread_wopen io size (suc m) w) t
      → t.main ≡ closed
      → (steps : ℕ) × (steps ≤ 3 * suc m + 3)
        × ((drain_all size m io steps t).consumer ≡ exited)
        × (taken (drain_all size m io steps t).child ≡ t.accepted)
  closing_ends w good fresh t reached at =
      let i = Reach-Keep size m Valid taken io all flushes some_byte w good fresh t reached in
      let over = subst (λ p. Inv size m Valid taken t p t.consumer) at i in
      let h = closing-Ends size m io t t.consumer i.r over.main refl i.consumer in
      let t' = drain_all size m io h.steps t in
      let i' =
        Reach-Keep size m Valid taken io all flushes some_byte w good fresh t'
          (drain_all-Reach size m io (thread_wopen io size (suc m) w) t h.steps reached) in
      (h.steps, h.few, h.over, all_taken t' t'.consumer h.over i' ∙ h.same)

  waits : {A : Type 0} (z : Bool) (a : A) → (if z then none else some a) ≡ none → z ≡ true
  waits true a e = refl
  waits false a e = cc e

  idles : {A : Type 0} (z : Bool) (a : A) → (if z then some a else none) ≡ none → z ≡ false
  idles true a e = cc e
  idles false a e = refl

  -- where the main thread finds its buffer FULL, the writing thread does not wait
  not_both :
      (t : Threads W) (copied : ℕ) (bytes : Bytes) (c : Consumer)
      → Inv size m Valid taken t (wanting bytes copied) c
      → (t.slots t.out_buffer).full ≡ true
      → drain io size (suc m) t c ≢ none
  unfolding drain
  not_both t copied bytes c i full = at c i.consumer
    where
      o : Open size m i.r i.w t.slots t.out_buffer t.offset t.closing
      o = i.main.0

      round : (t.slots (i.r % suc m)).full ≡ true
      round = elim (lt-or-le i.w (i.r + suc m)) [
        | inl room ↦ absurd (
            false≢true (
              sym (i.window.free i.w (omega arith) room)
              ∙ ap (λ j. (t.slots j).full) (sym o.at)
              ∙ full))
        | inr packed ↦ (i.window.full i.r (omega arith) (omega arith)).0
      ]

      at :
          (c : Consumer)
          → AtConsumer size m c i.r t.slots t.closing
          → drain io size (suc m) t c ≢ none
      at (waiting b) here idle = absurd (
          false≢true (
            sym (idles ((t.slots b).full || t.closing) (record t { consumer = writing b }) idle)
            ∙ ap (λ z. z || t.closing) (ap (λ j. (t.slots j).full) here ∙ round)))
      at (writing b) here idle = cc idle
      at (written b) here idle = cc idle
      at exited over idle = absurd (false≢true (sym o.running ∙ over))

  stands :
      (t : Threads W) (p : Main) (c : Consumer)
      → InCall p
      → Inv size m Valid taken t p c
      → drain io size (suc m) t c ≡ none
      → feed io size (suc m) t p ≢ none
  unfolding feed
  stands t (outside v) c busy i idle e = absurd busy
  stands t (wanting [] copied) c busy i idle e = cc e
  stands t (wanting (x ∷ xs) copied) c busy i idle e =
      let k = min (size - t.offset) (length (x ∷ xs)) in
      absurd (
        not_both t copied (x ∷ xs) c i
          (waits (t.slots t.out_buffer).full
            (record t { main = copying (take k (x ∷ xs)) (drop k (x ∷ xs)) copied }) e)
          idle)
  stands t (copying slice rest copied) c busy i idle e = cc e
  stands t (moved slice rest copied) c busy i idle e = cc e
  stands t closed c busy i idle e = absurd busy

  -- Over a fresh child that takes all it is given, with at least one buffer of at least one byte: in no
  -- state that is reached do both threads wait while a call of
  -- `thread_wwrite` is under way.
  pub no_deadlock :
      (w : W)
      → Valid w
      → taken w ≡ []
      → (t : Threads W) → Reach io size (suc m) (thread_wopen io size (suc m) w) t
      → InCall t.main
      → drain io size (suc m) t t.consumer ≡ none
      → feed io size (suc m) t t.main ≢ none
  no_deadlock w good fresh t reached busy idle =
      stands t t.main t.consumer busy
        (Reach-Keep size m Valid taken io all flushes some_byte w good fresh t reached) idle
