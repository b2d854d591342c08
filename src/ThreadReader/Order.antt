-- ===== src/ThreadReader/Order.antt =====
-- The bytes that `thread_read` hands out, under every interleaving of the two threads.
use wandio.Base.{ℕ, ◌+◌, ◌<◌, ◌≡◌, sym, subst, refl, [], ◌++◌, Option, drop, pos, Bytes, arith}
use wandio.Reader.{Reply}
use wandio.Reader.Contract.{IsReader}
use wandio.ThreadReader.{
  Producer, waiting, Consumer, outside, wanting, Threads, thread_open, Step, by_producer,
  by_consumer, call, close, Reach, start, after,
}
use native.Mathlib.Nat.{zero-mod}
use wandio.ThreadReader.Queue.{queued, lead, flight}
use wandio.ThreadReader.Inv.{Inv, Kept}
use wandio.ThreadReader.Produce.{produce-Kept}
use wandio.ThreadReader.Consume.{consume-Kept, leave}

module _ {S : Type 0} (Valid : S → Type 0) (rest : S → Bytes) (read : S → ℕ → ℕ → Reply S) (n : ℕ)
    (reads : IsReader Valid rest read) (some_buffer : 0 < n) (input : Bytes) where
  abbrev Now : Threads S → Producer → Consumer → Type 0
  Now = Inv Valid rest n input

  abbrev Keep : Option (Threads S) → Type 0
  Keep = Kept Valid rest n input

  Step-Keep :
      (t t' : Threads S)
      → Step read n t t'
      → Now t t.producer t.consumer
      → Now t' t'.producer t'.consumer
  Step-Keep _ _ (by_producer t t' e) i =
      subst Keep e (produce-Kept Valid rest read n reads some_buffer input t t.producer i)
  Step-Keep _ _ (by_consumer t t' e) i =
      subst Keep e (consume-Kept Valid rest read n reads some_buffer input t t.consumer i)
  Step-Keep _ _ (call t v len e) i =
      let o = subst (Now t t.producer) e i in
      leave Valid rest read n reads some_buffer input t (outside v) (wanting len 0) o o.within tt
        refl
  Step-Keep _ _ (close t v e) i = record {
    r = i.r;
    q = i.q;
    at = i.at;
    ring = i.ring;
    sound = i.sound;
    turn = i.turn;
    within = i.within;
    busy = i.busy;
    last = i.last;
    owed = i.owed;
    child = i.child;
    whole = i.whole;
  }

  pub Reach-Keep :
      (from t : Threads S)
      → Now from from.producer from.consumer
      → Reach read n from t
      → Now t t.producer t.consumer
  Reach-Keep _ _ i start = i
  Reach-Keep from _ i (after {t} {t'} reached step) =
      Step-Keep t t' step (Reach-Keep from t i reached)

  pub opened :
      (c : S) → Valid c → rest c ≡ input → Now (thread_open c) (waiting 0) (outside (pos 0))
  opened c v e = record {
    r = 0;
    q = [];
    at = sym (zero-mod n);
    ring = record { few = omega arith; holds = tt; free = λ k a b. refl };
    sound = tt;
    turn = sym (zero-mod n);
    within = omega arith;
    busy = tt;
    last = tt;
    owed = tt;
    child = v;
    whole = sym e;
  }

-- Over a child that keeps the reader contract and with at least one buffer, whatever the interleaving
-- of the two threads, of the calls and of the closing: the bytes that the calls of `thread_read` have
-- stored so far are the beginning of the child's input, each byte once and in order.
pub given_in_order :
    {S : Type 0} (Valid : S → Type 0) (rest : S → Bytes) (read : S → ℕ → ℕ → Reply S) (n : ℕ)
    → IsReader Valid rest read
    → 0 < n
    → (c : S) → Valid c
    → (t : Threads S) → Reach read n (thread_open c) t
    → (more : Bytes) × (rest c ≡ t.given ++ more)
given_in_order Valid rest read n reads some_buffer c v t reached =
    let i =
      Reach-Keep Valid rest read n reads some_buffer (rest c) (thread_open c) t
        (opened Valid rest read n reads some_buffer (rest c) c v refl) reached in
    (
      drop (t.offset + lead t.consumer) (queued i.q) ++ (flight t.slots t.producer ++ rest t.child),
      i.whole,
    )
