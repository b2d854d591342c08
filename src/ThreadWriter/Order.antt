-- ===== src/ThreadWriter/Order.antt =====
-- The bytes that the child is given, under every interleaving of the two threads.
use wandio.Writer.Contract.{TakesAll, Flushes}
use wandio.Base.{
  ℕ, suc, ◌<◌, ◌≡◌, ◌∙◌, sym, subst, ap, refl, [], ◌++◌, append-nil, length-replicate, Option, pos,
  Bytes, arith,
}
use wandio.Writer.{Sink}
use wandio.ThreadWriter.{
  Consumer, waiting, Main, outside, Threads, thread_wopen, Step, by_consumer, by_main, write_call,
  flush_call, close_call, Reach, start, after,
}
use native.Mathlib.Nat.{zero-mod}
use wandio.ThreadWriter.Slots.{contents_blank}
use wandio.ThreadWriter.Inv.{Inv, Kept, pending}
use wandio.ThreadWriter.Drain.{drain-Kept}
use wandio.ThreadWriter.Feed.{feed-Kept, thread_wflush-Now, closing-Now, wanting-Now}

module _ (size m : ℕ) {W : Type 0} (Valid : W → Type 0) (taken : W → Bytes) (io : Sink W)
    (all : TakesAll Valid taken io.write) (flushes : Flushes Valid taken io)
    (some_byte : 0 < size) where
  abbrev Now : Threads W → Main → Consumer → Type 0
  Now = Inv size m Valid taken

  abbrev Keep : Option (Threads W) → Type 0
  Keep = Kept size m Valid taken

  Step-Keep :
      (t t' : Threads W)
      → Step io size (suc m) t t'
      → Now t t.main t.consumer
      → Now t' t'.main t'.consumer
  Step-Keep _ _ (by_consumer t t' e) i =
      subst Keep e (drain-Kept size m Valid taken io all flushes t t.consumer i)
  Step-Keep _ _ (by_main t t' e) i = subst Keep e (feed-Kept size m Valid taken io t t.main i)
  Step-Keep _ _ (write_call t v buffer e) i =
      wanting-Now size m Valid taken io t v buffer (subst (λ p. Now t p t.consumer) e i)
  Step-Keep _ _ (flush_call t v e) i =
      thread_wflush-Now size m Valid taken io t v (subst (λ p. Now t p t.consumer) e i)
  Step-Keep _ _ (close_call t v e) i =
      closing-Now size m Valid taken io t v (subst (λ p. Now t p t.consumer) e i)

  opened :
      (w : W)
      → Valid w
      → taken w ≡ []
      → Now (thread_wopen io size (suc m) w) (outside (pos 0)) (waiting 0)
  opened w good fresh = record {
    r = 0;
    w = 0;
    window = record {
      low = omega arith;
      high = omega arith;
      full = λ k a b. absurd (omega arith);
      free = λ k a b. refl;
      blank = λ k a b. refl;
      sized = λ i. length-replicate size 0;
    };
    main = (
      record {
        running = refl;
        at = sym (zero-mod (suc m));
        held = λ room. refl;
        none_held = λ e. refl;
        small = some_byte;
      },
      tt,
    );
    consumer = sym (zero-mod (suc m));
    child = good;
    whole =
        sym fresh
        ∙ sym (append-nil (taken w))
        ∙ ap (λ z. taken w ++ z)
            (sym (
              contents_blank (suc m) (suc m) 0 (thread_wopen io size (suc m) w).slots
                (λ j a b. refl)));
  }

  pub Reach-Keep :
      (w : W)
      → Valid w
      → taken w ≡ []
      → (t : Threads W) → Reach io size (suc m) (thread_wopen io size (suc m) w) t
      → Now t t.main t.consumer
  Reach-Keep w good fresh _ start = opened w good fresh
  Reach-Keep w good fresh _ (after {t} {t'} reached step) =
      Step-Keep t t' step (Reach-Keep w good fresh t reached)

  -- Over a fresh child that takes all it is given, with buffers of at least one byte and at least one
  -- of them, whatever the interleaving of the two threads, of the calls and of the closing: the bytes
  -- that the child has taken are the beginning of those that `thread_wwrite` has taken over, each byte
  -- once and in order.
  pub written_in_order :
      (w : W)
      → Valid w
      → taken w ≡ []
      → (t : Threads W) → Reach io size (suc m) (thread_wopen io size (suc m) w) t
      → (more : Bytes) × (t.accepted ≡ taken t.child ++ more)
  written_in_order w good fresh t reached =
      let i = Reach-Keep w good fresh t reached in (pending size m t.consumer i.r t.slots, i.whole)
