-- ===== src/ThreadReader/Consume.antt =====
-- The steps of `thread_read` keep the invariant.
use wandio.Base.{
  put, ℕ, zero, suc, ◌+◌, ◌-◌, ◌%◌, ◌≤◌, ◌<◌, ◌≡◌, ◌∙◌, sym, subst, ap, refl, true, false, List, [],
  ◌∷◌, ◌++◌, append_assoc, Option, none, some, min, drop, slice, leb, leb→le, ℤ, pos, negsuc, Bytes,
  arith,
}
use wandio.Reader.{Reply}
use wandio.Reader.Contract.{IsReader}
use wandio.ThreadReader.{
  Slot, Producer, Consumer, outside, wanting, copying, moved, Threads, next_slice, advance, consume,
}
use wandio.ThreadReader.Ring.{Ring, Ring-pop, Ring-head}
use native.Mathlib.Nat.{suc-mod}
use wandio.ThreadReader.Queue.{
  count, queued, AllSound, reach, claim, lead, Busy, flight, Busy-moved,
}
use wandio.ThreadReader.Inv.{Turn, Inv, Kept, if-Kept, Ended}
use wandio.ThreadReader.Slices.{drop_head, copied_bytes, popped-Turn, flight_popped, popped-Owed}

module _ {S : Type 0} (Valid : S → Type 0) (rest : S → Bytes) (read : S → ℕ → ℕ → Reply S) (n : ℕ)
    (reads : IsReader Valid rest read) (some_buffer : 0 < n) (input : Bytes) where
  abbrev Now : Threads S → Producer → Consumer → Type 0
  Now = Inv Valid rest n input

  abbrev Keep : Option (Threads S) → Type 0
  Keep = Kept Valid rest n input

  -- a step of the main thread that reads and stores nothing
  pub leave :
      (t : Threads S) (c c' : Consumer) (i : Now t t.producer c)
      → t.offset + claim c' ≤ reach i.q
      → Busy c' (i.q)
      → lead c ≡ lead c'
      → Now (record t { consumer = c' }) t.producer c'
  leave t c c' i h busy same = record {
    r = i.r;
    q = i.q;
    at = i.at;
    ring = i.ring;
    sound = i.sound;
    turn = i.turn;
    within = h;
    busy = busy;
    last = i.last;
    owed = i.owed;
    child = i.child;
    whole =
        subst
          (λ k.
            input
            ≡ t.given
              ++ (drop (t.offset + k) (queued i.q) ++ (flight t.slots t.producer ++ rest t.child)))
          same i.whole;
  }

  next_slice-Kept :
      (t : Threads S) (len copied : ℕ) (v : ℤ)
      → (i : Now t t.producer (wanting len copied)) → (v ≡ (t.slots t.in_buffer).len)
      → (t.slots t.in_buffer).full ≡ true
      → Keep (some (next_slice read n t len copied v))
  unfolding next_slice
  next_slice-Kept t len zero (negsuc e) i is full =
      leave t (wanting len 0) (outside (negsuc e)) i i.within tt refl
  next_slice-Kept t len (suc copied) (negsuc e) i is full =
      leave t (wanting len (suc copied)) (outside (pos (suc copied))) i i.within tt refl
  next_slice-Kept t len copied (pos zero) i is full =
      leave t (wanting len copied) (outside (pos copied)) i i.within tt refl
  next_slice-Kept t len copied (pos (suc k)) i is full =
      let full_head = subst (λ j. (t.slots j).full ≡ true) i.at full in
      let (x, q, e, here) = Ring-head n i.r i.q t.slots some_buffer full_head i.ring in
      let l : suc k ≡ reach i.q =
        ap count (is ∙ ap (λ j. (t.slots j).len) i.at ∙ ap (λ s. s.len) here) ∙ ap reach (sym e) in
      let c = copying len copied (min (suc k - t.offset) len) in
      leave t (wanting len copied) c i (omega (arith, i.within)) (subst (Busy c) (sym e) tt) refl

  copy-Kept :
      (t : Threads S) (len copied m : ℕ)
      → Now t t.producer (copying len copied m)
      → let s = t.slots t.in_buffer in
        Keep (
          some (record t {
            given = t.given ++ slice s.space t.offset m;
            consumer = moved len copied m;
          }))
  copy-Kept t len copied m i =
      let got = slice (t.slots t.in_buffer).space t.offset m in
      let left = drop (t.offset + m) (queued i.q) in
      let behind = flight t.slots t.producer ++ rest t.child in
      let here : t.offset + 0 ≡ t.offset = omega arith in
      let part : drop t.offset (queued i.q) ≡ got ++ left =
        copied_bytes n i.r i.q t.slots len copied t.offset m i.ring i.sound i.busy i.within
        ∙ ap (λ j. slice (t.slots j).space t.offset m ++ left) (sym i.at) in
      record {
        r = i.r;
        q = i.q;
        at = i.at;
        ring = i.ring;
        sound = i.sound;
        turn = i.turn;
        within = i.within;
        busy = Busy-moved len copied m i.q i.busy;
        last = i.last;
        owed = i.owed;
        child = i.child;
        whole =
            i.whole
            ∙ ap (λ k. t.given ++ (drop k (queued i.q) ++ behind)) here
            ∙ ap (λ z. t.given ++ (z ++ behind)) part
            ∙ ap (λ z. t.given ++ z) (append_assoc got left behind)
            ∙ sym (append_assoc t.given got (left ++ behind));
      }

  -- the head buffer is read to its end
  pop-Kept :
      (t : Threads S) (len copied m : ℕ) (i : Now t t.producer (moved len copied m))
      → count (t.slots t.in_buffer).len ≤ t.offset + m
      → let s = t.slots t.in_buffer in
        Keep (
          some (record t {
            slots = put t.slots t.in_buffer (record s { full = false });
            in_buffer = suc t.in_buffer % n;
            offset = 0;
            consumer = wanting (len - m) (copied + m);
          }))
  pop-Kept t len copied m i h = pop i.q refl
    where
      pop :
          (q : List Slot)
          → i.q ≡ q
          → let s = t.slots t.in_buffer in
            Keep (
              some (record t {
                slots = put t.slots t.in_buffer (record s { full = false });
                in_buffer = suc t.in_buffer % n;
                offset = 0;
                consumer = wanting (len - m) (copied + m);
              }))
      pop [] e = absurd (subst (Busy (moved len copied m)) e i.busy)
      pop (x ∷ q) e =
          let ring = subst (λ z. Ring n i.r z t.slots) e i.ring in
          let y : Slot = record (t.slots t.in_buffer) { full = false } in
          let sound = subst AllSound e i.sound in
          let size : (t.slots t.in_buffer).len ≡ x.len =
            ap (λ j. (t.slots j).len) i.at ∙ ap (λ s. s.len) ring.holds.0 in
          let within : t.offset + m ≤ count x.len =
            subst (λ z. t.offset + m ≤ reach z) e i.within in
          let over : count x.len ≤ t.offset + m = subst (λ z. count z ≤ t.offset + m) size h in
          record {
            r = suc i.r;
            q = q;
            at = ap (λ j. suc j % n) i.at ∙ sym (suc-mod i.r n);
            ring =
                subst (λ j. Ring n (suc i.r) q (put t.slots j y)) (sym i.at)
                  (Ring-pop n i.r x q t.slots y refl ring);
            sound = sound.1;
            turn =
                popped-Turn n i.r x q t.slots t.in_buffer t.producer
                  (subst (λ z. Turn n i.r z t.slots t.producer) e i.turn);
            within = omega arith;
            busy = tt;
            last = (subst (λ z. Ended rest z t.producer t.child) e i.last).1;
            owed = popped-Owed n rest t.slots t.in_buffer t.producer t.child i.owed;
            child = i.child;
            whole =
                i.whole
                ∙ ap
                    (λ z.
                      t.given
                      ++ (drop (t.offset + m) (queued z)
                          ++ (flight t.slots t.producer ++ rest t.child)))
                    e
                ∙ ap (λ z. t.given ++ (z ++ (flight t.slots t.producer ++ rest t.child)))
                    (drop_head n x q (t.offset + m) over within sound.0)
                ∙ ap (λ z. t.given ++ (queued q ++ (z ++ rest t.child)))
                    (flight_popped n t.slots t.in_buffer t.producer);
          }

  advance-Kept :
      (t : Threads S) (len copied m : ℕ) (v : ℤ) (i : Now t t.producer (moved len copied m))
      → v ≡ (t.slots t.in_buffer).len
      → Keep (advance read n t len copied m v)
  unfolding advance
  advance-Kept t len copied m (negsuc e) i is = tt
  advance-Kept t len copied m (pos l) i is =
      let s = t.slots t.in_buffer in
      if-Kept Valid rest n input (leb l (t.offset + m))
        (some (record t {
          slots = put t.slots t.in_buffer (record s { full = false });
          in_buffer = suc t.in_buffer % n;
          offset = 0;
          consumer = wanting (len - m) (copied + m);
        }))
        (some (record t { offset = t.offset + m; consumer = wanting (len - m) (copied + m) }))
        (λ over.
          pop-Kept t len copied m i
            (subst (λ z. count z ≤ t.offset + m) is (leb→le l (t.offset + m) over)))
        (λ more. record {
          r = i.r;
          q = i.q;
          at = i.at;
          ring = i.ring;
          sound = i.sound;
          turn = i.turn;
          within = omega (arith, i.within);
          busy = tt;
          last = i.last;
          owed = i.owed;
          child = i.child;
          whole =
              subst
                (λ k.
                  input
                  ≡ t.given ++ (drop k (queued i.q) ++ (flight t.slots t.producer ++ rest t.child)))
                (let e : t.offset + m ≡ t.offset + m + 0 = omega arith in e) i.whole;
        })

  pub consume-Kept : (t : Threads S) (c : Consumer) → Now t t.producer c → Keep (consume read n t c)
  unfolding consume
  consume-Kept t (outside v) i = tt
  consume-Kept t (wanting zero copied) i =
      leave t (wanting 0 copied) (outside (pos copied)) i i.within tt refl
  consume-Kept t (wanting (suc len) copied) i =
      let s = t.slots t.in_buffer in
      if-Kept Valid rest n input s.full (some (next_slice read n t (suc len) copied s.len)) none
        (next_slice-Kept t (suc len) copied s.len i refl) (λ h. tt)
  consume-Kept t (copying len copied m) i = copy-Kept t len copied m i
  consume-Kept t (moved len copied m) i =
      advance-Kept t len copied m (t.slots t.in_buffer).len i refl
