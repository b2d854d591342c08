-- ===== src/ThreadReader/Produce.antt =====
-- The steps of the reading thread keep the invariant.
use wandio.Base.{
  put_same, put, ℕ, suc, ◌+◌, ◌%◌, ◌≤◌, ◌<◌, ◌≡◌, ◌∙◌, sym, subst, ap, refl, inl, inr, Bool, true,
  false, List, [], ◌∷◌, ◌++◌, append_assoc, Option, none, some, length, length-append, take, drop,
  blit, lt-or-le, take-append, drop-append_le, if◌then◌else◌, ℤ, pos, negsuc, Bytes, arith,
  append-eq-nil, zero,
}
use wandio.Reader.{Reply, ret, stuck}
use wandio.Reader.Contract.{Served, IsReader}
use wandio.ThreadReader.{
  Slot, Producer, waiting, reading, publishing, exited, Consumer, Threads, slot_size, is_positive,
  store_reply, publish, produce,
}
use wandio.ThreadReader.Ring.{Ring, Ring-write, Ring-publish}
use mathlib.Core.Bool.{false≢true}
use native.Mathlib.Nat.{suc-mod, add-mod_right}
use wandio.ThreadReader.Queue.{
  count, data_of, queued, Sound, claim, lead, flight, queued-append, AllSound-append, reach-append,
  Busy-append,
}
use wandio.ThreadReader.Inv.{
  Turn, Inv, Kept, if-Kept, offset_bound, is_end, Owed, running-Ended, append-Ended,
}

module _ {S : Type 0} (Valid : S → Type 0) (rest : S → Bytes) (read : S → ℕ → ℕ → Reply S) (n : ℕ)
    (reads : IsReader Valid rest read) (some_buffer : 0 < n) (input : Bytes) where
  abbrev Now : Threads S → Producer → Consumer → Type 0
  Now = Inv Valid rest n input

  abbrev Keep : Option (Threads S) → Type 0
  Keep = Kept Valid rest n input

  -- the buffer that the producer is at is EMPTY
  not_full :
      (r : ℕ) (q : List Slot) (sl : ℕ → Slot) (b : ℕ)
      → b ≡ (r + length q) % n
      → length q < n
      → Ring n r q sl
      → (sl b).full ≡ false
  not_full r q sl b e room ring =
      subst (λ j. (sl j).full ≡ false) (sym e)
        (ring.free (r + length q) (omega arith) (omega arith))

  -- the child's reply makes up what its input loses
  reply_data :
      (v : ℤ) (bytes : Bytes) (s c : S) (sp : Bytes)
      → Served Valid rest s slot_size (ret v bytes c)
      → (rest s ≡ take (count v) (blit sp 0 bytes) ++ rest c)
        × (count v ≤ length (blit sp 0 bytes))
        × Valid c
  reply_data (pos k) bytes s c sp (size, fits, next, at_end, v) =
      let old = drop (0 + length bytes) sp in
      let e : take k (bytes ++ old) ≡ bytes =
        ap (λ j. take j (bytes ++ old)) size ∙ take-append bytes old in
      (next ∙ ap (λ z. z ++ rest c) (sym e), omega (arith, length-append bytes old), v)
  reply_data (negsuc e) bytes s c sp (few, same, v) = (sym same, omega arith, v)

  -- a reply of 0 bytes comes at the end of the child's input
  reply_end :
      (v : ℤ) (bytes : Bytes) (s c : S)
      → Served Valid rest s slot_size (ret v bytes c)
      → is_end v ≡ true
      → rest c ≡ []
  reply_end (pos zero) bytes s c (size, fits, next, at_end, v) e =
      append-eq-nil bytes (rest c) size (sym next ∙ at_end refl (omega arith))
  reply_end (pos (suc k)) bytes s c h e = absurd (false≢true e)
  reply_end (negsuc k) bytes s c h e = absurd (false≢true e)

  store_reply-Kept :
      (t : Threads S) (b : ℕ) (reply : Reply S)
      → Now t (reading b) t.consumer
      → Served Valid rest t.child slot_size reply
      → Keep (store_reply read n t b reply)
  unfolding store_reply
  store_reply-Kept t b stuck i h = tt
  store_reply-Kept t b (ret v bytes c) i h =
      let s = t.slots b in
      let x : Slot = record s { space = blit s.space 0 bytes; len = v } in
      let (e, room) = i.turn in
      let (next, ok, good) = reply_data v bytes t.child c s.space h in
      let same : put t.slots b x b ≡ x = put_same t.slots b x in
      record {
        r = i.r;
        q = i.q;
        at = i.at;
        ring =
            subst (λ j. Ring n i.r i.q (put t.slots j x)) (sym e)
              (Ring-write n i.r i.q t.slots x room (not_full i.r i.q t.slots b e room i.ring)
                i.ring);
        sound = i.sound;
        turn = (e, room, subst Sound (sym same) ok);
        within = i.within;
        busy = i.busy;
        last =
            running-Ended rest i.q (reading b) (publishing b) t.child c (λ stopped. stopped) i.last;
        owed =
            subst (λ z. is_end z.len ≡ true → rest c ≡ []) (sym same)
              (reply_end v bytes t.child c h);
        child = good;
        whole =
            subst
              (λ z.
                input
                ≡ t.given
                  ++ (drop (t.offset + lead t.consumer) (queued i.q) ++ (data_of z ++ rest c)))
              (sym same)
              (i.whole
                ∙ ap (λ z. t.given ++ (drop (t.offset + lead t.consumer) (queued i.q) ++ z)) next);
      }

  next-Turn :
      (z : Bool) (r : ℕ) (q : List Slot) (x : Slot) (sl : ℕ → Slot) (b : ℕ)
      → b ≡ (r + length q) % n
      → Turn n r (q ++ x ∷ []) sl (if z then waiting (suc b % n) else exited)
  next-Turn true r q x sl b e =
      ap (λ j. suc j % n) e
      ∙ sym (suc-mod (r + length q) n)
      ∙ ap (λ j. j % n) (omega (arith, length-append q (x ∷ [])))
  next-Turn false r q x sl b e = tt

  flight_next :
      (z : Bool) (sl : ℕ → Slot) (b : ℕ)
      → flight sl (if z then waiting (suc b % n) else exited) ≡ []
  flight_next true sl b = refl
  flight_next false sl b = refl

  next-Owed :
      (z : Bool) (sl : ℕ → Slot) (b : ℕ) (c : S)
      → Owed rest sl (if z then waiting (suc b % n) else exited) c
  next-Owed true sl b c = tt
  next-Owed false sl b c = tt

  publish-Kept :
      (t : Threads S) (b : ℕ) → Now t (publishing b) t.consumer → Keep (some (publish read n t b))
  unfolding publish
  publish-Kept t b i =
      let s = t.slots b in
      let x : Slot = record s { full = true } in
      let (e, room, ok) = i.turn in
      let o = t.offset + lead t.consumer in
      let moved_on : drop o (queued i.q) ++ (data_of s ++ rest t.child)
          ≡ drop o (queued (i.q ++ x ∷ [])) ++ ([] ++ rest t.child) =
        sym (append_assoc (drop o (queued i.q)) (data_of s) (rest t.child))
        ∙ ap (λ z. z ++ rest t.child)
            (sym (
                drop-append_le o (queued i.q) (data_of s)
                  (offset_bound t t.consumer i.q i.within i.sound))
              ∙ ap (drop o) (sym (queued-append i.q x))) in
      record {
        r = i.r;
        q = i.q ++ x ∷ [];
        at = i.at;
        ring =
            subst (λ j. Ring n i.r (i.q ++ x ∷ []) (put t.slots j x)) (sym e)
              (Ring-publish n i.r i.q t.slots x room refl i.ring);
        sound = AllSound-append i.q x ok i.sound;
        turn = next-Turn (is_positive s.len) i.r i.q x (put t.slots b x) b e;
        within = reach-append i.q x (t.offset + claim t.consumer) i.within;
        busy = Busy-append t.consumer i.q x i.busy;
        last =
            append-Ended rest i.q x (publishing b) (waiting (suc b % n)) t.child
              (λ stopped. stopped) i.owed i.last;
        owed = next-Owed (is_positive s.len) (put t.slots b x) b t.child;
        child = i.child;
        whole =
            subst (λ z. input ≡ t.given ++ (drop o (queued (i.q ++ x ∷ [])) ++ (z ++ rest t.child)))
              (sym (flight_next (is_positive s.len) (put t.slots b x) b))
              (i.whole ∙ ap (λ z. t.given ++ z) moved_on);
      }

  -- where the buffer that the producer is at is EMPTY, the queue does not fill the ring
  has_room :
      (r : ℕ) (q : List Slot) (sl : ℕ → Slot) (b : ℕ)
      → b ≡ (r + length q) % n
      → (sl b).full ≡ false
      → Ring n r q sl
      → length q < n
  has_room r [] sl b e empty ring = some_buffer
  has_room r (x ∷ q) sl b e empty ring = elim (lt-or-le (suc (length q)) n) [
    | inl room ↦ room
    | inr packed ↦
        let few : suc (length q) ≤ n = ring.few in
        let all : suc (length q) ≡ n = omega arith in
        let back : b ≡ r % n = e ∙ ap (λ j. (r + j) % n) all ∙ add-mod_right r n in
        absurd (
          false≢true
            (sym empty ∙ ap (λ j. (sl j).full) back ∙ ap (λ s. s.full) ring.holds.0 ∙ ring.holds.1))
  ]

  pub produce-Kept : (t : Threads S) (p : Producer) → Now t p t.consumer → Keep (produce read n t p)
  unfolding produce
  produce-Kept t (waiting b) i =
      if-Kept Valid rest n input t.closing (some (record t { producer = exited }))
        (if (t.slots b).full then none else some (record t { producer = reading b }))
        (λ over. record {
          r = i.r;
          q = i.q;
          at = i.at;
          ring = i.ring;
          sound = i.sound;
          turn = tt;
          within = i.within;
          busy = i.busy;
          last =
              running-Ended rest i.q (waiting b) exited t.child t.child (λ stopped. stopped) i.last;
          owed = tt;
          child = i.child;
          whole = i.whole;
        })
        (λ on.
          if-Kept Valid rest n input (t.slots b).full none
            (some (record t { producer = reading b })) (λ full. tt)
            (λ empty. record {
              r = i.r;
              q = i.q;
              at = i.at;
              ring = i.ring;
              sound = i.sound;
              turn = (i.turn, has_room i.r i.q t.slots b i.turn empty i.ring);
              within = i.within;
              busy = i.busy;
              last =
                  running-Ended rest i.q (waiting b) (reading b) t.child t.child
                    (λ stopped. stopped) i.last;
              owed = tt;
              child = i.child;
              whole = i.whole;
            }))
  produce-Kept t (reading b) i =
      store_reply-Kept t b (read t.child 0 slot_size) i (reads.serves t.child 0 slot_size i.child)
  produce-Kept t (publishing b) i = publish-Kept t b i
  produce-Kept t exited i = tt
