-- ===== src/ThreadWriter/Feed.antt =====
-- The steps of the main thread, and its calls, keep the invariant.
use wandio.Base.{
  ℕ, suc, ◌+◌, ◌-◌, ◌%◌, ◌≤◌, ◌<◌, ◌≡◌, ◌∙◌, sym, subst, ap, refl, inl, inr, Bool, true, false, [],
  ◌∷◌, ◌++◌, Option, none, some, length, length-take, length-blit, take, drop, blit, take-blit,
  take-blit_front, min, put, put_same, lt-or-le, ltb, leb, leb→le, not_leb→lt, ltb→lt,
  if◌then◌else◌, ℤ, pos, Bytes, arith,
}
use wandio.Writer.{Sink}
use wandio.ThreadWriter.{
  Slot, Consumer, Main, outside, wanting, copying, moved, closed, Threads, feed, thread_wflush,
}
use wandio.ThreadWriter.Slots.{data_of}
use wandio.ThreadWriter.Inv.{Window-put, Window-push, Inv, Kept}
use wandio.ThreadWriter.Filled.{
  Open-push, has_room, filled-Now, same-Now, at-Now, AtConsumer-closed,
}

module _ (size m : ℕ) {W : Type 0} (Valid : W → Type 0) (taken : W → Bytes) (io : Sink W) where
  abbrev Now : Threads W → Main → Consumer → Type 0
  Now = Inv size m Valid taken

  abbrev Keep : Option (Threads W) → Type 0
  Keep = Kept size m Valid taken

  -- the `memcpy`
  copied-Now :
      (t : Threads W) (slice rest : Bytes) (copied : ℕ)
      → Now t (copying slice rest copied) t.consumer
      → Keep (feed io size (suc m) t (copying slice rest copied))
  unfolding feed
  copied-Now t slice rest copied i =
      let (o, (room, fits)) = i.main in
      let s = t.slots (i.w % suc m) in
      let x : Slot = record s { space = blit s.space t.offset slice } in
      let long : length s.space ≡ size = i.window.sized (i.w % suc m) in
      let inside : t.offset + length slice ≤ length s.space = omega arith in
      let same : data_of x ≡ data_of s =
        ap (λ z. take z x.space) (o.held room)
        ∙ take-blit_front s.space t.offset slice (omega arith)
        ∙ ap (λ z. take z s.space) (sym (o.held room)) in
      let moved_on : take (t.offset + length slice) x.space ≡ take t.offset x.space ++ slice =
        take-blit s.space t.offset slice (omega arith)
        ∙ ap (λ z. z ++ slice) (sym (take-blit_front s.space t.offset slice (omega arith))) in
      let here : put t.slots (i.w % suc m) x (i.w % suc m) ≡ x = put_same t.slots (i.w % suc m) x in
      subst
        (λ j.
          let y = t.slots j in
          Now
            (record t {
              slots = put t.slots j (record y { space = blit y.space t.offset slice });
              main = moved slice rest copied;
            })
            (moved slice rest copied) t.consumer)
        (sym o.at)
        (same-Now size m Valid taken io t (copying slice rest copied) t.consumer i o i.w t.offset
          t.out_buffer (moved slice rest copied) x room same
          (Window-put size m i.r i.w t.slots x (i.window.free i.w (omega arith) room)
            (length-blit s.space t.offset slice inside ∙ long) room i.window)
          (
            record {
              running = o.running;
              at = o.at;
              held = λ inside. ap (λ z. z.len) here ∙ o.held inside;
              none_held = o.none_held;
              small = o.small;
            },
            (
              room,
              fits,
              subst (λ z. take (t.offset + length slice) z.space ≡ take t.offset z.space ++ slice)
                  (sym here) moved_on,
            ),
          ))

  -- the state behind the update, with `j` for the buffer and `z` for the test that it is filled
  abbrev updated : Threads W → Bytes → Bytes → ℕ → ℕ → Bool → Threads W
  updated t slice rest copied j z =
      let s = t.slots j in
      let s' : Slot = record s { len = s.len + length slice } in
      record t {
        slots = put t.slots j (if z then record s' { full = true; flush = false } else s');
        offset = if z then 0 else t.offset + length slice;
        out_buffer = if z then suc j % suc m else j;
        main = wanting rest (copied + length slice);
        accepted = t.accepted ++ slice;
      }

  data_more :
      (t : Threads W) (slice : Bytes) (s : Slot)
      → take (t.offset + length slice) s.space ≡ take t.offset s.space ++ slice
      → s.len ≡ t.offset
      → take (s.len + length slice) s.space ≡ data_of s ++ slice
  data_more t slice s is len =
      subst (λ k. take (k + length slice) s.space ≡ take k s.space ++ slice) (sym len) is

  updated-Now :
      (t : Threads W) (slice rest : Bytes) (copied : ℕ)
      → (i : Now t (moved slice rest copied) t.consumer) → (z : Bool)
      → leb size (t.offset + length slice) ≡ z
      → Now
          (updated t slice rest copied (i.w % suc m) z)
          (wanting rest (copied + length slice))
          t.consumer
  updated-Now t slice rest copied i true test =
      let (o, (room, fits, is)) = i.main in
      let s = t.slots (i.w % suc m) in
      let x : Slot = record s { len = s.len + length slice; full = true; flush = false } in
      let len : s.len ≡ t.offset = o.held room in
      filled-Now size m Valid taken io t (moved slice rest copied) t.consumer i o (suc i.w) 0
        (suc (i.w % suc m) % suc m) (wanting rest (copied + length slice)) x slice room
        (data_more t slice s is len)
        (Window-push size m i.r i.w t.slots x refl
          (omega (arith, leb→le size (t.offset + length slice) test, o.small))
          (i.window.sized (i.w % suc m)) room i.window)
        (Open-push size m i.r i.w t.slots x t.out_buffer t.offset t.closing room i.window o, tt)
  updated-Now t slice rest copied i false test =
      let (o, (room, fits, is)) = i.main in
      let s = t.slots (i.w % suc m) in
      let x : Slot = record s { len = s.len + length slice } in
      let len : s.len ≡ t.offset = o.held room in
      filled-Now size m Valid taken io t (moved slice rest copied) t.consumer i o i.w
        (t.offset + length slice) (i.w % suc m) (wanting rest (copied + length slice)) x slice room
        (data_more t slice s is len)
        (Window-put size m i.r i.w t.slots x (i.window.free i.w (omega arith) room)
          (i.window.sized (i.w % suc m)) room i.window)
        (
          record {
            running = o.running;
            at = refl;
            held = λ inside.
                ap (λ z. z.len) (put_same t.slots (i.w % suc m) x) ∙ ap (λ k. k + length slice) len;
            none_held = λ e. absurd (omega arith);
            small = not_leb→lt size (t.offset + length slice) test;
          },
          tt,
        )

  pub feed-Kept : (t : Threads W) (p : Main) → Now t p t.consumer → Keep (feed io size (suc m) t p)
  unfolding feed
  feed-Kept t (outside v) i = tt
  feed-Kept t (wanting [] copied) i =
      at-Now size m Valid taken io t (wanting [] copied) (outside (pos copied)) t.consumer i
        (i.main.0, tt)
  feed-Kept t (wanting (x ∷ xs) copied) i = wants (t.slots t.out_buffer).full refl
    where
      k : ℕ
      k = min (size - t.offset) (length (x ∷ xs))

      wants :
          (z : Bool)
          → (t.slots t.out_buffer).full ≡ z
          → Keep (
              if z
              then none
              else some (record t { main = copying (take k (x ∷ xs)) (drop k (x ∷ xs)) copied }))
      wants true e = tt
      wants false e =
          let o = i.main.0 in
          at-Now size m Valid taken io t (wanting (x ∷ xs) copied)
            (copying (take k (x ∷ xs)) (drop k (x ∷ xs)) copied) t.consumer i
            (
              o,
              (
                has_room size m i.r i.w t.slots i.window
                    (subst (λ j. (t.slots j).full ≡ false) o.at e),
                omega (arith, o.small, length-take k (x ∷ xs)),
              ),
            )
  feed-Kept t (copying slice rest copied) i = copied-Now t slice rest copied i
  feed-Kept t (moved slice rest copied) i =
      subst
        (λ j.
          Now (updated t slice rest copied j (leb size (t.offset + length slice)))
            (wanting rest (copied + length slice)) t.consumer)
        (sym i.main.0.at)
        (updated-Now t slice rest copied i (leb size (t.offset + length slice)) refl)
  feed-Kept t closed i = tt

  -- `thread_wflush`, with `j` for the buffer
  abbrev flushed : Threads W → ℕ → Threads W
  flushed t j = record t {
    slots = put t.slots j (record (t.slots j) { full = true; flush = true });
    offset = 0;
    out_buffer = suc j % suc m;
    main = outside (pos t.offset);
  }

  flushed-Now :
      (t : Threads W) (v : ℤ)
      → (i : Now t (outside v) t.consumer) → 0 < t.offset
      → Now (flushed t (i.w % suc m)) (outside (pos t.offset)) t.consumer
  flushed-Now t v i held =
      let o = i.main.0 in
      let x : Slot = record (t.slots (i.w % suc m)) { full = true; flush = true } in
      let room : i.w < i.r + suc m = elim (lt-or-le i.w (i.r + suc m)) [
        | inl room ↦ room
        | inr packed ↦ absurd (omega (arith, o.none_held (omega (arith, i.window.high))))
      ] in
      same-Now size m Valid taken io t (outside v) t.consumer i o (suc i.w) 0
        (suc (i.w % suc m) % suc m) (outside (pos t.offset)) x room refl
        (Window-push size m i.r i.w t.slots x refl (omega (arith, o.held room))
          (i.window.sized (i.w % suc m)) room i.window)
        (Open-push size m i.r i.w t.slots x t.out_buffer t.offset t.closing room i.window o, tt)

  pub thread_wflush-Now :
      (t : Threads W) (v : ℤ)
      → Now t (outside v) t.consumer
      → let t' = thread_wflush io size (suc m) t in Now t' t'.main t'.consumer
  thread_wflush-Now t v i = held (ltb 0 t.offset) refl
    where
      held :
          (z : Bool)
          → ltb 0 t.offset ≡ z
          → let t' = if z then flushed t t.out_buffer else record t { main = outside (pos 0) } in
            Now t' t'.main t'.consumer
      held true e =
          subst (λ j. Now (flushed t j) (outside (pos t.offset)) t.consumer) (sym i.main.0.at)
            (flushed-Now t v i (ltb→lt 0 t.offset e))
      held false e =
          at-Now size m Valid taken io t (outside v) (outside (pos 0)) t.consumer i i.main

  pub closing-Now :
      (t : Threads W) (v : ℤ)
      → Now t (outside v) t.consumer
      → Now (record t { closing = true; main = closed }) closed t.consumer
  closing-Now t v i = record {
    r = i.r;
    w = i.w;
    window = i.window;
    main = refl;
    consumer = AtConsumer-closed size m t.consumer i.r t.slots t.closing i.consumer;
    child = i.child;
    whole = i.whole;
  }

  pub wanting-Now :
      (t : Threads W) (v : ℤ) (buffer : Bytes)
      → Now t (outside v) t.consumer
      → Now (record t { main = wanting buffer 0 }) (wanting buffer 0) t.consumer
  wanting-Now t v buffer i =
      at-Now size m Valid taken io t (outside v) (wanting buffer 0) t.consumer i (i.main.0, tt)
