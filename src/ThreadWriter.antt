-- ===== src/ThreadWriter.antt =====
-- lib/iow-thread.c, the writer whose child is written to by a thread of its own, out of a ring of
-- buffers. The two threads are interleaved: a step is at most what a thread does from one lock or
-- unlock of the mutex to the next.
pub mod Slots
pub mod Inv
pub mod Drain
pub mod Filled
pub mod Feed
pub mod Order
pub mod Ends
pub mod Closing
mod Tests
use wandio.Base.{
  ℕ, zero, suc, ◌+◌, ◌-◌, ◌*◌, ◌%◌, ◌≡◌, Bool, true, false, ◌||◌, [], ◌∷◌, ◌++◌, Option, none, some,
  min, length, take, drop, blit, put, replicate, ltb, leb, if◌then◌else◌, ℤ, pos, Bytes,
}
use wandio.Writer.{Sink}

-- `struct buffer_t`; `full` is `state == FULL`
pub record Slot : Type 0 where
  pub space : Bytes
  pub len : ℕ
  pub full : Bool
  pub flush : Bool

-- Where the writing thread stands, with its index `buffer`: before the test of the buffer's state,
-- before the child's `write`, behind it, and at its end.
pub data Consumer : Type 0 where
  waiting writing written : ℕ → Consumer
  exited : Consumer

-- Where the main thread stands: outside the writer's functions (with the value of the last call), at
-- the top of the loop of `thread_wwrite` (with the bytes left and `copied`), before the `memcpy` and
-- behind it (with the slice, the bytes behind it and `copied`), and in `thread_wclose`.
pub data Main : Type 0 where
  outside : ℤ → Main
  wanting : Bytes → ℕ → Main
  copying moved : Bytes → Bytes → ℕ → Main
  closed : Main

-- `struct state_t` with the two threads' places. `accepted` is no part of the program: all bytes that
-- the calls of `thread_wwrite` have taken over so far.
pub record Threads (W : Type 0) : Type 0 where
  pub slots : ℕ → Slot
  pub out_buffer : ℕ
  pub offset : ℕ
  pub child : W
  pub closing : Bool
  pub consumer : Consumer
  pub main : Main
  pub accepted : Bytes

-- The child, `sizeof(buffer)` and BUFFERS, which are 1 MB and 5.
module _ {W : Type 0} (io : Sink W) (slot_size buffers : ℕ) where
  -- `thread_wopen` on a child that is there, with memory for the buffers
  abbrev pub thread_wopen : W → Threads W
  thread_wopen w = record {
    slots = λ i. record { space = replicate slot_size 0; len = 0; full = false; flush = false };
    out_buffer = 0;
    offset = 0;
    child = w;
    closing = false;
    consumer = waiting 0;
    main = outside (pos 0);
    accepted = [];
  }

  -- `Empty the buffer using the child writer`, what the child returns is not looked at
  abbrev pub write_out : Slot → W → W
  write_out s w = if ltb 0 s.len then (io.write w (take s.len s.space)).1 else w

  abbrev pub flush_out : Slot → W → W
  flush_out s w = if s.flush then (io.flush w).1 else w

  -- One step of `thread_consumer`; `none` where it waits or has ended.
  pub drain : Threads W → Consumer → Option (Threads W)
  drain t (waiting b) =
      if (t.slots b).full || t.closing then some (record t { consumer = writing b }) else none
  drain t (writing b) =
      let s = t.slots b in
      some (record t { child = flush_out s (write_out s t.child); consumer = written b })
  drain t (written b) =
      let s = t.slots b in
      some (record t {
        slots = put t.slots b (record s { len = 0; full = false; flush = false });
        consumer = if ltb 0 s.len then waiting (suc b % buffers) else exited;
      })
  drain t exited = none

  -- the update behind the `memcpy` of `slice`
  abbrev pub after_copy : Threads W → Bytes → Bytes → ℕ → Threads W
  after_copy t slice rest copied =
      let s = t.slots t.out_buffer in
      let s' : Slot = record s { len = s.len + length slice } in
      let filled = leb slot_size (t.offset + length slice) in
      record t {
        slots =
            put t.slots t.out_buffer
              (if filled then record s' { full = true; flush = false } else s');
        offset = if filled then 0 else t.offset + length slice;
        out_buffer = if filled then suc t.out_buffer % buffers else t.out_buffer;
        main = wanting rest (copied + length slice);
        accepted = t.accepted ++ slice;
      }

  -- One step of `thread_wwrite`; `none` where it waits, or there is no call.
  pub feed : Threads W → Main → Option (Threads W)
  feed t (outside v) = none
  feed t (wanting [] copied) = some (record t { main = outside (pos copied) })
  feed t (wanting (x ∷ xs) copied) =
      if (t.slots t.out_buffer).full
      then none
      else let k = min (slot_size - t.offset) (length (x ∷ xs)) in
        some (record t { main = copying (take k (x ∷ xs)) (drop k (x ∷ xs)) copied })
  feed t (copying slice rest copied) =
      let s = t.slots t.out_buffer in
      some (record t {
        slots = put t.slots t.out_buffer (record s { space = blit s.space t.offset slice });
        main = moved slice rest copied;
      })
  feed t (moved slice rest copied) = some (after_copy t slice rest copied)
  feed t closed = none

  -- The whole of `thread_wflush`, under the lock; the value is the place that it leaves.
  abbrev pub thread_wflush : Threads W → Threads W
  thread_wflush t =
      if ltb 0 t.offset
      then record t {
        slots =
            put t.slots t.out_buffer (record (t.slots t.out_buffer) { full = true; flush = true });
        offset = 0;
        out_buffer = suc t.out_buffer % buffers;
        main = outside (pos t.offset);
      }
      else record t { main = outside (pos 0) }

  -- The steps of the two threads, the calls, and `thread_wclose` up to its `pthread_join`.
  pub data Step : Threads W → Threads W → Type 0 where
    by_consumer : (t t' : Threads W) → drain t t.consumer ≡ some t' → Step t t'
    by_main : (t t' : Threads W) → feed t t.main ≡ some t' → Step t t'
    write_call :
        (t : Threads W) (v : ℤ) (buffer : Bytes)
        → t.main ≡ outside v
        → Step t (record t { main = wanting buffer 0 })
    flush_call : (t : Threads W) (v : ℤ) → t.main ≡ outside v → Step t (thread_wflush t)
    close_call :
        (t : Threads W) (v : ℤ)
        → t.main ≡ outside v
        → Step t (record t { closing = true; main = closed })

  pub data Reach (from : Threads W) : Threads W → Type 0 where
    start : Reach from from
    after : {t t' : Threads W} → Reach from t → Step t t' → Reach from t'
