-- ===== src/ThreadReader.antt =====
-- lib/ior-thread.c, the reader whose child is read by a thread of its own into a ring of buffers.
-- The two threads are interleaved: a step is at most what a thread does from one lock or unlock of
-- the mutex to the next. The child's read into an EMPTY buffer is a step of its own.
pub mod Ring
pub mod Queue
pub mod Inv
pub mod Slices
pub mod Produce
pub mod Consume
pub mod Order
pub mod End
mod Tests
use wandio.Base.{
  ℕ, zero, suc, ◌+◌, ◌-◌, ◌*◌, ◌%◌, ◌≡◌, Bool, true, false, List, [], ◌++◌, Option, none, some, min,
  length, take, drop, blit, slice, ltb, leb, ◌==◌, if◌then◌else◌, ℤ, pos, negsuc, Bytes, replicate,
  put,
}
use wandio.Reader.{Reply, ret, stuck}

-- WANDIO_BUFFER_SIZE
abbrev pub slot_size : ℕ
slot_size = 1024 * 1024

-- `struct buffer_t`; `full` is `state == FULL`
pub record Slot : Type 0 where
  pub space : Bytes
  pub len : ℤ
  pub full : Bool

-- Where the reading thread stands, with its index `buffer`: before the test of the buffer's state,
-- in the child's `read`, behind it, and at its end.
pub data Producer : Type 0 where
  waiting reading publishing : ℕ → Producer
  exited : Producer

-- Where the main thread stands: outside `thread_read` (with the value of the last call), at the top
-- of its loop (with `len` and `copied`), before the `memcpy` and behind it (with `slice`).
pub data Consumer : Type 0 where
  outside : ℤ → Consumer
  wanting : ℕ → ℕ → Consumer
  copying moved : ℕ → ℕ → ℕ → Consumer

-- `struct state_t` with the two threads' places. `given` is no part of the program: all bytes that
-- the calls of `thread_read` have stored so far.
pub record Threads (S : Type 0) : Type 0 where
  pub slots : ℕ → Slot
  pub in_buffer : ℕ
  pub offset : ℕ
  pub child : S
  pub closing : Bool
  pub producer : Producer
  pub consumer : Consumer
  pub given : Bytes

-- `len > 0`
abbrev pub is_positive : ℤ → Bool
is_positive (pos (suc k)) = true
is_positive z = false

-- `thread_open` on a child that is there, with memory for the buffers, which are all EMPTY
abbrev pub thread_open : {S : Type 0} → S → Threads S
thread_open c = record {
  slots = λ i. record { space = replicate slot_size 0; len = pos 0; full = false };
  in_buffer = 0;
  offset = 0;
  child = c;
  closing = false;
  producer = waiting 0;
  consumer = outside (pos 0);
  given = [];
}

-- The child's `read`, and the number of buffers.
module _ {S : Type 0} (read : S → ℕ → ℕ → Reply S) (max_buffers : ℕ) where
  -- the reply of the child's read into buffer `b`
  store_reply : Threads S → ℕ → Reply S → Option (Threads S)
  store_reply t b stuck = none
  store_reply t b (ret v bytes c) =
      let s = t.slots b in
      some (record t {
        slots = put t.slots b (record s { space = blit s.space 0 bytes; len = v });
        child = c;
        producer = publishing b;
      })

  -- the buffer `b` is FULL; the thread goes on to the next or ends
  publish : Threads S → ℕ → Threads S
  publish t b =
      let s = t.slots b in
      record t {
        slots = put t.slots b (record s { full = true });
        producer = if is_positive s.len then waiting (suc b % max_buffers) else exited;
      }

  -- One step of `thread_producer`; `none` where it waits or has ended.
  pub produce : Threads S → Producer → Option (Threads S)
  produce t (waiting b) =
      if t.closing
      then some (record t { producer = exited })
      else if (t.slots b).full
      then none
      else some (record t { producer = reading b })
  produce t (reading b) = store_reply t b (read t.child 0 slot_size)
  produce t (publishing b) = some (publish t b)
  produce t exited = none

  -- Behind the test that the buffer `s` is FULL, at the top of the loop: the end of the input, or
  -- the size of the next slice.
  next_slice : Threads S → ℕ → ℕ → ℤ → Threads S
  next_slice t len zero (negsuc e) = record t { consumer = outside (negsuc e) }
  next_slice t len (suc copied) (negsuc e) = record t { consumer = outside (pos (suc copied)) }
  next_slice t len copied (pos zero) = record t { consumer = outside (pos copied) }
  next_slice t len copied (pos (suc k)) = record t {
    consumer = copying len copied (min (suc k - t.offset) len);
  }

  -- the update behind the `memcpy` of `n` bytes, for a buffer with `l` bytes
  advance : Threads S → ℕ → ℕ → ℕ → ℤ → Option (Threads S)
  advance t len copied n (negsuc e) = none
  advance t len copied n (pos l) =
      let s = t.slots t.in_buffer in
      if leb l (t.offset + n)
      then some (record t {
        slots = put t.slots t.in_buffer (record s { full = false });
        in_buffer = suc t.in_buffer % max_buffers;
        offset = 0;
        consumer = wanting (len - n) (copied + n);
      })
      else some (record t { offset = t.offset + n; consumer = wanting (len - n) (copied + n) })

  -- One step of `thread_read`; `none` where it waits, or there is no call.
  pub consume : Threads S → Consumer → Option (Threads S)
  consume t (outside v) = none
  consume t (wanting zero copied) = some (record t { consumer = outside (pos copied) })
  consume t (wanting (suc len) copied) =
      let s = t.slots t.in_buffer in
      if s.full then some (next_slice t (suc len) copied s.len) else none
  consume t (copying len copied n) =
      let s = t.slots t.in_buffer in
      some (record t { given = t.given ++ slice s.space t.offset n; consumer = moved len copied n })
  consume t (moved len copied n) = advance t len copied n (t.slots t.in_buffer).len

  -- The steps of the two threads, a call of `thread_read`, and the `closing` of `thread_close`.
  pub data Step : Threads S → Threads S → Type 0 where
    by_producer : (t t' : Threads S) → produce t t.producer ≡ some t' → Step t t'
    by_consumer : (t t' : Threads S) → consume t t.consumer ≡ some t' → Step t t'
    call :
        (t : Threads S) (v : ℤ) (len : ℕ)
        → t.consumer ≡ outside v
        → Step t (record t { consumer = wanting len 0 })
    close : (t : Threads S) (v : ℤ) → t.consumer ≡ outside v → Step t (record t { closing = true })

  pub data Reach (from : Threads S) : Threads S → Type 0 where
    start : Reach from from
    after : {t t' : Threads S} → Reach from t → Step t t' → Reach from t'
