-- ===== src/Lzo/Farm.antt =====
-- lib/iow-lzo.c with threads: each compresses one block at a time, the main thread hands the blocks out
-- in turn and writes them in this order. A step is what a thread does while it holds a lock.
pub mod Filling
pub mod Work
pub mod Writing
pub mod Shutting
pub mod Closing
pub mod Begun
pub mod Order
pub mod Finish
mod Tests
use wandio.Base.{
  ℕ, zero, suc, ◌+◌, ◌-◌, ◌%◌, ◌<◌, ◌≡◌, min, Bool, true, false, not, ◌&&◌, ◌||◌, [], ◌∷◌, ◌++◌,
  Option, none, some, length, take, drop, put, ltb, leb, if◌then◌else◌, ℤ, pos, negsuc, Bytes,
}
use wandio.Lzo.{
  Lzo, buffer_size, write32, BlockResult, packed, refused, asserted, lzo_wwrite_block, lzo_header,
}

-- EMPTY, WAITING and FULL
pub data ThreadState : Type 0 where
  empty waiting full : ThreadState

-- `struct lzothread_t`; `running` is whether the thread has not ended
pub record LzoThread : Type 0 where
  pub state : ThreadState
  pub inbuf : Bytes
  pub outbuf : Bytes
  pub closing : Bool
  pub running : Bool

-- Where the main thread stands: outside the writer's functions (with the value of the last call), at
-- the top of the loop of `lzo_wwrite` (with the bytes left), in the first or the second loop of
-- `lzo_wclose` (with `i`), and behind it; or an assertion has failed.
pub data Main : Type 0 where
  outside : ℤ → Main
  writing : Bytes → Main
  shutting : Bool → ℕ → Main
  closed : Main
  failed : Main

-- `struct lzow_t` with the main thread's place. `accepted` is no part of the program: all bytes that
-- the calls of `lzo_wwrite` have taken over so far.
pub record Farm (W : Type 0) : Type 0 where
  pub thread : ℕ → LzoThread
  pub next_thread : ℕ
  pub child : W
  pub main : Main
  pub accepted : Bytes

-- what `lzo_wopen` makes: NULL, an assertion that fails, or a writer
pub data Opening (W : Type 0) : Type 0 where
  null no_room : Opening W
  opening : Farm W → Opening W

abbrev pub put_thread : {W : Type 0} → Farm W → ℕ → LzoThread → Farm W
put_thread t i s = record t { thread = put t.thread i s }

-- the block of a thread that is FULL goes to the child
abbrev pub flush_thread : {W : Type 0} → (W → Bytes → ℤ × W) → Farm W → ℕ → Farm W
flush_thread write t i =
    let s = t.thread i in
    record t {
      child = (write t.child s.outbuf).1;
      thread = put t.thread i (record s { state = empty; inbuf = [] });
    }

-- the state that `lzo_wclose` leaves the thread in whose turn it is
abbrev pub last_state : ThreadState → Bytes → ThreadState
last_state empty [] = empty
last_state empty (x ∷ xs) = waiting
last_state waiting b = waiting
last_state full b = full

-- MAX_BLOCK_SIZE and the number of threads
module _ (max_block threads : ℕ) (lzo : Lzo) {W : Type 0} (write : W → Bytes → ℤ × W) where
  -- the threads behind the header
  abbrev pub fresh : W → Farm W
  fresh w = record {
    thread =
        λ i. record { state = empty; inbuf = []; outbuf = []; closing = false; running = true };
    next_thread = 0;
    child = w;
    main = outside (pos 0);
    accepted = [];
  }

  open_on : W → Option Bytes → Opening W
  open_on w none = no_room
  open_on w (some header) = opening (fresh (write w header).1)

  -- `lzo_wopen` on a child that is there: whether `lzo_init` returns LZO_E_OK, the level, the time
  pub lzo_wopen : Bool → ℤ → ℕ → W → Opening W
  lzo_wopen false level now w = null
  lzo_wopen true (negsuc e) now w = null
  lzo_wopen true (pos level) now w = open_on w (lzo_header max_block lzo now)

  -- behind `lzo_wwrite_block`: an error ends the thread, in its state
  pub compressed : Farm W → ℕ → BlockResult → Farm W
  compressed t i (packed b) = put_thread t i (record (t.thread i) { state = full; outbuf = b })
  compressed t i (refused e) = put_thread t i (record (t.thread i) { running = false })
  compressed t i asserted = record t { main = failed }

  work_at : Farm W → ℕ → ThreadState → Option (Farm W)
  work_at t i empty = none
  work_at t i waiting = some (compressed t i (lzo_wwrite_block max_block lzo (t.thread i).inbuf))
  work_at t i full = none

  -- One round of `lzo_compress_thread`; `none` where it waits or has ended.
  pub work : Farm W → ℕ → Option (Farm W)
  work t i = let s = t.thread i in if s.running && not s.closing then work_at t i s.state else none

  -- the bytes moved in, the buffer not full
  abbrev pub part_filled : Farm W → Bytes → Bytes → Farm W
  part_filled t slice rest =
      let s = t.thread t.next_thread in
      record t {
        thread = put t.thread t.next_thread (record s { inbuf = s.inbuf ++ slice });
        main = writing rest;
        accepted = t.accepted ++ slice;
      }

  -- the bytes moved in, the buffer full: the thread is triggered
  abbrev pub triggered : Farm W → Bytes → Bytes → Farm W
  triggered t slice rest =
      let s = t.thread t.next_thread in
      record t {
        thread =
            put t.thread t.next_thread (record s { inbuf = s.inbuf ++ slice; state = waiting });
        next_thread = suc t.next_thread % threads;
        main = writing rest;
        accepted = t.accepted ++ slice;
      }

  pub moved_in : Farm W → Bytes → Bytes → Farm W
  moved_in t slice rest =
      let offset = length ((t.thread t.next_thread).inbuf ++ slice) in
      if leb (buffer_size max_block) offset || leb max_block offset
      then triggered t slice rest
      else part_filled t slice rest

  -- `lzo_wwrite` from `assert(get_next_thread(iow)->state == EMPTY)` on
  pub move_in : Farm W → Bytes → Farm W
  move_in t buffer =
      let offset = length (t.thread t.next_thread).inbuf in
      let size = min (max_block - offset) (length buffer) in
      if leb max_block (buffer_size max_block)
        && ltb 0 size
        && leb size max_block
        && leb (offset + size) max_block
      then moved_in t (take size buffer) (drop size buffer)
      else record t { main = failed }

  write_at : Farm W → Bytes → ThreadState → Option (Farm W)
  write_at t buffer empty = some (move_in t buffer)
  write_at t buffer waiting = none
  write_at t buffer full = some (
      if ltb (length (t.thread t.next_thread).outbuf) (buffer_size max_block)
      then move_in (flush_thread write t t.next_thread) buffer
      else record t { main = failed })

  -- the end of `shutdown_thread`, with the thread joined
  abbrev pub stopped : Farm W → ℕ → LzoThread → Main → Farm W
  stopped t i s p = record t {
    thread = put t.thread i (record s { closing = true; running = false });
    main = p;
  }

  -- `shutdown_thread`, before the main thread's place `p`; `none` where it waits
  pub shutdown_at : Farm W → ℕ → Main → ThreadState → Option (Farm W)
  shutdown_at t i p empty =
      let s = t.thread i in
      some (if leb (length s.inbuf) 0 then stopped t i s p else record t { main = failed })
  shutdown_at t i p waiting = none
  shutdown_at t i p full =
      let s = t.thread i in
      some (
        stopped (record t { child = (write t.child s.outbuf).1 }) i
          (record s { state = empty; inbuf = [] }) p)

  shutdown_thread : Farm W → ℕ → Main → Option (Farm W)
  shutdown_thread t i p = shutdown_at t i p (t.thread i).state

  -- One step of the main thread; `none` where it waits, or there is no call. `lzo_wwrite` returns
  -- `len`, which is 0 then.
  pub feed : Farm W → Main → Option (Farm W)
  feed t (outside v) = none
  feed t (writing []) = some (record t { main = outside (pos 0) })
  feed t (writing (x ∷ xs)) = write_at t (x ∷ xs) (t.thread t.next_thread).state
  feed t (shutting false i) =
      if ltb i threads
      then shutdown_thread t i (shutting false (suc i))
      else some (record t { main = shutting true 0 })
  feed t (shutting true i) =
      if ltb i t.next_thread
      then shutdown_thread t i (shutting true (suc i))
      else some (record t { child = (write t.child (write32 0)).1; main = closed })
  feed t closed = none
  feed t failed = none

  -- `lzo_wclose` up to its loops
  abbrev pub lzo_wclose : Farm W → Farm W
  lzo_wclose t =
      let s = t.thread t.next_thread in
      let next = suc t.next_thread % threads in
      record t {
        thread = put t.thread t.next_thread (record s { state = last_state s.state s.inbuf });
        next_thread = next;
        main = shutting false next;
      }

  -- the steps of the threads, the calls of `lzo_wwrite`, and `lzo_wclose`
  pub data Step : Farm W → Farm W → Type 0 where
    by_thread : (t t' : Farm W) (i : ℕ) → i < threads → work t i ≡ some t' → Step t t'
    by_main : (t t' : Farm W) → feed t t.main ≡ some t' → Step t t'
    write_call :
        (t : Farm W) (v : ℤ) (buffer : Bytes)
        → t.main ≡ outside v
        → Step t (record t { main = writing buffer })

  pub data Reach (from : Farm W) : Farm W → Type 0 where
    start : Reach from from
    after : {t t' : Farm W} → Reach from t → Step t t' → Reach from t'
