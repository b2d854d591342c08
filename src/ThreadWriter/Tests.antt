-- ===== src/ThreadWriter/Tests.antt =====
-- Runs of the threaded writer with two buffers of two bytes over a writer to memory.
use wandio.Base.{
  ℕ, ◌+◌, ◌*◌, ◌≤◌, ◌≡◌, ◌≢◌, refl, List, [], ◌∷◌, ◌++◌, Option, none, some, Bytes, arith, ℤ, true,
}
use wandio.Reader.Memory.{Any, all_of}
use wandio.Writer.Memory.{memory, memory-TakesAll, memory-Flushes}
use wandio.ThreadWriter.{
  Threads, Main, outside, wanting, copying, moved, closed, exited, thread_wopen, drain, feed,
  thread_wflush, Step, by_consumer, by_main, write_call, flush_call, close_call, Reach, start,
  after,
}
use wandio.ThreadWriter.Ends.{drain_all}
use wandio.ThreadWriter.Order.{written_in_order}
use wandio.ThreadWriter.Closing.{InCall, closing_ends, no_deadlock}

-- whose turn it is
data Move : Type 0 where
  consumer main flush close : Move
  write : Bytes → Move

abbrev kept_if_none : Threads Bytes → Option (Threads Bytes) → Threads Bytes
kept_if_none t none = t
kept_if_none t (some t') = t'

abbrev begin_call : (Threads Bytes → Threads Bytes) → Threads Bytes → Main → Threads Bytes
begin_call f t (outside v) = f t
begin_call f t p = t

abbrev writes : Bytes → Threads Bytes → Threads Bytes
writes buffer t = record t { main = wanting buffer 0 }

abbrev closes : Threads Bytes → Threads Bytes
closes t = record t { closing = true; main = closed }

move : Move → Threads Bytes → Threads Bytes
move consumer t = kept_if_none t (drain memory 2 2 t t.consumer)
move main t = kept_if_none t (feed memory 2 2 t t.main)
move flush t = begin_call (thread_wflush memory 2 2) t t.main
move close t = begin_call closes t t.main
move (write buffer) t = begin_call (writes buffer) t t.main

play : List Move → Threads Bytes → Threads Bytes
play [] t = t
play (m ∷ ms) t = play ms (move m t)

abbrev From : Threads Bytes → Threads Bytes → Type 0
From = Reach memory 2 2

kept-From :
    (from t : Threads Bytes) (o : Option (Threads Bytes))
    → ((t' : Threads Bytes) → o ≡ some t' → Step memory 2 2 t t')
    → From from t
    → From from (kept_if_none t o)
kept-From from t none step h = h
kept-From from t (some t') step h = after h (step t' refl)

begin_call-From :
    (f : Threads Bytes → Threads Bytes) (from t : Threads Bytes) (p : Main)
    → ((v : ℤ) → p ≡ outside v → Step memory 2 2 t (f t))
    → From from t
    → From from (begin_call f t p)
begin_call-From f from t (outside v) step h = after h (step v refl)
begin_call-From f from t (wanting a b) step h = h
begin_call-From f from t (copying a b n) step h = h
begin_call-From f from t (moved a b n) step h = h
begin_call-From f from t closed step h = h

move-From : (m : Move) (from t : Threads Bytes) → From from t → From from (move m t)
unfolding move
move-From consumer from t h =
    kept-From from t (drain memory 2 2 t t.consumer) (λ t' e. by_consumer t t' e) h
move-From main from t h = kept-From from t (feed memory 2 2 t t.main) (λ t' e. by_main t t' e) h
move-From flush from t h =
    begin_call-From (thread_wflush memory 2 2) from t t.main (λ v e. flush_call t v e) h
move-From close from t h = begin_call-From closes from t t.main (λ v e. close_call t v e) h
move-From (write buffer) from t h =
    begin_call-From (writes buffer) from t t.main (λ v e. write_call t v buffer e) h

play-From : (ms : List Move) (from t : Threads Bytes) → From from t → From from (play ms t)
unfolding play
play-From [] from t h = h
play-From (m ∷ ms) from t h = play-From ms from (move m t) (move-From m from t h)

abbrev fresh : Threads Bytes
fresh = thread_wopen memory 2 2 []

-- three bytes are written, the first two of which the child gets
abbrev three_bytes : List Move
three_bytes =
    write (5 ∷ 6 ∷ 7 ∷ [])
    ∷ main
    ∷ main
    ∷ main
    ∷ consumer
    ∷ main
    ∷ consumer
    ∷ main
    ∷ main
    ∷ main
    ∷ []

three_bytes_written : (play three_bytes fresh).child ≡ 5 ∷ 6 ∷ []
unfolding play move drain feed
three_bytes_written = refl

three_bytes_accepted : (play three_bytes fresh).accepted ≡ 5 ∷ 6 ∷ 7 ∷ []
unfolding play move drain feed
three_bytes_accepted = refl

written_in_order_example :
    (more : Bytes) × ((play three_bytes fresh).accepted ≡ (play three_bytes fresh).child ++ more)
written_in_order_example =
    written_in_order 2 1 Any all_of memory memory-TakesAll memory-Flushes (omega arith) [] tt refl
      (play three_bytes fresh) (play-From three_bytes fresh fresh start)

abbrev then_close : List Move
then_close = three_bytes ++ close ∷ []

abbrev closing_down : Threads Bytes
closing_down = play then_close fresh

closing_down_closed : closing_down.main ≡ closed
unfolding play move drain feed
closing_down_closed = refl

closing_ends_example :
    (steps : ℕ) × (steps ≤ 3 * 2 + 3)
    × ((drain_all 2 1 memory steps closing_down).consumer ≡ exited)
    × ((drain_all 2 1 memory steps closing_down).child ≡ closing_down.accepted)
closing_ends_example =
    closing_ends 2 1 Any all_of memory memory-TakesAll memory-Flushes (omega arith) [] tt refl
      closing_down (play-From then_close fresh fresh start) closing_down_closed

-- the writing thread waits for the first buffer
abbrev begun : Threads Bytes
begun = play (write (5 ∷ []) ∷ []) fresh

begun_waits : drain memory 2 2 begun begun.consumer ≡ none
unfolding play move drain
begun_waits = refl

begun-InCall : InCall begun.main
unfolding play move
begun-InCall = tt

no_deadlock_example : feed memory 2 2 begun begun.main ≢ none
no_deadlock_example =
    no_deadlock 2 1 Any all_of memory memory-TakesAll memory-Flushes (omega arith) [] tt refl begun
      (play-From (write (5 ∷ []) ∷ []) fresh fresh start) begun-InCall begun_waits
