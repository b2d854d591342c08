-- ===== src/ThreadReader/Tests.antt =====
-- Runs of the threaded reader with two buffers over a reader of bytes in memory.
use wandio.Base.{pos, ℕ, ◌≡◌, refl, List, [], ◌∷◌, ◌++◌, Option, none, some, Bytes, arith}
use wandio.Reader.Memory.{from_memory, Any, all_of, from_memory-IsReader}
use wandio.ThreadReader.{
  Threads, Consumer, copying, moved, outside, wanting, thread_open, produce, consume, Step,
  by_producer, by_consumer, call, Reach, start, after,
}
use wandio.ThreadReader.Order.{given_in_order}
use wandio.ThreadReader.End.{end_of_input}

-- whose turn it is
data Move : Type 0 where
  producer consumer : Move
  reading_call : ℕ → Move

abbrev kept_if_none : Threads Bytes → Option (Threads Bytes) → Threads Bytes
kept_if_none t none = t
kept_if_none t (some t') = t'

abbrev begin_call : ℕ → Threads Bytes → Consumer → Threads Bytes
begin_call len t (outside v) = record t { consumer = wanting len 0 }
begin_call len t _ = t

move : Move → Threads Bytes → Threads Bytes
move producer t = kept_if_none t (produce from_memory 2 t t.producer)
move consumer t = kept_if_none t (consume from_memory 2 t t.consumer)
move (reading_call len) t = begin_call len t t.consumer

play : List Move → Threads Bytes → Threads Bytes
play [] t = t
play (m ∷ ms) t = play ms (move m t)

abbrev From : Threads Bytes → Threads Bytes → Type 0
From = Reach from_memory 2

kept-From :
    (from t : Threads Bytes) (o : Option (Threads Bytes))
    → ((t' : Threads Bytes) → o ≡ some t' → Step from_memory 2 t t')
    → From from t
    → From from (kept_if_none t o)
kept-From from t none step h = h
kept-From from t (some t') step h = after h (step t' refl)

begin_call-From :
    (from t : Threads Bytes) (len : ℕ) (c : Consumer)
    → t.consumer ≡ c
    → From from t
    → From from (begin_call len t c)
begin_call-From from t len (outside v) e h = after h (call t v len e)
begin_call-From from t len (wanting a b) e h = h
begin_call-From from t len (copying a b n) e h = h
begin_call-From from t len (moved a b n) e h = h

move-From : (m : Move) (from t : Threads Bytes) → From from t → From from (move m t)
unfolding move
move-From producer from t h =
    kept-From from t (produce from_memory 2 t t.producer) (λ t' e. by_producer t t' e) h
move-From consumer from t h =
    kept-From from t (consume from_memory 2 t t.consumer) (λ t' e. by_consumer t t' e) h
move-From (reading_call len) from t h = begin_call-From from t len t.consumer refl h

play-From : (ms : List Move) (from t : Threads Bytes) → From from t → From from (play ms t)
unfolding play
play-From [] from t h = h
play-From (m ∷ ms) from t h = play-From ms from (move m t) (move-From m from t h)

-- the child's bytes arrive, and a call copies two of them
abbrev one_call : List Move
one_call = producer ∷ producer ∷ producer ∷ reading_call 2 ∷ consumer ∷ consumer ∷ []

abbrev first : Threads Bytes
first = thread_open (7 ∷ 8 ∷ 9 ∷ [])

one_call_given : (play one_call first).given ≡ 7 ∷ 8 ∷ []
unfolding play move produce consume from_memory wandio.ThreadReader.store_reply
    wandio.ThreadReader.publish wandio.ThreadReader.next_slice
one_call_given = refl

given_in_order_example : (more : Bytes) × (7 ∷ 8 ∷ 9 ∷ [] ≡ (play one_call first).given ++ more)
given_in_order_example =
    given_in_order Any all_of from_memory 2 from_memory-IsReader (omega arith) (7 ∷ 8 ∷ 9 ∷ []) tt
      (play one_call first) (play-From one_call first first start)

-- the one byte of the child is read and handed out, the end is met, and another call begins
abbrev to_the_end : List Move
to_the_end =
    producer
    ∷ producer
    ∷ producer
    ∷ reading_call 1
    ∷ consumer
    ∷ consumer
    ∷ consumer
    ∷ consumer
    ∷ producer
    ∷ producer
    ∷ producer
    ∷ reading_call 2
    ∷ []

abbrev short_file : Threads Bytes
short_file = thread_open (7 ∷ [])

abbrev at_the_end : Threads Bytes
at_the_end = play to_the_end short_file

at_the_end_asks : at_the_end.consumer ≡ wanting 2 0
unfolding play move produce consume from_memory wandio.ThreadReader.store_reply
    wandio.ThreadReader.publish wandio.ThreadReader.next_slice wandio.ThreadReader.advance
at_the_end_asks = refl

at_the_end_returns :
    consume from_memory 2 at_the_end at_the_end.consumer
    ≡ some (record at_the_end { consumer = outside (pos 0) })
unfolding play move produce consume from_memory wandio.ThreadReader.store_reply
    wandio.ThreadReader.publish wandio.ThreadReader.next_slice wandio.ThreadReader.advance
at_the_end_returns = refl

end_of_input_example : at_the_end.given ≡ 7 ∷ []
end_of_input_example =
    end_of_input Any all_of from_memory 2 from_memory-IsReader (omega arith) (7 ∷ []) tt at_the_end
      (record at_the_end { consumer = outside (pos 0) }) 1
      (play-From to_the_end short_file short_file start) at_the_end_asks at_the_end_returns refl
