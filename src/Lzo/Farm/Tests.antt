-- ===== src/Lzo/Farm/Tests.antt =====
-- Runs of the writer with two threads and blocks of four bytes over a writer to memory.
use wandio.Base.{
  ℕ, zero, suc, ◌≡◌, ◌≢◌, ◌∙◌, sym, refl, List, [], ◌∷◌, ◌++◌, Option, none, some, Bytes, arith,
  pos,
}
use wandio.Reader.Memory.{Any, all_of}
use wandio.Writer.Memory.{memory, memory-TakesAll}
use wandio.Lzo.{write_bufs, write_buf, write_fields, lzo_wwrite_block}
use wandio.Lzo.Direct.{all_blocks}
use wandio.Lzo.Farm.{
  Farm, empty, waiting, Main, outside, writing, shutting, closed, failed, fresh, work, work_at,
  compressed, feed, write_at, move_in, moved_in, shutdown_thread, shutdown_at, lzo_wclose, Step,
  by_thread, by_main, write_call, Reach, start, after,
}
use wandio.Lzo.Farm.Filling.{data_of}
use wandio.Lzo.Farm.Order.{
  Ends, lzo_wclose-Ends, lzo_wclose-late, lzo_wclose-Finishes, lzo_wwrite-asserts,
}
use wandio.Lzo.Toy.{toy, toy-Works}

-- whose turn it is
data Move : Type 0 where
  main : Move
  thread : ℕ → Move
  write : Bytes → Move

abbrev kept_if_none : Farm Bytes → Option (Farm Bytes) → Farm Bytes
kept_if_none t none = t
kept_if_none t (some t') = t'

abbrev called : Bytes → Farm Bytes → Main → Farm Bytes
called b t (outside v) = record t { main = writing b }
called b t p = t

move : Move → Farm Bytes → Farm Bytes
move main t = kept_if_none t (feed 4 2 toy memory.write t t.main)
move (thread zero) t = kept_if_none t (work 4 2 toy memory.write t 0)
move (thread (suc n)) t = kept_if_none t (work 4 2 toy memory.write t 1)
move (write b) t = called b t t.main

play : List Move → Farm Bytes → Farm Bytes
play [] t = t
play (m ∷ ms) t = play ms (move m t)

abbrev Run : Farm Bytes → Farm Bytes → Type 0
Run = Reach 4 2 toy memory.write

kept-Run :
    (from t : Farm Bytes) (o : Option (Farm Bytes))
    → ((t' : Farm Bytes) → o ≡ some t' → Step 4 2 toy memory.write t t')
    → Run from t
    → Run from (kept_if_none t o)
kept-Run from t none step h = h
kept-Run from t (some t') step h = after h (step t' refl)

called-Run :
    (b : Bytes) (from t : Farm Bytes) (p : Main) → t.main ≡ p → Run from t → Run from (called b t p)
called-Run b from t (outside v) at h = after h (write_call t v b at)
called-Run b from t (writing c) at h = h
called-Run b from t (shutting second i) at h = h
called-Run b from t closed at h = h
called-Run b from t failed at h = h

move-Run : (m : Move) (from t : Farm Bytes) → Run from t → Run from (move m t)
unfolding move
move-Run main from t h =
    kept-Run from t (feed 4 2 toy memory.write t t.main) (λ t' e. by_main t t' e) h
move-Run (thread zero) from t h =
    kept-Run from t (work 4 2 toy memory.write t 0) (λ t' e. by_thread t t' 0 (omega arith) e) h
move-Run (thread (suc n)) from t h =
    kept-Run from t (work 4 2 toy memory.write t 1) (λ t' e. by_thread t t' 1 (omega arith) e) h
move-Run (write b) from t h = called-Run b from t t.main refl h

play-Run : (ms : List Move) (from t : Farm Bytes) → Run from t → Run from (play ms t)
unfolding play
play-Run [] from t h = h
play-Run (m ∷ ms) from t h = play-Run ms from (move m t) (move-Run m from t h)

abbrev new : Farm Bytes
new = fresh 4 2 toy memory.write []

-- five bytes, the last in the second thread's buffer
abbrev some_left : List Move
some_left = write (1 ∷ 2 ∷ 3 ∷ 4 ∷ 5 ∷ []) ∷ main ∷ main ∷ main ∷ []

abbrev five : Farm Bytes
five = play some_left new

abbrev shut_down : List Move
shut_down = thread 0 ∷ thread 1 ∷ main ∷ main ∷ main ∷ main ∷ []

abbrev five_closed : Farm Bytes
five_closed = play shut_down (lzo_wclose 4 2 toy memory.write five)

five_outside : five.main ≡ outside (pos 0)
unfolding play move feed write_at move_in moved_in
five_outside = refl

five_empty : (five.thread five.next_thread).state ≡ empty
unfolding play move feed write_at move_in moved_in
five_empty = refl

five_over : five_closed.main ≡ closed
unfolding play move feed write_at move_in moved_in work work_at compressed lzo_wwrite_block
    write_fields write_bufs write_buf shutdown_thread shutdown_at
five_over = refl

lzo_wclose-Ends_example :
    Ends 4 1 toy toy-Works Any all_of memory.write memory-TakesAll
      (omega arith)
      (all_blocks 4 toy toy-Works five.accepted)
      five_closed.main
      five_closed
lzo_wclose-Ends_example =
    lzo_wclose-Ends 4 1 toy toy-Works Any all_of memory.write memory-TakesAll (omega arith) [] tt
      five (pos 0) (play-Run some_left new new start) five_outside five_empty five_closed
      (play-Run shut_down (lzo_wclose 4 2 toy memory.write five)
        (lzo_wclose 4 2 toy memory.write five) start)

-- eight bytes: the first thread still has its block
abbrev all_busy : List Move
all_busy = write (1 ∷ 2 ∷ 3 ∷ 4 ∷ 5 ∷ 6 ∷ 7 ∷ 8 ∷ []) ∷ main ∷ main ∷ main ∷ thread 1 ∷ []

abbrev eight : Farm Bytes
eight = play all_busy new

eight_outside : eight.main ≡ outside (pos 0)
unfolding play move feed write_at move_in moved_in work work_at compressed lzo_wwrite_block
    write_fields write_bufs write_buf
eight_outside = refl

eight_busy : (eight.thread eight.next_thread).state ≡ waiting
unfolding play move feed write_at move_in moved_in work work_at compressed lzo_wwrite_block
    write_fields write_bufs write_buf
eight_busy = refl

abbrev eight_closed : Farm Bytes
eight_closed = play shut_down (lzo_wclose 4 2 toy memory.write eight)

-- the second block stands before the first
eight_over :
    eight_closed.child
    ≡ 0 ∷ 0 ∷ 0 ∷ 4 ∷ 0 ∷ 0 ∷ 0 ∷ 4 ∷ 0 ∷ 0 ∷ 1 ∷ 0x7f ∷ 5 ∷ 6 ∷ 7 ∷ 8 ∷ 0 ∷ 0 ∷ 0 ∷ 4 ∷ 0 ∷ 0 ∷ 0
      ∷ 4 ∷ 0 ∷ 0 ∷ 0 ∷ 0xdf ∷ 1 ∷ 2 ∷ 3 ∷ 4 ∷ 0 ∷ 0 ∷ 0 ∷ 0 ∷ []
unfolding play move feed write_at move_in moved_in work work_at compressed lzo_wwrite_block
    write_fields write_bufs write_buf shutdown_thread shutdown_at
eight_over = refl

lzo_wclose-late_example :
    (first rest : Bytes) × (first ≡ data_of 4 1 toy toy-Works (eight.thread eight.next_thread))
    × (eight.child ++ (first ++ rest) ≡ all_blocks 4 toy toy-Works eight.accepted)
    × Ends 4 1 toy toy-Works Any all_of memory.write memory-TakesAll
        (omega arith)
        (eight.child ++ (rest ++ first))
        eight_closed.main
        eight_closed
lzo_wclose-late_example =
    lzo_wclose-late 4 1 toy toy-Works Any all_of memory.write memory-TakesAll (omega arith) [] tt
      eight (pos 0) (play-Run all_busy new new start) eight_outside (λ e. cc (sym eight_busy ∙ e))
      eight_closed
      (play-Run shut_down (lzo_wclose 4 2 toy memory.write eight)
        (lzo_wclose 4 2 toy memory.write eight) start)

lzo_wclose-Finishes_example :
    (t : Farm Bytes) × Run (lzo_wclose 4 2 toy memory.write eight) t × (t.main ≡ closed)
lzo_wclose-Finishes_example =
    lzo_wclose-Finishes 4 1 toy toy-Works Any all_of memory.write memory-TakesAll (omega arith) []
      tt eight (pos 0) (play-Run all_busy new new start) eight_outside
      (lzo_wclose 4 2 toy memory.write eight) start

lzo_wwrite-asserts_example : eight.main ≢ failed
lzo_wwrite-asserts_example =
    lzo_wwrite-asserts 4 1 toy toy-Works Any all_of memory.write memory-TakesAll (omega arith) [] tt
      eight (play-Run all_busy new new start)
