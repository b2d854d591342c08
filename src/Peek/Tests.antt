-- ===== src/Peek/Tests.antt =====
-- Runs of the peeking reader over a child that reads from memory, and the theorems at such inputs.
use wandio.Base.{
  ℕ, ◌+◌, ◌*◌, ◌%◌, ◌≤◌, ◌<◌, ◌≡◌, refl, [], ◌∷◌, length, replicate, length-replicate, pos, max,
  minus_one, Bytes, arith, none, some,
}
use wandio.Reader.{Reply, ret, stuck, Source}
use wandio.Reader.Memory.{from_memory, Any, all_of, from_memory-IsReader}
use wandio.Reader.Contract.{IsReader, Peeked}
use wandio.Peek.{
  block, Allocation, memory, refused, Peek, opened, peek_read, peek_peek, from_buffer, rest_of_read,
  tidy, load, look, refill_size,
}
use wandio.Peek.Inv.{IsValid, unread}
use wandio.Peek.Refill.{refill_size_bounds}
use wandio.Peek.Read.{peek_read-IsReader}
use wandio.Peek.Look.{peek_peek-Peeked}
use wandio.Peek.Seek.{peek_seek, peek_seek_stale}
use wandio.Peek.Faults.{refill-refused}

granted : ℕ → Allocation
granted n = memory (replicate n 0)

granted_all : (n : ℕ) → (b : Bytes) × (granted n ≡ memory b) × (length b ≡ n)
unfolding granted
granted_all n = (replicate n 0, refl, length-replicate n 0)

abbrev half_read : Peek Bytes
half_read = record {
  child = 7 ∷ 8 ∷ [];
  buffer = block (4 ∷ 5 ∷ 6 ∷ []);
  length = pos 3;
  offset = 1;
}

half_read-IsValid : IsValid Any half_read
half_read-IsValid = record { child = tt; shape = omega arith }

peek_of_buffered : peek_peek from_memory granted half_read 0 2 ≡ ret (pos 2) (5 ∷ 6 ∷ []) half_read
unfolding peek_peek look load
peek_of_buffered = refl

read_of_buffered :
    peek_read from_memory granted half_read 0 1
    ≡ ret (pos 1) (5 ∷ []) (record half_read { offset = 2 })
unfolding peek_read from_buffer rest_of_read load tidy
read_of_buffered = refl

peek_read-IsReader_example : IsReader (IsValid Any) (unread all_of) (peek_read from_memory granted)
peek_read-IsReader_example =
    peek_read-IsReader Any all_of from_memory granted from_memory-IsReader granted_all

peek_peek-Peeked_example :
    Peeked
      (IsValid Any)
      (unread all_of)
      (5 ∷ 6 ∷ 7 ∷ 8 ∷ [])
      3
      (peek_peek from_memory granted half_read 0 3)
peek_peek-Peeked_example =
    peek_peek-Peeked Any all_of from_memory granted from_memory-IsReader granted_all half_read 3 0 3
      refl half_read-IsValid

-- ENOMEM
abbrev out_of_memory : ℕ → Allocation
out_of_memory n = refused 12

refill-refused_example :
    (p : Peek Bytes) × (peek_read from_memory out_of_memory (opened (1 ∷ 2 ∷ [])) 0 10
      ≡ ret minus_one [] p)
    × ((addr len : ℕ) → 0 < len → peek_read from_memory out_of_memory p addr len ≡ stuck)
refill-refused_example =
    refill-refused from_memory out_of_memory (1 ∷ 2 ∷ []) 0 10 12 (omega arith) (omega arith) refl

-- a disk that fails once, and then gives a byte
abbrev flaky : Bytes → ℕ → ℕ → Reply Bytes
flaky [] addr n = ret minus_one [] (7 ∷ [])
flaky (c ∷ s) addr n = ret (pos 1) (c ∷ []) s

refill_size_bounds_example :
    (4096 < refill_size 4096 10)
    × (10 < refill_size 4096 10)
    × (refill_size 4096 10 % 4096 ≡ 0)
    × (1024 * 1024 < refill_size 4096 10)
    × (refill_size 4096 10 ≤ max 4096 (max (1024 * 1024) 10) + 4096)
refill_size_bounds_example = refill_size_bounds 4096 10

-- a child whose seek goes to the end
abbrev seekable : Source Bytes
seekable = record {
  name = [];
  read = from_memory;
  peek = none;
  tell = none;
  seek = some (λ s offset whence. (offset, []));
}

peek_seek_stale_example :
    peek_read from_memory granted (peek_seek seekable half_read (pos 5) 0).1 0 1
    ≡ ret (pos 1) (5 ∷ []) (record (peek_seek seekable half_read (pos 5) 0).1 { offset = 1 + 1 })
peek_seek_stale_example =
    peek_seek_stale seekable granted (7 ∷ 8 ∷ []) (4 ∷ 5 ∷ 6 ∷ []) 3 1 0 1 (pos 5) 0 (omega arith)
      (omega arith)
