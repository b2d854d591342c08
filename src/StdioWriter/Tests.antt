-- ===== src/StdioWriter/Tests.antt =====
-- The plain writer over a file that takes everything, and over one that takes little.
use wandio.Base.{
  ℕ, ◌+◌, ◌-◌, ◌%◌, ◌^◌, ◌≡◌, ◌≤◌, ◌<◌, refl, [], ◌∷◌, ◌++◌, some, length, take, take_of_length_le,
  replicate, length-replicate, pos, Bytes, arith,
}
use wandio.StdioWriter.{Stdiow, Calls, stdio_wwrite, stdio_wflush, wwrite_loop, to_int}
use wandio.Writer.{done, aborted}
use wandio.StdioWriter.Written.{IsFile, Took, stdio_wwrite-Took, stdio_wflush-taken}
use wandio.StdioWriter.Truncated.{stdio_wwrite_cut}

-- a file in memory, with O_DIRECT off
abbrev in_memory : Calls Bytes
in_memory = record {
  writev = λ f bytes. (pos (length bytes), f ++ bytes);
  set_buffered = λ f. some f;
}

abbrev contents : Bytes → Bytes
contents f = f

in_memory-IsFile : IsFile contents in_memory
in_memory-IsFile = record { appends = λ f bytes. (omega arith, all_of f bytes, λ h. h) }
  where
    all_of : (f bytes : Bytes) → f ++ bytes ≡ f ++ take (length bytes) bytes
    all_of f bytes = rw (take_of_length_le (length bytes) bytes (omega arith))

abbrev started : Stdiow Bytes
started = record { held = 1 ∷ 2 ∷ []; file = [] }

short_write :
    stdio_wwrite in_memory started (3 ∷ [])
    ≡ done (pos 1) (record started { held = 1 ∷ 2 ∷ 3 ∷ [] })
unfolding stdio_wwrite wwrite_loop to_int
short_write = refl

stdio_wwrite-Took_example :
    Took contents started (3 ∷ 4 ∷ []) (pos 2) (stdio_wwrite in_memory started (3 ∷ 4 ∷ []))
stdio_wwrite-Took_example =
    stdio_wwrite-Took contents in_memory in_memory-IsFile started (3 ∷ 4 ∷ []) (omega arith)
      (omega arith)

stdio_wflush-taken_example :
    (s' : Stdiow Bytes) × (stdio_wflush in_memory started ≡ done (pos 2) s')
    × (s'.held ≡ [])
    × (s'.file ≡ 1 ∷ 2 ∷ [])
stdio_wflush-taken_example =
    stdio_wflush-taken contents in_memory in_memory-IsFile started [] (1 ∷ 2 ∷ []) refl refl refl

-- so many bytes
sevens : ℕ → Bytes
sevens n = replicate n 7

length-sevens : (n : ℕ) → length (sevens n) ≡ n
unfolding sevens
length-sevens n = length-replicate n 7

-- with the two bytes held, as many as do not fit an `int`
abbrev many : ℕ
many = 2 ^ 31 - 1

stdio_wwrite_cut_example :
    (length (sevens many) % 2 ^ 32 ≡ 0
      → stdio_wwrite in_memory started (sevens many) ≡ done (pos (length (sevens many))) started)
    × (2 ^ 31 ≤ length (sevens many) % 2 ^ 32
        → stdio_wwrite in_memory started (sevens many) ≡ aborted)
    × (length (sevens many) < 2 ^ 31
        → 2 ^ 31 ≤ length started.held + length (sevens many)
        → stdio_wwrite in_memory started (sevens many) ≡ aborted)
stdio_wwrite_cut_example = stdio_wwrite_cut in_memory started (sevens many) (omega arith)

overrun : stdio_wwrite in_memory started (sevens many) ≡ aborted
overrun =
    (stdio_wwrite_cut in_memory started (sevens many) (omega arith)).2
      (omega (arith, length-sevens many)) (omega (arith, length-sevens many))
