-- ===== src/Fgets.antt =====
-- `wandio_generic_fgets` and `wandio_fgets` of lib/wandio.c.
pub mod Line
mod Tests
use wandio.Base.{
  ℕ, zero, suc, ◌+◌, ◌^◌, leb, Bool, true, false, [], ◌∷◌, ◌++◌, length, ◌==◌, if◌then◌else◌, ℤ,
  pos, negsuc, Bytes,
}
use wandio.Reader.{Reply, ret, stuck, Source, wandio_read}

-- The byte that is stored for a byte that has been read: a newline is replaced when chomping.
pub stored_byte : Bool → ℕ → ℕ
stored_byte chomp c = if c == b'\n' then (if chomp then 0 else c) else c

module _ {S : Type 0} (read_cb : S → ℕ → ℕ → Reply S) (chomp : Bool) where
  -- behind the loop: the final NUL, and the return of `i`, the number of bytes in front of it
  abbrev pub terminated : Bytes → S → Reply S
  terminated held s = ret (pos (length held)) (held ++ 0 ∷ []) s

  -- One round of the loop on the callback's reply, with the bytes stored so far, of which `i` is the
  -- number. A callback that reports a byte and stores none leaves an unset byte in `cbuf`. Behind a
  -- byte `i` is counted up, which for an `int` of 2^31 - 1 is an overflow. The callback's errors are
  -- taken to fit the `int` that `rval` is.
  after_read : (Bytes → S → Reply S) → Bytes → Reply S → Reply S
  after_read continue held stuck = stuck
  after_read continue held (ret (negsuc e) bytes s) = ret (negsuc e) held s
  after_read continue held (ret (pos zero) bytes s) = terminated held s
  after_read continue held (ret (pos (suc k)) [] s) = stuck
  after_read continue held (ret (pos (suc k)) (c ∷ bytes) s) =
      if leb (2 ^ 31) (length held + 1)
      then stuck
      else if c == b'\n'
      then terminated (held ++ stored_byte chomp c ∷ []) s
      else continue (held ++ c ∷ []) s

  -- The loop, with room for so many bytes more.
  pub fgets_loop : ℕ → Bytes → S → Reply S
  unfolding after_read
  fgets_loop zero held s = terminated held s
  fgets_loop (suc room) held s = after_read (fgets_loop room) held (read_cb s 0 1)

  -- `buffer` is not NULL here
  pub wandio_generic_fgets : S → ℤ → Reply S
  wandio_generic_fgets s (negsuc n) = ret (pos 0) [] s
  wandio_generic_fgets s (pos zero) = ret (pos 0) [] s
  wandio_generic_fgets s (pos (suc room)) = fgets_loop room [] s

pub wandio_fgets : {S : Type 0} → Source S → S → ℤ → Bool → Reply S
unfolding wandio_generic_fgets fgets_loop
wandio_fgets io s len chomp = wandio_generic_fgets (wandio_read io) chomp s len
