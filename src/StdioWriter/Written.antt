-- ===== src/StdioWriter/Written.antt =====
-- What reaches the file, of the bytes handed to `stdio_wwrite` and `stdio_wflush`.
use wandio.Base.{
  ℕ, zero, suc, ◌+◌, ◌-◌, ◌%◌, ◌^◌, ◌≤◌, ◌<◌, ◌≡◌, ◌∙◌, sym, subst, ap, ap₂, refl, inl, inr, [],
  ◌++◌, append_assoc, append-nil, some, min, length, take, drop, length-append, length-take,
  length-drop, take-append-drop, take_of_length_le, drop_of_length_le, take-append_ge, take-take,
  leb, le→leb, leb→le, not_leb→lt, lt→ltb, Bool-cases, ℤ, pos, negsuc, Bytes, arith,
}
use wandio.StdioWriter.{
  Stdiow, to_int, Calls, offered, after_writev, copied, wwrite_loop, with_len, stdio_wwrite,
  stdio_wflush, min_write_size,
}
use wandio.Writer.{Outcome, done, aborted, no_fuel}

-- What the system promises of a file whose contents are `contents`: a write appends the first bytes
-- offered, as many as it returns, and of at least a block it writes at least a block; a failed write
-- appends nothing.
module _ {F : Type 0} (contents : F → Bytes) where
  abbrev pub Appended : F → Bytes → ℤ × F → Type 0
  Appended f bytes (pos k, f') =
      (k ≤ length bytes)
      × (contents f' ≡ contents f ++ take k bytes)
      × (min_write_size ≤ length bytes → min_write_size ≤ k)
  Appended f bytes (negsuc e, f') = contents f' ≡ contents f

  pub record IsFile (sys : Calls F) : Type 0 where
    pub appends : (f : F) (bytes : Bytes) → Appended f bytes (sys.writev f bytes)

  -- all bytes that the writer has taken: those in the file, then those it holds
  abbrev pub taken : Stdiow F → Bytes
  taken s = contents s.file ++ s.held

  -- A call that was handed `bytes`: on success all are taken and fewer than a block held; on an error a
  -- part of what was held and handed over is in the file.
  abbrev pub Took : Stdiow F → Bytes → ℤ → Outcome (Stdiow F) → Type 0
  Took s bytes v (done (pos k) s') =
      (pos k ≡ v) × (taken s' ≡ taken s ++ bytes) × (length s'.held < min_write_size)
  Took s bytes v (done (negsuc e) s') =
      (written : Bytes) × (left : Bytes) × (s.held ++ bytes ≡ written ++ left)
      × (contents s'.file ≡ contents s.file ++ written)
  Took s bytes v aborted = ⊥
  Took s bytes v no_fuel = ⊥

-- With less than a block held and a block at hand, all that is held is offered, and a block at least.
module _ {F : Type 0} (sys : Calls F) (held buffer : Bytes) (few : length held < min_write_size)
    (enough : min_write_size ≤ length held + length buffer) where
  abbrev all : ℕ
  all = length held + length buffer

  -- the bytes offered from the caller's buffer
  abbrev fresh : ℕ
  fresh = all - all % min_write_size - length held

  offered_blocks : offered sys all held buffer ≡ held ++ take fresh buffer
  offered_blocks =
      ap (λ front. front ++ take fresh buffer)
        (take_of_length_le (all - all % min_write_size) held (omega arith))

  length-offered :
      (length (offered sys all held buffer) ≡ length held + fresh)
      × (min_write_size ≤ length (offered sys all held buffer))
      × (fresh ≤ length buffer)
  length-offered =
      let size = ap length offered_blocks ∙ length-append held (take fresh buffer) in
      (
        omega (arith, size, length-take fresh buffer),
        omega (arith, size, length-take fresh buffer),
        omega arith,
      )

  -- the first bytes of what is offered, beyond what is held
  take-offered :
      (k : ℕ)
      → length held ≤ k
      → k - length held ≤ fresh
      → take k (offered sys all held buffer) ≡ held ++ take (k - length held) buffer
  take-offered k h m =
      ap (take k) offered_blocks
      ∙ take-append_ge k held (take fresh buffer) h
      ∙ ap (λ back. held ++ back) (take-take (k - length held) fresh buffer m)

pub to_int_small : (n : ℕ) → n < 2 ^ 31 → to_int n ≡ pos n
unfolding to_int
to_int_small n h = let small : n % 2 ^ 32 ≡ n = omega arith in rw (small, lt→ltb n (2 ^ 31) h)

module _ {F : Type 0} (contents : F → Bytes) where
  -- `mid` has gone to the file, and the call goes on with the rest
  Took-later :
      (s : Stdiow F) (f : F) (bytes mid later : Bytes) (v : ℤ) (o : Outcome (Stdiow F))
      → s.held ++ bytes ≡ mid ++ later
      → contents f ≡ contents s.file ++ mid
      → Took contents (record { held = []; file = f }) later v o
      → Took contents s bytes v o
  Took-later s f bytes mid later v aborted e c t = t
  Took-later s f bytes mid later v no_fuel e c t = t
  Took-later s f bytes mid later v (done (negsuc n) s') e c (written, left, parts, grown) = (
    mid ++ written,
    left,
    e ∙ ap (λ x. mid ++ x) parts ∙ sym (append_assoc mid written left),
    grown ∙ ap (λ x. x ++ written) c ∙ append_assoc (contents s.file) mid written,
  )
  Took-later s f bytes mid later v (done (pos k) s') e c (is, taken_all, few) = (
    is,
    taken_all
        ∙ ap (λ x. x ++ later) (append-nil (contents f) ∙ c)
        ∙ append_assoc (contents s.file) mid later
        ∙ ap (λ x. contents s.file ++ x) (sym e)
        ∙ sym (append_assoc (contents s.file) s.held bytes),
    few,
  )

  module _ (sys : Calls F) (regular : IsFile contents sys) where
    round-Took :
        (s : Stdiow F) (buffer : Bytes) (continue : Bytes → Stdiow F → Outcome (Stdiow F)) (v : ℤ)
        (reply : ℤ × F)
        → length s.held < min_write_size
        → min_write_size ≤ length s.held + length buffer
        → ((later : Bytes) (f : F)
            → length later < length s.held + length buffer
            → Took contents
                (record { held = []; file = f })
                later
                v
                (continue later (record { held = []; file = f })))
        → Appended contents s.file (offered sys (length s.held + length buffer) s.held buffer) reply
        → Took contents s buffer v (after_writev sys continue s buffer reply)
    unfolding after_writev
    round-Took s buffer continue v (negsuc e, f) few enough ih same =
        ([], s.held ++ buffer, refl, same ∙ sym (append-nil (contents s.file)))
    round-Took s buffer continue v (pos k, f) few enough ih (fits, grown, block) =
        let size = length-offered sys s.held buffer few enough in
        let over : length s.held ≤ k = omega arith in
        let j = k - length s.held in
        let amount : min (length s.held) k ≡ length s.held = omega arith in
        let empty : drop (length s.held) s.held ≡ [] =
          drop_of_length_le (length s.held) s.held (omega arith) in
        rw (amount, empty, le→leb j (length buffer) (omega arith))
          (Took-later s f buffer (s.held ++ take j buffer) (drop j buffer) v _
            (ap (λ x. s.held ++ x) (sym (take-append-drop j buffer))
              ∙ sym (append_assoc s.held (take j buffer) (drop j buffer)))
            (grown
              ∙ ap (λ x. contents s.file ++ x)
                  (take-offered sys s.held buffer few enough k over (omega arith)))
            (ih (drop j buffer) f (omega (arith, length-drop j buffer))))

    loop-Took :
        (fuel : ℕ) (buffer : Bytes) (s : Stdiow F)
        → length s.held < min_write_size
        → length s.held + length buffer < fuel
        → length s.held + length buffer < 2 ^ 31
        → Took contents s buffer (pos 0) (wwrite_loop sys fuel buffer s)
    unfolding wwrite_loop copied
    loop-Took zero buffer s few enough short = absurd (omega arith)
    loop-Took (suc fuel) buffer s few enough short =
        let sum = to_int_small (length s.held + length buffer) short in
        elim (Bool-cases (leb min_write_size (length s.held + length buffer))) [
          | inl more ↦
              rw (sum, wwrite_loop, more)
                (round-Took s buffer (wwrite_loop sys fuel) (pos 0) _ few
                  (leb→le min_write_size (length s.held + length buffer) more)
                  (λ later f h.
                    loop-Took fuel later (record { held = []; file = f }) (omega arith)
                      (omega arith) (omega arith))
                  (regular.appends s.file
                    (offered sys (length s.held + length buffer) s.held buffer)))
          | inr last ↦
              let less = not_leb→lt min_write_size (length s.held + length buffer) last in
              rw
                (
                  sum,
                  wwrite_loop,
                  last,
                  le→leb (length s.held + length buffer) min_write_size (omega arith),
                )
                (
                  refl,
                  sym (append_assoc (contents s.file) s.held buffer),
                  omega (
                    arith,
                    not_leb→lt min_write_size (length s.held + length buffer) last,
                    length-append s.held buffer,
                  ),
                )
        ]

    with_len-Took :
        (s : Stdiow F) (buffer : Bytes) (n : ℕ) (o : Outcome (Stdiow F))
        → Took contents s buffer (pos 0) o
        → Took contents s buffer (pos n) (with_len sys n o)
    unfolding with_len
    with_len-Took s buffer n (done (pos k) s') t = (refl, t.1, t.2)
    with_len-Took s buffer n (done (negsuc e) s') t = t
    with_len-Took s buffer n aborted t = t
    with_len-Took s buffer n no_fuel t = t

    -- With less than a block held, and fewer than 2^31 bytes held and handed over together,
    -- `stdio_wwrite` comes to an end with no assertion failing. Where no call fails it returns the number of bytes handed over:
    -- the file and the buffer together then hold what they held before followed by these bytes, less
    -- than a block of it in the buffer. Where a call fails it returns a negative value, and what was
    -- held and handed over is in the file up to some byte.
    pub stdio_wwrite-Took :
        (s : Stdiow F) (buffer : Bytes)
        → length s.held < min_write_size
        → length s.held + length buffer < 2 ^ 31
        → Took contents s buffer (pos (length buffer)) (stdio_wwrite sys s buffer)
    unfolding stdio_wwrite
    stdio_wwrite-Took s buffer few short =
        let n = length buffer in
        rw (to_int_small n (omega arith), stdio_wwrite, take_of_length_le n buffer (omega arith))
          (with_len-Took s buffer n _
            (loop-Took (suc (length s.held + n)) buffer s few (omega arith) short))

    -- A flush that the system carries out in full leaves nothing held, and the file with all that the
    -- writer has taken.
    pub stdio_wflush-taken :
        (s : Stdiow F) (f f' : F)
        → sys.set_buffered s.file ≡ some f
        → contents f ≡ contents s.file
        → sys.writev f s.held ≡ (pos (length s.held), f')
        → (s' : Stdiow F) × (stdio_wflush sys s ≡ done (pos (length s.held)) s')
          × (s'.held ≡ [])
          × (contents s'.file ≡ taken contents s)
    unfolding stdio_wflush
    stdio_wflush-taken s f f' cleared kept wrote =
        (record { held = []; file = f' }, rw (cleared, stdio_wflush, wrote), refl, grown)
      where
        grown : contents f' ≡ taken contents s
        grown =
            (subst (Appended contents f s.held) wrote (regular.appends f s.held)).1
            ∙ ap₂ (λ x y. x ++ y) kept (take_of_length_le (length s.held) s.held (omega arith))
