-- ===== src/Zlib/RoundTrip.antt =====
-- What the gzip writer has written, the gzip reader reads.
use wandio.Writer.Contract.{TakesAll, TakesAll-IsSink, TakesAll-never_fails}
use wandio.Base.{
  ℕ, ◌+◌, ◌^◌, ◌<◌, ◌≡◌, ◌≢◌, ◌∙◌, sym, subst, ap, inl, inr, [], ◌++◌, Option, none, some, length,
  Bytes, arith,
}
use wandio.Writer.{Outcome, done, aborted, no_fuel, Sink}
use wandio.Codec.{err_ok, Call, buff_size}
use wandio.Codec.Read.{Stream}
use wandio.Codec.Read.Served.{left}
use wandio.Codec.Write.{Deflater}
use wandio.Codec.Write.Encoder.{IsEncoder}
use wandio.Codec.Write.Took.{Linked, Wrote}
use wandio.Codec.Close.Closed.{IsFinisher, AllWritten, close_stream-AllWritten}
use wandio.Zlib.{
  opened, Flush, Returned, deflate_run, deflate_finish, goes_on, zlib_wwrite, zlib_wclose,
}
use wandio.Zlib.Reads.{Ready}
use wandio.Zlib.Writes.{zlib_wwrite-Wrote}

-- The calls of a program that writes `buffer` and closes the writer, on fuel for the loop of the
-- first, and for that of the second by a bound on what the encoder is still to make.
module _ {E W : Type 0} (deflate : E → Bytes → Flush → ℕ → Call E Returned) (child : Sink W)
    (fuel : ℕ) (to_come : E → ℕ) where
  abbrev pub closed : Outcome (Deflater E W) → Option (E × W)
  closed (done v s) = zlib_wclose deflate child (to_come s.coder + buff_size + 1) s
  closed aborted = none
  closed no_fuel = none

  abbrev pub write_and_close : Deflater E W → Bytes → Option (E × W)
  write_and_close s buffer = closed (zlib_wwrite deflate child fuel s buffer)

module _ {D S E W : Type 0} (ValidS : S → Type 0) (rest : S → Bytes) (plain : D → Bytes → Bytes)
    (Complete : D → Bytes → Type 0) (init : D) (ValidW : W → Type 0) (taken : W → Bytes)
    (fed emitted : E → Bytes) (Finished : E → Type 0) (bound : E → Bytes → ℕ) (to_come : E → ℕ)
    (deflate : E → Bytes → Flush → ℕ → Call E Returned) (child : Sink W)
    (library : IsEncoder fed emitted bound (deflate_run deflate child))
    (finisher : IsFinisher fed emitted Finished to_come goes_on (deflate_finish deflate child))
    (all : TakesAll ValidW taken child.write)
    (agrees : (e : E)
      → Finished e
      → Complete init (emitted e) × (emitted e ≢ []) × (plain init (emitted e) ≡ fed e))
    (reopen : W → S)
    (reopened : (w : W) → ValidW w → ValidS (reopen w) × (rest (reopen w) ≡ taken w)) where
  -- The encoder and the child that are left: a gzip reader that is opened on the file behind the child
  -- is ready, and its text is `text`.
  abbrev pub Stored : Bytes → Option (E × W) → Type 0
  Stored text none = ⊥
  Stored text (some (e, w)) =
      let s : Stream D S = opened init (reopen w) in
      Ready ValidS rest plain Complete init s × (left rest plain s ≡ text)

  closed-Stored :
      (text : Bytes) (o : Option (E × W))
      → AllWritten ValidW taken fed emitted Finished to_come goes_on
          (deflate_finish deflate child)
          child.write
          finisher
          all
          text
          o
      → Stored text o
  closed-Stored text none h = h
  closed-Stored text (some (e, w)) (over, is, written, v) =
      let (whole, some_bytes, back) = agrees e over in
      let (good, same) = reopened w v in
      let file : emitted e ≡ rest (reopen w) = sym (same ∙ written) in
      (
        record {
          parent = good;
          whole =
              (subst (Complete init) file whole, (λ _ none_left. some_bytes (file ∙ none_left)));
        },
        ap (plain init) (sym file) ∙ back ∙ is,
      )

  written-Stored :
      (fuel : ℕ) (before buffer : Bytes) (o : Outcome (Deflater E W))
      → before ≡ []
      → Wrote ValidW taken fed emitted child.write before buffer o
      → Stored buffer (closed deflate child fuel to_come o)
  unfolding zlib_wclose
  written-Stored fuel before buffer aborted e h = absurd h
  written-Stored fuel before buffer no_fuel e h = absurd h
  written-Stored fuel before buffer (done v s) e (inl (is, fine, all_fed, ready)) =
      subst (λ z. Stored z (closed deflate child fuel to_come (done v s)))
        (all_fed ∙ ap (λ z. z ++ buffer) e)
        (closed-Stored (fed s.coder) (closed deflate child fuel to_come (done v s)) (
          close_stream-AllWritten ValidW taken fed emitted Finished to_come goes_on
            (deflate_finish deflate child) child.write finisher all s
            (to_come s.coder + buff_size + 1) ready (omega (arith, ready.few))))
  written-Stored fuel before buffer (done v s) e (inr (bad, (w, bytes, code, good, err), parts)) =
      absurd (TakesAll-never_fails ValidW taken child.write all w bytes code good err)

  -- With libraries whose decoder has the text of what their encoder has finished, and a child that
  -- takes all it is given: what is left of writing fewer than 2^32 bytes to a fresh writer and closing
  -- it is a file that a reader, opened over a parent with the file's bytes, is ready to read, and the
  -- reader's text is these bytes and no more.
  pub write_and_close-Stored :
      (s : Deflater E W) (buffer : Bytes) (fuel : ℕ)
      → length buffer < 2 ^ 32
      → Linked ValidW taken fed emitted s
      → s.err ≡ err_ok
      → fed s.coder ≡ []
      → bound s.coder buffer + 1 < fuel
      → Stored buffer (write_and_close deflate child fuel to_come s buffer)
  write_and_close-Stored s buffer fuel short ready e fresh enough =
      written-Stored fuel (fed s.coder) buffer (zlib_wwrite deflate child fuel s buffer) fresh (
        zlib_wwrite-Wrote ValidW taken fed emitted deflate child bound library
          (TakesAll-IsSink ValidW taken child.write all) s buffer fuel short ready e enough)
