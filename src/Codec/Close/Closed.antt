-- ===== src/Codec/Close/Closed.antt =====
-- A writer that is closed over a child that accepts everything has handed over all of the output.
use wandio.Writer.Contract.{TakesAll}
use wandio.Base.{
  ℕ, zero, suc, ◌+◌, ◌≤◌, ◌<◌, ◌≡◌, ◌∙◌, sym, ap, refl, Bool, true, false, [], ◌++◌, append-nil,
  append_assoc, Option, none, some, length, length-append, ℤ, Bytes, arith,
}
use wandio.Codec.{Call}
use wandio.Codec.Write.{Deflater, space}
use wandio.Codec.Write.Took.{Linked}
use wandio.Codec.Close.{close_loop, close_stream}

-- A loop that does not go on makes one call.
pub close_once :
    {E W C : Type 0} (finish : E → ℕ → Call E C) (again : C → Bool) (write : W → Bytes → ℤ × W)
    (s : Deflater E W) (fuel : ℕ)
    → let c = finish s.coder (space s.held) in
      again c.code ≡ false
      → close_stream finish again write (suc fuel) s
        ≡ some (c.next, (write s.child (s.held ++ c.made)).1)
unfolding close_stream close_loop
close_once finish again write s fuel stops =
    let c = finish s.coder (space s.held) in
    let ends : close_loop finish again write (suc fuel) s
        ≡ some (record s { coder = c.next; held = s.held ++ c.made }) =
      rw (stops, close_loop) in
    rw (ends, close_stream)

-- What the loop relies on of the library: the call ends the stream, or fills the room and asks for
-- another; `bound e` limits what is still to come.
module _ {E C : Type 0} (fed emitted : E → Bytes) (Finished : E → Type 0) (bound : E → ℕ)
    (again : C → Bool) where
  pub record IsFinisher (finish : E → ℕ → Call E C) : Type 0 where
    pub fits : (e : E) (room : ℕ) → length (finish e room).made ≤ room
    pub keeps : (e : E) (room : ℕ) → fed (finish e room).next ≡ fed e
    pub emits :
        (e : E) (room : ℕ) → emitted (finish e room).next ≡ emitted e ++ (finish e room).made
    pub bounded :
        (e : E) (room : ℕ)
        → again (finish e room).code ≡ true
        → length (finish e room).made + bound (finish e room).next ≤ bound e
    pub ends :
        (e : E) (room : ℕ) → again (finish e room).code ≡ false → Finished (finish e room).next
    pub fills :
        (e : E) (room : ℕ) → again (finish e room).code ≡ true → length (finish e room).made ≡ room

module _ {E W C : Type 0} (Valid : W → Type 0) (taken : W → Bytes) (fed emitted : E → Bytes)
    (Finished : E → Type 0) (bound : E → ℕ) (again : C → Bool) (finish : E → ℕ → Call E C)
    (write : W → Bytes → ℤ × W) (library : IsFinisher fed emitted Finished bound again finish)
    (child : TakesAll Valid taken write) where
  -- the encoder has finished what it was fed, and the child has all of its output
  abbrev pub AllWritten : Bytes → Option (E × W) → Type 0
  AllWritten text none = ⊥
  AllWritten text (some (e, w)) = Finished e × (fed e ≡ text) × (taken w ≡ emitted e) × Valid w

  abbrev Ended : Bytes → Option (Deflater E W) → Type 0
  Ended text none = ⊥
  Ended text (some s) = Finished s.coder × (fed s.coder ≡ text) × Linked Valid taken fed emitted s

  again-Ended :
      (text : Bytes) (b : Bool) (x : Option (Deflater E W)) (s : Deflater E W)
      → (b ≡ true → Ended text x)
      → (b ≡ false → Ended text (some s))
      → Ended text (elim b [ true ↦ x | false ↦ some s ])
  again-Ended text true x s f g = f refl
  again-Ended text false x s f g = g refl

  -- one call for each megabyte that is still to come, after one that empties `outbuff`
  close_loop-Ended :
      (text : Bytes) (fuel : ℕ) (s : Deflater E W)
      → Linked Valid taken fed emitted s
      → fed s.coder ≡ text
      → bound s.coder + length s.held < fuel
      → Ended text (close_loop finish again write fuel s)
  unfolding close_loop
  close_loop-Ended text zero s ready is enough = absurd (omega arith)
  close_loop-Ended text (suc fuel) s ready is enough =
      let c = finish s.coder (space s.held) in
      let held = s.held ++ c.made in
      let s' : Deflater E W = record s { coder = c.next; held = held } in
      let next : Deflater E W = record s' { child = (write s.child held).1; held = [] } in
      let size : length held ≡ length s.held + length c.made = length-append s.held c.made in
      let linked : emitted c.next ≡ taken s.child ++ held =
        library.emits s.coder (space s.held)
        ∙ ap (λ z. z ++ c.made) ready.linked
        ∙ append_assoc (taken s.child) s.held c.made in
      let accepted = child.takes s.child held ready.child in
      again-Ended text (again c.code) (close_loop finish again write fuel next) s'
        (λ more.
          close_loop-Ended text fuel next
            (record {
              child = accepted.0;
              few = omega arith;
              linked = linked ∙ sym accepted.1 ∙ sym (append-nil (taken next.child));
            })
            (library.keeps s.coder (space s.held) ∙ is)
            (omega (
              arith,
              library.bounded s.coder (space s.held) more,
              library.fills s.coder (space s.held) more,
              ready.few,
            )))
        (λ over. (
          library.ends s.coder (space s.held) over,
          library.keeps s.coder (space s.held) ∙ is,
          record {
            child = ready.child;
            few = omega (arith, library.fits s.coder (space s.held), ready.few);
            linked = linked;
          },
        ))

  last-AllWritten :
      (text : Bytes) (o : Option (Deflater E W))
      → Ended text o
      → AllWritten text
          (elim o [ none ↦ none | some s' ↦ some (s'.coder, (write s'.child s'.held).1) ])
  last-AllWritten text none h = h
  last-AllWritten text (some s) (done, is, ready) =
      let accepted = child.takes s.child s.held ready.child in
      (done, is, accepted.1 ∙ sym ready.linked, accepted.0)

  pub close_stream-AllWritten :
      (s : Deflater E W) (fuel : ℕ)
      → Linked Valid taken fed emitted s
      → bound s.coder + length s.held < fuel
      → AllWritten (fed s.coder) (close_stream finish again write fuel s)
  unfolding close_stream
  close_stream-AllWritten s fuel ready enough =
      last-AllWritten (fed s.coder) (close_loop finish again write fuel s)
        (close_loop-Ended (fed s.coder) fuel s ready refl enough)
