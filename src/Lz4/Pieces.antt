-- ===== src/Lz4/Pieces.antt =====
-- What `lz4_wwrite` hands to the library and to its child.
use wandio.Base.{
  ℕ, zero, suc, ◌+◌, ◌-◌, ◌%◌, ◌^◌, ◌≤◌, ◌<◌, ◌≡◌, ◌≢◌, minus_one, ◌∙◌, sym, subst, ap, refl, inl,
  inr, min, Bool-cases, [], ◌++◌, Option, append_assoc, append-nil, some, length, length-append,
  length-take, length-drop, take, drop, take_of_length_le, take-append-take-drop, ltb, leb, ltb→lt,
  not_ltb→le, le→ltb, leb→le, lt→ltb, not_leb→lt, lt→not_leb, ==_iff, if◌then◌else◌, ℤ, pos, negsuc,
  Bytes, arith,
}
use wandio.Writer.{Outcome, done, aborted, no_fuel, Sink}
use wandio.Writer.Contract.{TakesAll}
use mathlib.Core.Bool.{false≢true}
use wandio.Codec.{Err, err_ok, err_eof, err_error, is_ok}
use wandio.Codec.Read.Served.{ok_not_error}
use wandio.Lz4.{
  out_size, piece_size, Lz4Writer, Lz4, piece_updated, update_piece, held_written, piece_at,
  lz4_loop, lz4_wwrite,
}

abbrev count_of : ℤ → ℕ
count_of (pos n) = n
count_of (negsuc n) = 0

eof_not_ok : err_eof ≢ err_ok
eof_not_ok e = false≢true (ap is_ok e)

-- What liblz4 promises of its block functions: the bound of a piece fits the buffer, and with room for
-- the bound of its input an update does not fail. `fed e` is the input and `emitted e` the output of
-- the context `e` so far.
module _ {E : Type 0} (fed emitted : E → Bytes) where
  pub record Updated (e : E) (piece : Bytes) (room : ℕ) (r : Option Bytes × E) : Type 0 where
    pub made : Bytes
    pub next : E
    pub is : r ≡ (some made, next)
    pub fits : length made ≤ room
    pub feeds : fed next ≡ fed e ++ piece
    pub emits : emitted next ≡ emitted e ++ made

  pub record Updates (lib : Lz4 E) : Type 0 where
    pub bounded : (n : ℕ) → n ≤ piece_size → lib.compress_bound n ≤ out_size
    pub updates :
        (e : E) (piece : Bytes) (room : ℕ)
        → length piece ≤ piece_size
        → lib.compress_bound (length piece) ≤ room
        → Updated e piece room (lib.compress_update e piece room)

module _ {E W : Type 0} (Valid : W → Type 0) (taken : W → Bytes) (fed emitted : E → Bytes)
    (lib : Lz4 E) (child : Sink W) (library : Updates fed emitted lib)
    (all : TakesAll Valid taken child.write) where
  -- all output of the library is with the child or in `outbuf`
  pub record Ready (s : Lz4Writer E W) : Type 0 where
    pub good : Valid s.child
    pub few : length s.held ≤ out_size
    pub linked : emitted s.coder ≡ taken s.child ++ s.held
    pub fine : s.err ≡ err_ok

  -- A call that was handed `buffer`, with `before` fed to the library earlier: all of it is fed, and
  -- the call returns the length of the last piece, in front of which there are pieces of 1 MB.
  abbrev pub Fed : Bytes → Bytes → Outcome (Lz4Writer E W) → Type 0
  Fed before buffer (done (pos k) s') =
      (fed s'.coder ≡ before ++ buffer)
      × Ready s'
      × (0 < k)
      × (k ≤ piece_size)
      × (k ≤ length buffer)
      × ((length buffer - k) % piece_size ≡ 0)
  Fed before buffer (done (negsuc e) s') = ⊥
  Fed before buffer aborted = ⊥
  Fed before buffer no_fuel = ⊥

  module _ (before buffer : Bytes) (short : length buffer < 2 ^ 31) where
    -- the state in front of the round for the piece at `index`
    record At (s : Lz4Writer E W) (index : ℕ) : Type 0 where
      ready : Ready s
      so_far : fed s.coder ≡ before ++ take index buffer
      inside : index < length buffer
      whole : index % piece_size ≡ 0

    -- the round continues well where the loop does
    abbrev Continues : (Lz4Writer E W → ℕ → Outcome (Lz4Writer E W)) → ℕ → Type 0
    Continues continue index =
        (s : Lz4Writer E W) (later : ℕ)
        → index < later
        → At s later
        → Fed before buffer (continue s later)

    length-piece :
        (index : ℕ)
        → length (piece_at lib child buffer index) ≡ min piece_size (length buffer - index)
    length-piece index =
        let n = min piece_size (length buffer - index) in
        omega (arith, length-take n (drop index buffer), length-drop index buffer)

    -- the pieces up to `index` and the one there
    take-piece :
        (index : ℕ)
        → take index buffer ++ piece_at lib child buffer index
          ≡ take (index + min piece_size (length buffer - index)) buffer
    take-piece index =
        let n = min piece_size (length buffer - index) in
        let e : index + n - index ≡ n = omega arith in
        subst (λ z. take index buffer ++ take z (drop index buffer) ≡ take (index + n) buffer) e
          (take-append-take-drop index (index + n) buffer (omega arith))

    -- behind an update that made `made`
    made-Fed :
        (continue : Lz4Writer E W → ℕ → Outcome (Lz4Writer E W)) (s : Lz4Writer E W)
        (index size : ℕ) (made : Bytes) (e : E)
        → size ≡ min piece_size (length buffer - index)
        → index < length buffer
        → index % piece_size ≡ 0
        → Ready s
        → fed e ≡ before ++ take (index + size) buffer
        → emitted e ≡ emitted s.coder ++ made
        → length s.held + length made ≤ out_size
        → Continues continue index
        → Fed before buffer
            (piece_updated lib child continue s size index (length buffer) (some made, e))
    unfolding piece_updated
    made-Fed continue s index size made e cut inside whole ready is out fits continues =
        let s' : Lz4Writer E W = record s { coder = e; held = s.held ++ made } in
        let ready' : Ready s' = record {
          good = ready.good;
          few = omega (arith, length-append s.held made);
          linked =
              out ∙ ap (λ z. z ++ made) ready.linked ∙ append_assoc (taken s.child) s.held made;
          fine = ready.fine;
        } in
        elim (Bool-cases (leb (length buffer) (index + size))) [
          | inl last ↦
              let over = leb→le (length buffer) (index + size) last in
              rw
                (
                  le→ltb out_size (length s.held + length made) fits,
                  lt→not_leb (2 ^ 31) (index + size) (omega arith),
                  last,
                )
                (
                  is
                      ∙ ap (λ z. before ++ z)
                          (take_of_length_le (index + size) buffer (omega arith)),
                  ready',
                  omega arith,
                  omega arith,
                  omega arith,
                  (let e : length buffer - size ≡ index = omega arith in rw e whole),
                )
          | inr more ↦
              let less = not_leb→lt (length buffer) (index + size) more in
              rw
                (
                  le→ltb out_size (length s.held + length made) fits,
                  lt→not_leb (2 ^ 31) (index + size) (omega arith),
                  more,
                )
                (continues s' (index + size) (omega arith)
                  (record { ready = ready'; so_far = is; inside = less; whole = omega arith }))
        ]

    update-Fed :
        (continue : Lz4Writer E W → ℕ → Outcome (Lz4Writer E W)) (s : Lz4Writer E W) (index : ℕ)
        → At s index
        → lib.compress_bound (length (piece_at lib child buffer index)) ≤ out_size - length s.held
        → Continues continue index
        → Fed before buffer (
            update_piece lib child continue s
              (piece_at lib child buffer index)
              index
              (length buffer))
    unfolding update_piece
    update-Fed continue s index at room continues =
        let piece = piece_at lib child buffer index in
        let size = length-piece index in
        let n = min piece_size (length buffer - index) in
        let u = library.updates s.coder piece (out_size - length s.held) (omega arith) room in
        rw
          (
            le→ltb out_size (lib.compress_bound (length piece))
                (library.bounded (length piece) (omega arith)),
            u.is,
          )
          (made-Fed continue s index (length piece) u.made u.next size at.inside at.whole at.ready
            (u.feeds
              ∙ ap (λ z. z ++ piece) at.so_far
              ∙ append_assoc before (take index buffer) piece
              ∙ ap (λ z. before ++ z)
                  (take-piece index ∙ ap (λ z. take (index + z) buffer) (sym size)))
            u.emits (let fits = u.fits in let few = at.ready.few in omega arith) continues)

    -- the bytes held go to the child first
    written-Fed :
        (continue : Lz4Writer E W → Outcome (Lz4Writer E W)) (s : Lz4Writer E W) (r : ℤ × W)
        → 0 < length s.held
        → r.0 ≡ pos (length s.held)
        → Fed before buffer (continue (record s { child = r.1; held = [] }))
        → Fed before buffer (held_written lib child continue s r)
    unfolding held_written
    written-Fed continue s (negsuc e, w) some_held is h = absurd (cc is)
    written-Fed continue s (pos zero, w) some_held is h = absurd (omega (arith, ap count_of is))
    written-Fed continue s (pos (suc k), w) some_held is h =
        rw ((==_iff (suc k) (length s.held)).1 (ap count_of is)) h

    loop-Fed :
        (fuel : ℕ) (s : Lz4Writer E W) (index : ℕ)
        → At s index
        → length buffer ≤ index + fuel
        → Fed before buffer (lz4_loop lib child fuel buffer s index)
    unfolding lz4_loop
    loop-Fed zero s index at enough = let inside = at.inside in absurd (omega arith)
    loop-Fed (suc fuel) s index at enough =
        let bound = lib.compress_bound (length (piece_at lib child buffer index)) in
        let go_on : Continues (lz4_loop lib child fuel buffer) index =
          λ s' later h at'. loop-Fed fuel s' later at' (omega arith) in
        let fits =
          library.bounded (length (piece_at lib child buffer index))
            (omega (arith, length-piece index)) in
        elim (Bool-cases (ltb (out_size - length s.held) bound)) [
          | inr room ↦
              rw (room, lz4_loop)
                (update-Fed (lz4_loop lib child fuel buffer) s index at
                  (not_ltb→le (out_size - length s.held) bound room) go_on)
          | inl full ↦
              let less = ltb→lt (out_size - length s.held) bound full in
              let (good, grown, is) = all.takes s.child s.held at.ready.good in
              let s' : Lz4Writer E W = record s {
                child = (child.write s.child s.held).1;
                held = [];
              } in
              let linked =
                at.ready.linked
                ∙ sym grown
                ∙ sym (append-nil (taken (child.write s.child s.held).1)) in
              let at' : At s' index = record {
                ready = record {
                  good = good;
                  few = omega arith;
                  linked = linked;
                  fine = at.ready.fine;
                };
                so_far = at.so_far;
                inside = at.inside;
                whole = at.whole;
              } in
              rw (full, lz4_loop)
                (written-Fed
                  (λ z.
                    update_piece lib child (lz4_loop lib child fuel buffer) z
                      (piece_at lib child buffer index) index (length buffer))
                  s (child.write s.child s.held) (omega arith) is
                  (update-Fed (lz4_loop lib child fuel buffer) s' index at' (omega arith) go_on))
        ]

  by_err :
      (s : Lz4Writer E W) (buffer : Bytes) (e : Err)
      → s.err ≡ e
      → e ≡ err_ok
      → 0 < length buffer
      → length buffer < 2 ^ 31
      → Ready s
      → Fed (fed s.coder) buffer (elim e [
        | err_eof ↦ done (pos 0) s
        | err_error ↦ done minus_one s
        | err_ok ↦
            if ltb 0 (length buffer)
            then lz4_loop lib child (length buffer) buffer s 0
            else done (pos 0) s
      ])
  by_err s buffer err_eof is fine some_bytes short ready = absurd (eof_not_ok fine)
  by_err s buffer err_error is fine some_bytes short ready = absurd (ok_not_error (sym fine))
  by_err s buffer err_ok is fine some_bytes short ready = rw (lt→ltb 0 (length buffer) some_bytes) (
      loop-Fed (fed s.coder) buffer short (length buffer) s 0
        (record {
          ready = ready;
          so_far = sym (append-nil (fed s.coder));
          inside = some_bytes;
          whole = omega arith;
        })
        (omega arith))

  -- Over a child that takes all it is given, with a library whose updates do not fail: a call with 1 to
  -- 2^31 - 1 bytes ends with no assertion failing, all of the bytes are fed to the library in order,
  -- and all of its output is with the child or held. The value returned is not the number of bytes but
  -- that of the last piece: positive, at most 1 MB, and less than the number by a multiple of 1 MB.
  pub lz4_wwrite-Fed :
      (s : Lz4Writer E W) (buffer : Bytes)
      → 0 < length buffer
      → length buffer < 2 ^ 31
      → Ready s
      → Fed (fed s.coder) buffer (lz4_wwrite lib child s buffer)
  unfolding lz4_wwrite
  lz4_wwrite-Fed s buffer some_bytes short ready =
      by_err s buffer s.err refl ready.fine some_bytes short ready
