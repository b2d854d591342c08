-- ===== src/Codec/Read.antt =====
-- The loop of `zlib_read`, `bz_read` and `lzma_read`. The three differ in what they do at the end of
-- the parent's input and in their `switch`, which are parameters here.
pub mod Served
pub mod Steps
pub mod Faults
use wandio.Base.{
  ℕ, zero, suc, ◌+◌, ◌-◌, Bool, true, false, not, ◌&&◌, [], ◌∷◌, ◌++◌, length, drop, ltb, ◌==◌,
  if◌then◌else◌, ℤ, pos, negsuc, minus_one, Bytes,
}
use wandio.Reader.{Reply, ret, stuck}
use wandio.Codec.{Err, err_ok, err_eof, err_error, is_ok, Code, Call, buff_size, to_uint}

-- `struct zlib_t`, `struct bz_t`, `struct lzma_t`: `input` is the `avail_in` bytes at `next_in`;
-- `sincelastend` is zlib's.
pub record Stream (D S : Type 0) : Type 0 where
  pub coder : D
  pub input : Bytes
  pub parent : S
  pub err : Err
  pub sincelastend : ℕ

-- What is done where the parent has no more bytes: -1 and ERR_ERROR, 0 and ERR_EOF, or a return of
-- what has been read so far.
pub data AtEnd : Type 0 where
  unexpected ended so_far : AtEnd

module _ {D S : Type 0} (decode : D → Bytes → ℕ → Call D Code) (read : S → ℕ → ℕ → Reply S)
    (at_end : ℕ → Bool → AtEnd) (switch : Code → Stream D S → Stream D S) where
  -- the parent's end, with `room` bytes of `len` left in the caller's buffer
  end_of_parent : Stream D S → ℕ → ℕ → Bytes → AtEnd → Reply (Stream D S)
  end_of_parent s len room got unexpected = ret minus_one got (record s { err = err_error })
  end_of_parent s len room got ended = ret (pos 0) got (record s { err = err_eof })
  end_of_parent s len room got so_far = ret (pos (len - room)) got s

  -- `Decompress some data into the output buffer`
  round :
      (Stream D S → ℕ → Bytes → Reply (Stream D S)) → Stream D S → ℕ → Bytes → Reply (Stream D S)
  round continue s room got =
      let c = decode s.coder s.input room in
      continue (switch c.code (record s { coder = c.next; input = drop c.used s.input }))
        (room - length c.made) (got ++ c.made)

  -- the parent's reply, where `avail_in` is 0
  refilled :
      (Stream D S → ℕ → Bytes → Reply (Stream D S))
      → Stream D S
      → ℕ
      → ℕ
      → Bytes
      → Reply S
      → Reply (Stream D S)
  refilled continue s len room got stuck = stuck
  refilled continue s len room got (ret (pos zero) bytes p) =
      end_of_parent (record s { parent = p }) len room got
        (at_end s.sincelastend (room == to_uint len))
  refilled continue s len room got (ret (negsuc e) bytes p) =
      let s' = record s { parent = p; err = err_error } in
      if not (room == to_uint len) then ret (pos (len - room)) got s' else ret minus_one got s'
  refilled continue s len room got (ret (pos (suc k)) bytes p) =
      round continue (record s { parent = p; input = bytes; sincelastend = s.sincelastend + suc k })
        room got

  -- The loop, on fuel. The inner `while (avail_in <= 0)` has one round at most.
  pub read_loop : ℕ → ℕ → Stream D S → ℕ → Bytes → Reply (Stream D S)
  read_loop zero len s room got = stuck
  read_loop (suc fuel) len s room got = elim (is_ok s.err && ltb 0 room) [
    | false ↦ ret (pos (len - room)) got s
    | true ↦ elim s.input [
      | [] ↦ refilled (read_loop fuel len) s len room got (read s.parent 0 buff_size)
      | _ ∷ _ ↦ round (read_loop fuel len) s room got
    ]
  ]

  -- The whole function; `room` is the stream's `avail_out` for the length `len`.
  pub decompress : ℕ → Stream D S → ℕ → ℕ → Reply (Stream D S)
  decompress fuel s len room = elim s.err [
    | err_eof ↦ ret (pos 0) [] s
    | err_error ↦ ret minus_one [] s
    | err_ok ↦ read_loop fuel len s room []
  ]
