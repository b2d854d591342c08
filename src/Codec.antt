-- ===== src/Codec.antt =====
-- What the modules around zlib, bzip2 and liblzma share: lib/ior-zlib.c, lib/ior-bzip.c,
-- lib/ior-lzma.c and lib/iow-zlib.c, lib/iow-bzip.c, lib/iow-lzma.c. The libraries are parameters.
pub mod Read
pub mod Decoder
pub mod Write
pub mod Close
pub mod Toy
use wandio.Base.{ℕ, ◌*◌, ◌%◌, ◌^◌, Bool, true, false, Bytes}

-- `enum err_t`
pub data Err : Type 0 where
  err_ok err_eof err_error : Err

abbrev pub is_ok : Err → Bool
is_ok err_ok = true
is_ok e = false

-- What a call of the library returns, as the `switch` behind it sorts it: Z_OK, Z_STREAM_END, and
-- the rest, and likewise for the other libraries.
pub data Code : Type 0 where
  code_ok code_end code_error : Code

-- A call of the library on the bytes at `next_in` and the room at `next_out`: how many bytes it
-- used, those that it made, what it returned, and its state.
pub record Call (D C : Type 0) : Type 0 where
  pub used : ℕ
  pub made : Bytes
  pub code : C
  pub next : D

-- sizeof(inbuff), sizeof(outbuff)
abbrev pub buff_size : ℕ
buff_size = 1024 * 1024

-- an `int64_t` length as the `unsigned int` of a stream's `avail_in` and `avail_out`
abbrev pub to_uint : ℕ → ℕ
to_uint n = n % 2 ^ 32
