-- ===== src/Options.antt =====
-- The settings of lib/wandio.c: its global variables, `do_option` and `parse_env`.
pub mod Parse
mod Tests
use wandio.Base.{
  ℕ, zero, suc, ◌+◌, ◌-◌, ◌%◌, ◌^◌, Bool, true, false, List, [], ◌∷◌, ◌++◌, Option, none, some,
  drop, length, ltb, ◌==◌, if◌then◌else◌, ℤ, pos, negsuc, Bytes, codes, str_eq, starts_with,
}

-- The global variables that an option can set; `force_directio_read` and `force_directio_write`
-- stay 0, since their options are commented out.
pub record Settings : Type 0 where
  pub keep_stats : Bool
  pub use_autodetect : Bool
  pub use_threads : ℕ  -- unsigned int
  pub max_buffers : ℕ  -- unsigned int
  pub log_http_server_errors : Bool

-- an `int` assigned to an `unsigned int`
abbrev pub to_unsigned : ℤ → ℕ
to_unsigned (pos n) = n % 2 ^ 32
to_unsigned (negsuc n) = 2 ^ 32 - 1 - n % 2 ^ 32

-- the initial values; `use_threads = -1`
abbrev pub initial : Settings
initial = record {
  keep_stats = false;
  use_autodetect = true;
  use_threads = to_unsigned (negsuc 0);
  max_buffers = 50;
  log_http_server_errors = true;
}

-- The size of `option` in `parse_env`.
abbrev pub option_size : ℕ
option_size = 1024

-- The C library's `atoi`.
module _ (atoi : Bytes → ℤ) where
  pub do_option : Settings → Bytes → Settings
  do_option s [] = s
  do_option s option =
      if str_eq option (codes "stats")
      then record s { keep_stats = true }
      else if str_eq option (codes "nothreads")
      then record s { use_threads = 0 }
      else if str_eq option (codes "nologhttpservererrors")
      then record s { log_http_server_errors = false }
      else if str_eq option (codes "noautodetect")
      then record s { use_autodetect = false }
      else if starts_with option (codes "threads=")
      then record s { use_threads = to_unsigned (atoi (drop 8 option)) }
      else if starts_with option (codes "buffers=")
      then record s { max_buffers = to_unsigned (atoi (drop 8 option)) }
      else s

  -- The end of `parse_env` with `held` in the array: the final NUL goes behind it, `none` where
  -- that is out of the array.
  finish : Settings → Bytes → Option Settings
  finish s held = if ltb (length held) option_size then some (do_option s held) else none

  -- The loop of `parse_env`, with the bytes `held` in the array so far. It ends at the end of the
  -- text or when the array is full.
  scan : Settings → Bytes → Bytes → Option Settings
  scan s held [] = finish s held
  scan s held (c ∷ text) = elim (ltb (length held) option_size) [
    | false ↦ finish s held
    | true ↦ if c == b',' then scan (do_option s held) [] text else scan s (held ++ c ∷ []) text
  ]

  -- `none` of the text is an environment without LIBTRACEIO; `none` of the result is a write
  -- beyond the array.
  pub parse_env : Settings → Option Bytes → Option Settings
  unfolding scan finish
  parse_env s none = some s
  parse_env s (some text) = scan s [] text
