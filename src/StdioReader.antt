-- ===== src/StdioReader.antt =====
-- lib/ior-stdio.c, the reader that calls the system; the file behind `fd` is the state.
mod Tests
use wandio.Base.{ℕ, Bool, Option, none, some, if◌then◌else◌, ℤ, pos, Bytes, codes, str_eq}
use wandio.Reader.{Reply, Source}

-- The system calls. `open_file` opens for reading, with O_DIRECT or without; `none` is -1. `standard`
-- is the file 0. `read` stores at most as many bytes as it is asked for.
pub record ReadCalls (F : Type 0) : Type 0 where
  pub open_file : Bytes → Bool → Option F
  pub standard : F
  pub read : F → ℕ → Reply F
  pub lseek : F → ℤ → ℕ → ℤ × F

-- SEEK_CUR
abbrev seek_cur : ℕ
seek_cur = 1

module _ {F : Type 0} (sys : ReadCalls F) where
  -- with `force_directio_read`
  unfoldable pub stdio_open : Bytes → Bool → Option F
  stdio_open filename force_directio =
      if str_eq filename (codes "-")
      then some sys.standard
      else sys.open_file filename force_directio

  unfoldable pub stdio_read : F → ℕ → ℕ → Reply F
  stdio_read f addr len = sys.read f len

  unfoldable pub stdio_tell : F → ℤ × F
  stdio_tell f = sys.lseek f (pos 0) seek_cur

  unfoldable pub stdio_seek : F → ℤ → ℕ → ℤ × F
  stdio_seek f offset whence = sys.lseek f offset whence

  -- `stdio_source`
  abbrev pub stdio_source : Source F
  stdio_source = record {
    name = codes "stdio";
    read = stdio_read;
    peek = none;
    tell = some stdio_tell;
    seek = some stdio_seek;
  }
