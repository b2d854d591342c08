-- ===== src/StdioReader/Tests.antt =====
-- The plain reader over a system with one file in memory.
use wandio.Base.{◌≡◌, refl, true, [], ◌∷◌, some, pos, Bytes, codes}
use wandio.Reader.{ret, wandio_tell, kept}
use wandio.Reader.Memory.{from_memory}
use wandio.StdioReader.{ReadCalls, stdio_open, stdio_read, stdio_tell, stdio_source}

abbrev one_file : ReadCalls Bytes
one_file = record {
  open_file = λ filename direct. some (7 ∷ 8 ∷ []);
  standard = [];
  read = λ f len. from_memory f 0 len;
  lseek = λ f offset whence. (pos 0, f);
}

open_standard : stdio_open one_file (codes "-") true ≡ some []
unfolding stdio_open
open_standard = refl

read_one : stdio_read one_file (7 ∷ 8 ∷ []) 0 1 ≡ ret (pos 1) (7 ∷ []) (8 ∷ [])
unfolding stdio_read from_memory
read_one = refl

tell_file : wandio_tell (stdio_source one_file) (8 ∷ []) ≡ (pos 0, 8 ∷ [], kept)
unfolding wandio_tell stdio_tell
tell_file = refl
