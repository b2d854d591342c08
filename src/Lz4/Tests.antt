-- ===== src/Lz4/Tests.antt =====
-- The lz4 writer with a toy library, over bytes in memory, and the theorem at such an input.
use wandio.Base.{◌≡◌, refl, [], ◌∷◌, ◌++◌, some, Bytes, arith}
use wandio.Reader.Memory.{Any, all_of}
use wandio.Writer.Memory.{memory, memory-TakesAll}
use wandio.Codec.{err_ok}
use wandio.Lz4.{Lz4Writer, Lz4, lz4_wwrite, lz4_wclose}
use wandio.Lz4.Pieces.{Updates, Ready, Fed, lz4_wwrite-Fed}

-- a library that stores its input as it is, in a frame that begins with 4 and ends with 0
abbrev storing : Lz4 Bytes
storing = record {
  begin = some ([], 4 ∷ []);
  compress_bound = λ n. n;
  compress_update = λ e piece room. (some piece, e ++ piece);
  flush = λ e room. (some [], e);
  compress_end = λ e room. (some (0 ∷ []), e);
}

abbrev text_of : Bytes → Bytes
text_of e = e

-- the frame so far
abbrev frame : Bytes → Bytes
frame e = 4 ∷ e

storing-Updates : Updates text_of frame storing
storing-Updates = record {
  bounded = λ n h. omega arith;
  updates = λ e piece room h fits. record {
    made = piece;
    next = e ++ piece;
    is = refl;
    fits = fits;
    feeds = refl;
    emits = refl;
  };
}

abbrev fresh : Lz4Writer Bytes Bytes
fresh = record { coder = []; held = 4 ∷ []; child = []; err = err_ok }

fresh-Ready : Ready Any all_of text_of frame storing memory storing-Updates memory-TakesAll fresh
fresh-Ready = record { good = tt; few = omega arith; linked = refl; fine = refl }

close_run : lz4_wclose storing memory (record fresh { held = 4 ∷ 5 ∷ [] }) ≡ some (4 ∷ 5 ∷ 0 ∷ [])
unfolding lz4_wclose
close_run = refl

lz4_wwrite-Fed_example :
    Fed Any all_of text_of frame storing memory storing-Updates memory-TakesAll []
      (5 ∷ 6 ∷ [])
      (lz4_wwrite storing memory fresh (5 ∷ 6 ∷ []))
lz4_wwrite-Fed_example =
    lz4_wwrite-Fed Any all_of text_of frame storing memory storing-Updates memory-TakesAll fresh
      (5 ∷ 6 ∷ []) (omega arith) (omega arith) fresh-Ready
