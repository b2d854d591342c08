-- ===== src/Writers/Tests.antt =====
-- Chains that `wandio_wcreate` builds, and the theorems at such inputs.
use wandio.Base.{◌≡◌, refl, true, false, some, codes, arith}
use wandio.Compression.{zlib, lzo}
use wandio.Writers.{
  zlib_w, lzo_w, stdio_iow, encoder_iow, thread_iow, Build, World, returned, aborted,
  wandio_wcreate,
}
use wandio.Writers.Chain.{Warned, wcreate-Warned}

abbrev only_zlib : Build
only_zlib = record {
  libqatzip = false;
  libz = true;
  liblzo2 = false;
  libbz2 = false;
  liblzma = false;
  libzstd = false;
  liblz4f = false;
}

abbrev writable : World
writable = record { wopens = λ _. true; starts = λ _. true }

zlib_run :
    wandio_wcreate only_zlib writable 1 (codes "o.gz") zlib 6 0
    ≡ returned false (some (thread_iow (encoder_iow zlib_w 6 (stdio_iow (codes "o.gz") 0))))
unfolding wandio_wcreate
zlib_run = refl

level_ten : wandio_wcreate only_zlib writable 1 (codes "o.gz") zlib 10 0 ≡ aborted
unfolding wandio_wcreate
level_ten = refl

wcreate-Warned_example :
    Warned only_zlib writable 0
      (codes "o.lzo")
      0
      6
      false
      lzo_w
      (wandio_wcreate only_zlib writable 0 (codes "o.lzo") lzo 6 0)
wcreate-Warned_example =
    wcreate-Warned only_zlib writable 0 (codes "o.lzo") 0 lzo 6 (omega arith) (omega arith) refl
      (λ e. cc)
