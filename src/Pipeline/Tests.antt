-- ===== src/Pipeline/Tests.antt =====
-- Chains that `create_io_reader` builds, and the theorems at such inputs.
use wandio.Base.{◌≡◌, ◌↔◌, refl, true, false, [], ◌∷◌, Option, none, some, pos, Bytes, codes}
use wandio.Pipeline.{
  Decoder, Io, stdio_io, peek_io, decoder_io, thread_io, Build, World, go_on, open_base, is_uri,
  strstr, autodetect, create_io_reader, finish, lzma, is_gzip, is_compress, is_bzip, is_xz, is_zstd,
  is_lz4, is_skippable,
}
use wandio.Pipeline.Magic.{Format, xz, test, wanted, autodetect-wanted}
use wandio.Pipeline.Scheme.{HasScheme, is_uri_iff}
use wandio.Pipeline.Create.{chain, create-chain, create-decodes}

abbrev all_built : Build
all_built = record {
  http = true;
  libqatzip = false;
  libz = true;
  libbz2 = true;
  liblzma = true;
  libzstd = true;
  liblz4f = true;
}

abbrev xz_bytes : Bytes
xz_bytes = 0xfd ∷ b'7' ∷ b'z' ∷ b'X' ∷ b'Z' ∷ 0 ∷ []

abbrev xz_file : World
xz_file = record {
  opens = λ _. true;
  qat_starts = false;
  lzma_starts = true;
  lz4f_starts = true;
  threads_start = true;
  first_len = λ _. pos 6;
  first_bytes = λ _. xz_bytes;
}

xz_threaded :
    create_io_reader all_built xz_file 4 (codes "t.xz") true
    ≡ some (peek_io (thread_io (decoder_io lzma (peek_io (stdio_io (codes "t.xz"))))))
unfolding create_io_reader open_base is_uri strstr autodetect finish is_gzip is_compress is_bzip
    is_xz is_zstd is_lz4 is_skippable
xz_threaded = refl

uri_runs : (is_uri (codes "http://host/a") ≡ true) × (is_uri (codes "dir/a://b") ≡ false)
unfolding is_uri strstr
uri_runs = (refl, refl)

autodetect-wanted_example :
    ((f : Format)
      → test (pos 6) xz_bytes f ≡ true
      → autodetect all_built xz_file (stdio_io []) (pos 6) xz_bytes
        ≡ wanted all_built xz_file (stdio_io []) f)
    × (((f : Format) → test (pos 6) xz_bytes f ≡ false)
        → autodetect all_built xz_file (stdio_io []) (pos 6) xz_bytes ≡ go_on none)
autodetect-wanted_example = autodetect-wanted all_built xz_file (stdio_io []) (pos 6) xz_bytes

is_uri_iff_example : (is_uri (codes "http://h") ≡ true) ↔ HasScheme (codes "http://h")
is_uri_iff_example = is_uri_iff (codes "http://h")

create-chain_example :
    (opened : Io) × (d : Option Decoder) × (open_base all_built xz_file (codes "t.xz")
      ≡ some opened)
    × (peek_io (thread_io (decoder_io lzma (peek_io (stdio_io (codes "t.xz"))))) ≡ chain 4 d opened)
    × (true ≡ false → d ≡ none)
create-chain_example =
    create-chain all_built xz_file 4 (codes "t.xz") true
      (peek_io (thread_io (decoder_io lzma (peek_io (stdio_io (codes "t.xz")))))) xz_threaded

opened_plain : open_base all_built xz_file (codes "t.xz") ≡ some (stdio_io (codes "t.xz"))
unfolding open_base is_uri strstr
opened_plain = refl

-- an xz decoder that does not start
abbrev lzma_fails : World
lzma_fails = record xz_file { lzma_starts = false }

opened_failing : open_base all_built lzma_fails (codes "t.xz") ≡ some (stdio_io (codes "t.xz"))
unfolding open_base is_uri strstr
opened_failing = refl

create-decodes_example :
    create_io_reader all_built lzma_fails 0 (codes "t.xz") true
    ≡ some (peek_io (peek_io (stdio_io (codes "t.xz"))))
unfolding is_xz
create-decodes_example =
    create-decodes all_built lzma_fails (codes "t.xz") (stdio_io (codes "t.xz")) xz opened_failing
      refl (λ e. cc)
