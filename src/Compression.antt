-- ===== src/Compression.antt =====
-- The compression methods of lib/wandio.h and lib/wandio.c: the table of names, the lookup by name,
-- and the guess from a file name's suffix.
pub mod Suffix
pub mod Name
mod Tests
use wandio.Base.{
  ◌++◌, ◌==◌, ℕ, zero, suc, ◌-◌, Bool, true, false, ◌&&◌, List, [], ◌∷◌, Option, none, some, drop,
  length, leb, if◌then◌else◌, Bytes, codes, str_eq,
}

-- WANDIO_COMPRESS_NONE and its like; WANDIO_COMPRESS_MASK is no method.
pub data Method : Type 0 where
  none_method zlib bz2 lzo lzma zstd lz4 : Method

-- the values of the enumeration
abbrev pub number : Method → ℕ
number none_method = 0
number zlib = 1
number bz2 = 2
number lzo = 3
number lzma = 4
number zstd = 5
number lz4 = 6

-- `struct wandio_compression_type`
pub record Entry : Type 0 where
  pub name : Bytes
  pub ext : Bytes
  pub compress_type : Method

-- `compression_type[]` up to its last entry
abbrev pub known_types : List Entry
known_types =
    record { name = codes "gzip"; ext = codes "gz"; compress_type = zlib }
    ∷ record { name = codes "bzip2"; ext = codes "bz2"; compress_type = bz2 }
    ∷ record { name = codes "lzo"; ext = codes "lzo"; compress_type = lzo }
    ∷ record { name = codes "lzma"; ext = codes "xz"; compress_type = lzma }
    ∷ record { name = codes "zstd"; ext = codes "zst"; compress_type = zstd }
    ∷ record { name = codes "lz4"; ext = codes "lz4"; compress_type = lz4 }
    ∷ []

abbrev pub none_type : Entry
none_type = record { name = codes "NONE"; ext = []; compress_type = none_method }

abbrev pub compression_type : List Entry
compression_type = known_types ++ none_type ∷ []

abbrev same_method : Method → Method → Bool
same_method a b = number a == number b

-- The loop of `ctype_name`; it stops behind the entry of no compression, or leaves the table.
name_from : List Entry → Method → Bytes
name_from [] m = codes "unknown"
name_from (e ∷ es) m =
    if same_method e.compress_type m
    then e.name
    else if same_method e.compress_type none_method
    then codes "unknown"
    else name_from es m

pub ctype_name : Method → Bytes
unfolding name_from
ctype_name m = name_from compression_type m

-- The loop of `wandio_lookup_compression_type`.
lookup_from : List Entry → Bytes → Option Entry
lookup_from [] name = none
lookup_from (e ∷ es) name =
    if str_eq e.name (codes "NONE")
    then none
    else if str_eq e.name name
    then some e
    else lookup_from es name

pub wandio_lookup_compression_type : Bytes → Option Entry
unfolding lookup_from
wandio_lookup_compression_type name = lookup_from compression_type name

-- `len >= strlen(suffix)`, and `strcmp` of the end of the file name with the suffix
pub has_suffix : Bytes → Bytes → Bool
has_suffix filename suffix =
    leb (length suffix) (length filename)
    && str_eq (drop (length filename - length suffix) filename) suffix

pub wandio_detect_compression_type : Bytes → Method
wandio_detect_compression_type f =
    if has_suffix f (codes ".gz")
    then zlib
    else if has_suffix f (codes ".bz2")
    then bz2
    else if has_suffix f (codes ".xz")
    then lzma
    else if has_suffix f (codes ".lzo")
    then lzo
    else if has_suffix f (codes ".lz4")
    then lz4
    else if has_suffix f (codes ".zst")
    then zstd
    else none_method
