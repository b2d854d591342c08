-- ===== src/Lib.antt =====
-- libwandio: reading and writing files through stacked modules that compress, peek and use threads.
--
-- A reader (`io_t`) is a table of functions over some state, often over another reader. A file is
-- opened by `wandio_create`, which stacks a peeking reader on the plain one, looks at the first
-- bytes, puts a decoder on it where they are the magic bytes of a format, and a reading thread and
-- a second peeking reader on top. Writers are stacked alike by `wandio_wcreate`.
--
--   Base           shared notation: Boolean tests, lists over native numbers, bytes, int results,
--                  rings of buffers
--   Reader         lib/wandio.h `io_source_t`, lib/wandio.c `wandio_tell` to `wandio_peek`;
--                  Contract says what a reader promises, Memory is a reader for the tests
--   Options        lib/wandio.c `do_option`, `parse_env` and the global settings
--   Compression    lib/wandio.c `compression_type`, `ctype_name`, the lookup, the suffixes
--   Pipeline       lib/wandio.c `create_io_reader`, `wandio_create`: Magic (detection), Scheme
--                  (URIs), Create (the chain)
--   Writers        lib/wandio.c `wandio_wcreate`
--   Fgets          lib/wandio.c `wandio_generic_fgets`, `wandio_fgets`
--   Peek           lib/ior-peek.c: Inv (invariant), Refill, Read, Look, Seek, Faults
--   Writer         lib/wandio.h `iow_source_t`, lib/wandio.c `wandio_wwrite`, `wandio_wflush`,
--                  `wandio_vprintf`; Contract and Memory for children that never fail
--   StdioReader    lib/ior-stdio.c
--   StdioWriter    lib/iow-stdio.c; Open has `safe_open`, `stdio_wopen` and `stdio_wclose`
--   ThreadReader   lib/ior-thread.c: the two threads as a step relation; Ring and Queue (the
--                  buffers), Inv (invariant), Slices, Produce, Consume, Order, End
--   ThreadWriter   lib/iow-thread.c: the two threads as a step relation; Slots (what the buffers
--                  hold), Inv (invariant), Drain, Filled and Feed, Order, Ends and Closing
--   Codec          the loops that the modules of zlib, bzip2 and liblzma have in common: Read and
--                  Write, Close; what is asked of a library stands in Decoder, Write/Encoder and
--                  Close/Closed, and Toy is a library for the tests
--   Zlib           lib/ior-zlib.c, lib/iow-zlib.c: Reads, Faults, Writes, RoundTrip
--   Bzip           lib/ior-bzip.c, lib/iow-bzip.c: Reads, Faults, Writes
--   Lzma           lib/ior-lzma.c, lib/iow-lzma.c: Reads, Writes
--   Zstd           lib/iow-zstd.c: Faults
--   Lz4            lib/iow-lz4.c: Pieces
--   Lzo            lib/iow-lzo.c: Block, Direct (without threads), Unpack (a reader of the format),
--                  Farm (the compressing threads as a step relation): Filling, Work and Writing,
--                  Shutting, Closing, Begun, Finish, Order; Toy is a library for the tests
--
-- A call of a reader is a function from its state to a `Reply`: the value returned, the bytes
-- stored in the caller's buffer, and the new state; `stuck` is a failed assertion, a misuse of
-- memory or an overflow of an `int`. A C string is its bytes without the NUL. Results of type `int`
-- and `int64_t` are `ℤ`, where a negative value is an error. Lengths handed to readers are not negative, and sums of
-- lengths do not reach 2^63. Memory blocks are lists of bytes, copies out of a block are visible.
-- The system calls, the allocator, `atoi`, the compression libraries' set-up calls and the child of
-- a stacked reader are parameters; what is asked of them stands in `IsReader` and `IsFile` and in
-- the hypotheses of the theorems. The loop of `stdio_wwrite` has one round of fuel for each byte at
-- hand and one more, which is enough, since each round writes a byte at least.
--
-- A compression library is a function from its state, the input and the room to what it used, what
-- it made, a code and the new state. Of a decoder it is asked (`IsDecoder`) that it uses no more than
-- the input and makes no more than the room, that with both it gets on, and that over an input that is
-- complete, with `plain` for its text, it finds this text; of an encoder (`IsEncoder`, `IsFinisher`)
-- that what it is fed and what it emits add up, and that its output has a bound. The loops of the
-- readers have fuel for each byte that is ahead and each that is asked for, and one more round: each
-- round uses or makes a byte at least. Those of the writers have fuel for the encoder's bound. The
-- descriptions of a decoder's input as complete leave corrupt and cut files to the modules Faults.
--
-- The threads of the threaded reader and writer take turns at their locks and unlocks in any order. A
-- thread that waits on a condition is one whose step is not enabled, so the signals are taken to wake
-- the thread that waits; the number of buffers is a parameter, and of the writer also their size, of
-- which only `0 <` is asked. In the farm of lzo a step is all that a thread does while it holds a lock; the
-- number of threads and the block size are parameters, of which only `0 <` is asked. Of liblzo it is asked
-- (`Works`, `Restores`) that it does not fail, and that its other half restores what it has compressed.
--
-- Not modelled: the reader of zstd and lz4, the modules of HTTP and Swift, wandiocat,
-- the module for QAT hardware, closing of readers and freeing, error messages, the trace
-- macros, the compression libraries, libcurl and the JSON parser that is copied into the
-- repository.
pub mod Base
pub mod Reader
pub mod Options
pub mod Compression
pub mod Pipeline
pub mod Writers
pub mod Fgets
pub mod Peek
pub mod Writer
pub mod StdioReader
pub mod StdioWriter
pub mod ThreadReader
pub mod ThreadWriter
pub mod Codec
pub mod Zlib
pub mod Bzip
pub mod Lzma
pub mod Zstd
pub mod Lzo
pub mod Lz4
