-- ===== src/Lzo/Tests.antt =====
-- Blocks of four bytes, and the writer without threads over a writer to memory.
use wandio.Base.{◌<◌, ◌≡◌, refl, [], ◌∷◌, ◌++◌, some, Bytes, arith, length}
use wandio.Reader.Memory.{Any, all_of}
use wandio.Writer.Memory.{memory, memory-TakesAll}
use wandio.Lzo.{
  packed, write32, write_bufs, write_buf, write_fields, lzo_wwrite_block, buffer_size, direct_loop,
}
use wandio.Lzo.Block.{block_of, lzo_wwrite_block-packed}
use wandio.Lzo.Direct.{all_blocks, Written, direct_loop-Written}
use wandio.Lzo.Unpack.{unpack, unpack-all_blocks}
use wandio.Lzo.Toy.{toy, toy-Works, unsqueeze, checksum, toy-Restores}

abbrev zeros : Bytes
zeros = 0 ∷ 0 ∷ 0 ∷ 9 ∷ []

lzo_wwrite_block-packed_example :
    (lzo_wwrite_block 4 toy zeros ≡ packed (block_of 4 toy toy-Works zeros))
    × (length (block_of 4 toy toy-Works zeros) < buffer_size 4)
lzo_wwrite_block-packed_example =
    lzo_wwrite_block-packed 4 toy toy-Works zeros (omega arith) (omega arith)

-- it has 4 bytes of data, 2 of which are stored
zeros_block :
    lzo_wwrite_block 4 toy zeros
    ≡ packed (0 ∷ 0 ∷ 0 ∷ 4 ∷ 0 ∷ 0 ∷ 0 ∷ 2 ∷ 0 ∷ 0 ∷ 1 ∷ 0x44 ∷ 0 ∷ 9 ∷ [])
unfolding lzo_wwrite_block write_fields write_bufs write_buf
zeros_block = refl

abbrev seven : Bytes
seven = 0 ∷ 0 ∷ 0 ∷ 9 ∷ 5 ∷ 6 ∷ 7 ∷ []

unpack-all_blocks_example :
    unpack unsqueeze checksum 8 (all_blocks 4 toy toy-Works seven ++ (write32 0 ++ 1 ∷ []))
    ≡ some (seven, 1 ∷ [])
unpack-all_blocks_example =
    unpack-all_blocks unsqueeze checksum 4 toy toy-Works toy-Restores 8 seven (1 ∷ []) (omega arith)
      (omega arith) (omega arith)

direct_loop-Written_example :
    Written 4 toy toy-Works Any all_of memory.write memory-TakesAll [] seven
      (direct_loop 4 toy memory.write 8 [] seven)
direct_loop-Written_example =
    direct_loop-Written 4 toy toy-Works Any all_of memory.write memory-TakesAll 8 [] seven
      (omega arith) (omega arith) tt
