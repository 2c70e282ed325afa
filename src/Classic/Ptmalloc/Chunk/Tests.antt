-- ===== src/Classic/Ptmalloc/Chunk/Tests.antt =====
-- A request of 100 bytes, in a chunk at 4096.
use my_malloc.Prelude.{◌<◌, ◌≤◌, ◌≡◌, ◌⊎◌, arith, word}
use my_malloc.Classic.Ptmalloc.Chunk.{
  Chunks, chunk_size, flags, set_head, next_chunk, user_data, from_user_ptr, request2size,
}
use my_malloc.Classic.Ptmalloc.Chunk.Overrun.{SizeFor, request2size_lem, next_chunk-request2size}

abbrev no_chunks : Chunks
no_chunks = λ p. record { prev_size = 0; size = 0 }

request2size_lem_example :
    ((123 < word) × SizeFor 100 (request2size 100)) ⊎ ((word ≤ 123) × (request2size 100 ≡ 32))
request2size_lem_example = request2size_lem 100 (omega arith)

next_chunk-request2size_example :
    (chunk_size (set_head 4096 (request2size 100) 1 no_chunks 4096) ≡ request2size 100)
    × (flags (set_head 4096 (request2size 100) 1 no_chunks 4096) ≡ 1)
    × (from_user_ptr (user_data 4096) ≡ 4096)
    × (next_chunk 4096 (set_head 4096 (request2size 100) 1 no_chunks) < 4244)
next_chunk-request2size_example =
    next_chunk-request2size 4096 100 1 no_chunks (omega arith) (omega arith) (omega arith)
