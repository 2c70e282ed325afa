-- ===== src/Classic/Ptmalloc/Chunk.antt =====
-- classic/ptmalloc/chunk.h and config.h: chunks with boundary tags. The memory is a map from addresses
-- to the two header words of a chunk; masks of constants are written as quotients and remainders.
pub mod Overrun
mod Tests
use my_malloc.Prelude.{
  ℕ, zero, suc, ◌+◌, ◌-◌, ◌*◌, ◌/◌, ◌%◌, ◌^◌, ◌≡◌, Bool, true, false, not, ltb, leb, ◌==◌,
  if◌then◌else◌, word, bit_or, put,
}

abbrev pub minsize : ℕ
minsize = 32

abbrev pub nfastbins : ℕ
nfastbins = 10

abbrev pub tcache_max_bins : ℕ
tcache_max_bins = 64

abbrev pub min_large_size : ℕ
min_large_size = 1024

-- The flags.
abbrev pub prev_inuse_bit : ℕ
prev_inuse_bit = 1

abbrev pub is_mmapped_bit : ℕ
is_mmapped_bit = 2

abbrev pub non_main_arena_bit : ℕ
non_main_arena_bit = 4

pub record Chunk : Type 0 where
  pub prev_size : ℕ
  pub size : ℕ

-- sizeof(Chunk): the two words of the header and four pointers.
abbrev pub size_of_chunk : ℕ
size_of_chunk = 48

abbrev pub Chunks : Type 0
Chunks = ℕ → Chunk

abbrev pub chunk_size : Chunk → ℕ
chunk_size c = c.size / 8 * 8

abbrev pub flags : Chunk → ℕ
flags c = c.size % 8

abbrev pub prev_inuse : Chunk → Bool
prev_inuse c = c.size % 2 == 1

abbrev pub is_mmapped : Chunk → Bool
is_mmapped c = c.size / 2 % 2 == 1

abbrev pub is_main_arena : Chunk → Bool
is_main_arena c = not (c.size / 4 % 2 == 1)

unfoldable pub set_head : (p sz flags : ℕ) → Chunks → Chunks
set_head p sz flags m = put m p (record (m p) { size = bit_or sz flags })

abbrev pub set_head_from : (p other : ℕ) → Chunks → Chunks
set_head_from p other m = put m p (record (m p) { size = (m other).size })

-- The foot of a chunk is the first word of the next one.
unfoldable pub set_foot : (p sz : ℕ) → Chunks → Chunks
set_foot p sz m = let next = (p + sz) % word in put m next (record (m next) { prev_size = sz })

abbrev pub next_chunk : (p : ℕ) → Chunks → ℕ
next_chunk p m = (p + chunk_size (m p)) % word

unfoldable pub mark_inuse : (p : ℕ) → Chunks → Chunks
mark_inuse p m =
    let next = next_chunk p m in put m next (record (m next) { size = (m next).size / 2 * 2 + 1 })

unfoldable pub clear_previnuse : (p : ℕ) → Chunks → Chunks
clear_previnuse p m =
    let next = next_chunk p m in put m next (record (m next) { size = (m next).size / 2 * 2 })

abbrev pub user_data : (p : ℕ) → ℕ
user_data p = (p + size_of_chunk) % word

abbrev pub from_user_ptr : (ptr : ℕ) → ℕ
from_user_ptr ptr = (ptr + (word - size_of_chunk)) % word

unfoldable pub request2size : (req : ℕ) → ℕ
request2size nb =
    let aligned = (nb + 8 + 15) % word / 16 * 16 in
    if ltb ((nb + 8 + 15) % word) minsize
    then minsize
    else if ltb aligned minsize
    then minsize
    else aligned

-- (s >> 4) - 2 as an unsigned.
abbrev pub bin_offset : ℕ → ℕ
bin_offset s = (s / 16 + (word - 2)) % word % 2 ^ 32

abbrev pub fastbin_index : (sz : ℕ) → ℕ
fastbin_index sz = if ltb (bin_offset sz) nfastbins then bin_offset sz else nfastbins

abbrev pub smallbin_index : (sz : ℕ) → ℕ
smallbin_index sz = sz / 16 % 2 ^ 32

unfoldable pub csize2tidx : (sz : ℕ) → ℕ
csize2tidx sz = if ltb (bin_offset sz) tcache_max_bins then bin_offset sz else tcache_max_bins

abbrev pub in_tcache_range : (sz : ℕ) → Bool
in_tcache_range sz = leb sz ((tcache_max_bins + 1) * 16)

abbrev pub in_smallbin_range : (sz : ℕ) → Bool
in_smallbin_range sz = ltb sz min_large_size
