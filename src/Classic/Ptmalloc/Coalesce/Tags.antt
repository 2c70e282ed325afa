-- ===== src/Classic/Ptmalloc/Coalesce/Tags.antt =====
-- The boundary tags and the unsorted bin after consolidate_and_free of classic/ptmalloc/coalesce.cpp.
use my_malloc.Prelude.{ℕ, ◌+◌, ◌%◌, ◌≡◌, Bool, true, false, if◌then◌else◌, word, bit_or}
use my_malloc.Classic.Ptmalloc.Chunk.{
  Chunks, prev_inuse_bit, non_main_arena_bit, chunk_size, prev_inuse,
}
use my_malloc.Classic.Ptmalloc.Links.{Links}
use my_malloc.Classic.Ptmalloc.Bins.{as_chunk}
use my_malloc.Classic.Ptmalloc.Coalesce.{Arena}

-- A free chunk of sz bytes at p: its head, its foot, and the bit of the next chunk.
pub record IsTagged (m : Chunks) (p sz : ℕ) : Type 0 where
  pub head : chunk_size (m p) ≡ sz
  pub used_before : prev_inuse (m p) ≡ true
  pub foot : (m ((p + sz) % word)).prev_size ≡ sz
  pub free : prev_inuse (m ((p + sz) % word)) ≡ false

-- A free chunk stands first in the unsorted bin.
abbrev pub IsUnsorted : (p sz : ℕ) → Arena → Type 0
IsUnsorted p sz a = IsTagged a.chunks p sz × (a.bins.links.fd (as_chunk 1 a.bins) ≡ p)

abbrev flags_of : (non_main : Bool) → ℕ
flags_of non_main = if non_main then bit_or prev_inuse_bit non_main_arena_bit else prev_inuse_bit
