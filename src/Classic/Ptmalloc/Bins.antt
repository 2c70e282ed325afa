-- ===== src/Classic/Ptmalloc/Bins.antt =====
-- classic/ptmalloc/bins.h and bins.cpp, BinManager: the fastbins, the unsorted bin, the small and the large
-- bins of an arena, at the address `at`. A compare-and-swap that meets no other thread succeeds; a walk
-- along a list has fuel.
pub mod Best
pub mod Choice
pub mod LargeIndex
pub mod Lists
pub mod Members
pub mod PastEnd
pub mod Queue
pub mod Ranges
pub mod Search
pub mod Split
mod Tests
use my_malloc.Prelude.{
  ℕ, zero, suc, ◌+◌, ◌-◌, ◌*◌, ◌/◌, ◌%◌, ◌^◌, Bool, false, not, ◌&&◌, ◌||◌, Option, none, some, ltb,
  leb, ◌==◌, if◌then◌else◌, bit_or, put,
}
use my_malloc.Classic.Ptmalloc.Chunk.{nfastbins}
use my_malloc.Classic.Ptmalloc.Links.{Links, set_fd, init, empty}
use my_malloc.Classic.Ptmalloc.Bins.LargeIndex.{n_bins}

abbrev pub binmapsize : ℕ
binmapsize = 4

abbrev pub unsorted_bin_idx : ℕ
unsorted_bin_idx = 1

-- The heads of the fastbins, the links in the bins and in the chunks, the bitmap.
pub record Bins : Type 0 where
  pub at : ℕ
  pub fast : ℕ → ℕ
  pub links : Links
  pub binmap : ℕ → ℕ

-- as_chunk() of bins_[i]: 16 bytes before it, and it stands behind ten heads of 8 bytes.
abbrev pub as_chunk : (i : ℕ) → Bins → ℕ
as_chunk i b = b.at + 64 + 16 * i

unfoldable pub fast_push : (i p : ℕ) → Bins → Bins
fast_push i p b = record b { links = set_fd p (b.fast i) b.links; fast = put b.fast i p }

unfoldable pub fast_pop : (i : ℕ) → Bins → ℕ × Bins
fast_pop i b =
    if b.fast i == 0
    then (0, b)
    else (b.fast i, record b { fast = put b.fast i (b.links.fd (b.fast i)) })

unfoldable pub fast_pop_all : (i : ℕ) → Bins → ℕ × Bins
fast_pop_all i b = (b.fast i, record b { fast = put b.fast i 0 })

unfoldable pub init_bins : (left : ℕ) → Bins → Links → Links
init_bins zero b l = l
init_bins (suc left) b l = init (as_chunk left b) (init_bins left b l)

unfoldable pub init_all : Bins → Bins
unfolding init_bins
init_all b = record b { fast = λ i. 0; links = init_bins n_bins b b.links; binmap = λ i. 0 }

unfoldable pub any_fast : (left : ℕ) → Bins → Bool
any_fast zero b = false
any_fast (suc left) b = any_fast left b || not (b.fast left == 0)

unfoldable pub has_fastchunks : Bins → Bool
unfolding any_fast
has_fastchunks b = any_fast nfastbins b

unfoldable pub bin_empty : (i : ℕ) → Bins → Bool
bin_empty i b = empty (as_chunk i b) b.links

unfoldable pub bin_nonempty : (i : ℕ) → Bins → Bool
bin_nonempty i b = if leb n_bins i then false else not (bin_empty i b)

-- Bit `bit` of a word of the bitmap.
abbrev pub marked : (binmap : ℕ → ℕ) (idx bit : ℕ) → Bool
marked binmap idx bit = binmap idx / 2 ^ bit % 2 == 1

unfoldable pub mark_bin : (i : ℕ) → Bins → Bins
mark_bin i b = record b {
  binmap = put b.binmap (i / 32) (bit_or (b.binmap (i / 32)) (2 ^ (i % 32)));
}

unfoldable pub unmark_bin : (i : ℕ) → Bins → Bins
unmark_bin i b =
    if ltb i n_bins && bin_empty i b
    then (if marked b.binmap (i / 32) (i % 32)
        then record b { binmap = put b.binmap (i / 32) (b.binmap (i / 32) - 2 ^ (i % 32)) }
        else b)
    else b

-- The inner loop of next_nonempty, from bit 32 - left on.
unfoldable pub next_bit : (left start idx : ℕ) → (ℕ → ℕ) → Option ℕ
next_bit zero start idx binmap = none
next_bit (suc left) start idx binmap =
    let rest = next_bit left start idx binmap in
    let bit = 31 - left in
    let bin = idx * 32 + bit in
    if marked binmap idx bit && leb start bin && ltb bin n_bins then some bin else rest

-- The outer loop, from word binmapsize - left on.
unfoldable pub next_word : (left start : ℕ) → (ℕ → ℕ) → ℕ
unfolding next_bit
next_word zero start binmap = n_bins
next_word (suc left) start binmap =
    let rest = next_word left start binmap in
    let idx = 3 - left in
    if binmap idx == 0
    then rest
    else elim (next_bit (if idx == start / 32 then 32 - start % 32 else 32) start idx binmap) [
      | none ↦ rest
      | some bin ↦ bin
    ]

unfoldable pub next_nonempty : (start : ℕ) → Bins → ℕ
unfolding next_word
next_nonempty start b = next_word (4 - start / 32) start b.binmap
