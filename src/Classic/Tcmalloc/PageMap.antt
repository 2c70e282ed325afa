-- ===== src/Classic/Tcmalloc/PageMap.antt =====
-- classic/tcmalloc/page_map.cpp and page_map.h: the radix tree from page numbers to spans. A span is
-- the number of its Span object, and 0 is the null pointer; shifts and masks of constants are written
-- as quotients and remainders.
pub mod Lookup
mod Tests
use my_malloc.Prelude.{
  ℕ, zero, suc, ◌+◌, ◌/◌, ◌%◌, ◌^◌, ◌≡◌, Option, none, some, ◌==◌, if◌then◌else◌, word,
}

abbrev pub k_leaf_bits : ℕ
k_leaf_bits = 10

-- 1 << kRootBits and 1 << kLeafBits
abbrev pub k_root_size : ℕ
k_root_size = 512

abbrev pub k_leaf_size : ℕ
k_leaf_size = 1024

-- The root of null pointers and leaves.
pub record PageMap : Type 0 where
  pub root : ℕ → Option (ℕ → ℕ)

abbrev pub empty : PageMap
empty = record { root = λ i. none }

abbrev pub root_idx : ℕ → ℕ
root_idx page_number = page_number / 2 ^ k_leaf_bits % k_root_size

abbrev pub leaf_idx : ℕ → ℕ
leaf_idx page_number = page_number % k_leaf_size

-- A null leaf reads as the zeroed one that `set` allocates.
abbrev pub entry : Option (ℕ → ℕ) → ℕ → ℕ
entry none i = 0
entry (some leaf) i = leaf i

unfoldable pub get : (page_number : ℕ) → PageMap → ℕ
get page_number m = entry (m.root (root_idx page_number)) (leaf_idx page_number)

unfoldable pub set : (page_number span : ℕ) → PageMap → PageMap
set page_number span m =
    let leaf : ℕ → ℕ =
      λ i. if leaf_idx page_number == i then span else entry (m.root (root_idx page_number)) i in
    record { root = λ i. if root_idx page_number == i then some leaf else m.root i }

-- The loop of map_span from the page `start + i` on, with the pages that are left.
pub map_pages : (start span i left : ℕ) → PageMap → PageMap
map_pages start span i zero m = m
map_pages start span i (suc left) m =
    map_pages start span (i + 1) left (set ((start + i) % word) span m)

unfoldable pub map_span : (span start length : ℕ) → PageMap → PageMap
unfolding map_pages
map_span span start length m = map_pages start span 0 length m
