-- ===== src/Classic/Tcmalloc/SizeClasses.antt =====
-- classic/tcmalloc/size_classes.h: the table of size classes and the binary search in it.
pub mod Search
mod Tests
use my_malloc.Prelude.{
  ℕ, zero, suc, ◌+◌, ◌-◌, ◌*◌, ◌/◌, ◌≡◌, Bool, List, [], ◌∷◌, ltb, leb, ◌==◌, if◌then◌else◌,
}

abbrev pub k_num_classes : ℕ
k_num_classes = 86

-- The largest size that counts as small.
abbrev pub k_max_size : ℕ
k_max_size = 256 * 1024

pub record SizeClassInfo : Type 0 where
  pub size : ℕ
  pub pages : ℕ
  pub num_to_move : ℕ

abbrev class : ℕ → ℕ → ℕ → SizeClassInfo
class size pages num_to_move = record { size = size; pages = pages; num_to_move = num_to_move }

abbrev pub k_class_info : List SizeClassInfo
k_class_info =
    class 8 1 32
    ∷ class 16 1 32
    ∷ class 24 1 32
    ∷ class 32 1 32
    ∷ class 40 1 32
    ∷ class 48 1 32
    ∷ class 56 1 32
    ∷ class 64 1 32
    ∷ class 72 1 32
    ∷ class 80 1 32
    ∷ class 88 1 32
    ∷ class 96 1 32
    ∷ class 104 1 32
    ∷ class 112 1 32
    ∷ class 120 1 32
    ∷ class 128 1 32
    ∷ class 136 1 32
    ∷ class 144 1 32
    ∷ class 152 1 32
    ∷ class 160 1 32
    ∷ class 168 1 32
    ∷ class 176 1 32
    ∷ class 184 1 32
    ∷ class 192 1 32
    ∷ class 200 1 32
    ∷ class 208 1 32
    ∷ class 216 1 32
    ∷ class 224 1 32
    ∷ class 232 1 32
    ∷ class 240 1 32
    ∷ class 248 1 32
    ∷ class 256 1 32
    ∷ class 264 1 32
    ∷ class 272 1 32
    ∷ class 280 1 32
    ∷ class 288 1 32
    ∷ class 296 1 32
    ∷ class 312 1 32
    ∷ class 328 1 32
    ∷ class 344 1 32
    ∷ class 360 1 32
    ∷ class 376 1 32
    ∷ class 392 1 32
    ∷ class 408 1 32
    ∷ class 424 1 32
    ∷ class 440 1 32
    ∷ class 456 1 32
    ∷ class 472 1 32
    ∷ class 488 1 32
    ∷ class 504 1 32
    ∷ class 520 1 32
    ∷ class 536 1 32
    ∷ class 552 1 32
    ∷ class 568 1 32
    ∷ class 584 1 32
    ∷ class 600 1 32
    ∷ class 616 1 32
    ∷ class 632 1 32
    ∷ class 648 1 32
    ∷ class 664 1 32
    ∷ class 680 1 32
    ∷ class 696 1 32
    ∷ class 712 1 32
    ∷ class 728 1 32
    ∷ class 744 1 32
    ∷ class 760 1 32
    ∷ class 776 1 32
    ∷ class 792 1 32
    ∷ class 808 1 32
    ∷ class 824 1 32
    ∷ class 840 1 32
    ∷ class 856 1 32
    ∷ class 872 1 32
    ∷ class 888 1 32
    ∷ class 904 1 32
    ∷ class 920 1 32
    ∷ class 936 1 32
    ∷ class 952 1 32
    ∷ class 968 1 32
    ∷ class 984 1 32
    ∷ class 1000 1 32
    ∷ class 1016 1 32
    ∷ class 1032 1 32
    ∷ class 1048 1 32
    ∷ class 1064 1 32
    ∷ class 1080 1 32
    ∷ []

-- The size of an entry of a table; the source reads no entry out of range.
pub entry_size : List SizeClassInfo → ℕ → ℕ
entry_size [] i = 0
entry_size (info ∷ rest) i = if i == 0 then info.size else entry_size rest (i - 1)

-- The loop of size_to_class, for at most `rounds` rounds.
pub binary_search : (rounds : ℕ) → (table : ℕ → ℕ) → (size lo hi : ℕ) → ℕ
binary_search zero table size lo hi = lo
binary_search (suc rounds) table size lo hi =
    let mid = (lo + hi) / 2 in
    let right = ltb (table mid) size in
    let rest =
      binary_search rounds table size (if right then mid + 1 else lo) (if right then hi else mid) in
    if ltb lo hi then rest else lo

-- No byte counts as one byte.
abbrev pub at_least_one : ℕ → ℕ
at_least_one size = if size == 0 then 1 else size

unfoldable pub size_to_class : ℕ → ℕ
unfolding entry_size binary_search
size_to_class size =
    let size' = at_least_one size in
    if ltb k_max_size size'
    then k_num_classes
    else binary_search 7 (entry_size k_class_info) size' 0 (k_num_classes - 1)

unfoldable pub class_to_size : ℕ → ℕ
unfolding entry_size
class_to_size class_idx =
    if leb k_num_classes class_idx then 0 else entry_size k_class_info class_idx

-- The batch that is moved between the lists, and the pages of a span.
entry_at : List SizeClassInfo → ℕ → SizeClassInfo
entry_at [] i = class 0 0 0
entry_at (info ∷ rest) i = if i == 0 then info else entry_at rest (i - 1)

unfoldable pub num_to_move : ℕ → ℕ
unfolding entry_at
num_to_move i = (entry_at k_class_info i).num_to_move

unfoldable pub pages_of_class : ℕ → ℕ
unfolding entry_at
pages_of_class i = (entry_at k_class_info i).pages
