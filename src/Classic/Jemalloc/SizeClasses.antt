-- ===== src/Classic/Jemalloc/SizeClasses.antt =====
-- classic/jemalloc/size_classes.h: the table of size classes and the binary search in it, which is the one of
-- the tcmalloc. The mask of a page is written as a quotient.
pub mod Search
mod Tests
use my_malloc.Prelude.{
  ℕ, ◌+◌, ◌-◌, ◌*◌, ◌/◌, ◌%◌, ◌≡◌, Bool, List, [], ◌∷◌, ltb, leb, ◌==◌, if◌then◌else◌, word,
}
use my_malloc.Classic.Tcmalloc.SizeClasses.{binary_search, at_least_one}

abbrev pub je_page_size : ℕ
je_page_size = 4096

abbrev pub je_nsmall_classes : ℕ
je_nsmall_classes = 36

-- The largest size that counts as small.
abbrev pub je_small_max : ℕ
je_small_max = 14336

pub record JeSizeClass : Type 0 where
  pub size : ℕ
  pub lg_delta : ℕ

abbrev je_class : ℕ → ℕ → JeSizeClass
je_class size lg_delta = record { size = size; lg_delta = lg_delta }

abbrev pub je_class_info : List JeSizeClass
je_class_info =
    je_class 8 3
    ∷ je_class 16 3
    ∷ je_class 24 3
    ∷ je_class 32 3
    ∷ je_class 40 3
    ∷ je_class 48 3
    ∷ je_class 56 3
    ∷ je_class 64 3
    ∷ je_class 80 4
    ∷ je_class 96 4
    ∷ je_class 112 4
    ∷ je_class 128 4
    ∷ je_class 160 5
    ∷ je_class 192 5
    ∷ je_class 224 5
    ∷ je_class 256 5
    ∷ je_class 320 6
    ∷ je_class 384 6
    ∷ je_class 448 6
    ∷ je_class 512 6
    ∷ je_class 640 7
    ∷ je_class 768 7
    ∷ je_class 896 7
    ∷ je_class 1024 7
    ∷ je_class 1280 8
    ∷ je_class 1536 8
    ∷ je_class 1792 8
    ∷ je_class 2048 8
    ∷ je_class 2560 9
    ∷ je_class 3072 9
    ∷ je_class 3584 9
    ∷ je_class 4096 9
    ∷ je_class 5120 10
    ∷ je_class 6144 10
    ∷ je_class 7168 10
    ∷ je_class 8192 10
    ∷ []

-- The size of an entry of a table; the source reads no entry out of range.
pub je_entry_size : List JeSizeClass → ℕ → ℕ
je_entry_size [] i = 0
je_entry_size (info ∷ rest) i = if i == 0 then info.size else je_entry_size rest (i - 1)

unfoldable pub je_size_to_class : (size : ℕ) → ℕ
unfolding je_entry_size
je_size_to_class size =
    let size' = at_least_one size in
    if ltb je_small_max size'
    then je_nsmall_classes
    else binary_search 6 (je_entry_size je_class_info) size' 0 (je_nsmall_classes - 1)

unfoldable pub je_class_to_size : (idx : ℕ) → ℕ
unfolding je_entry_size
je_class_to_size idx = if leb je_nsmall_classes idx then 0 else je_entry_size je_class_info idx

abbrev pub je_large_round : (size : ℕ) → ℕ
je_large_round size = (size + 4095) % word / je_page_size * je_page_size
