-- ===== src/Classic/Ptmalloc/Bins/LargeIndex.antt =====
-- The large bins of classic/ptmalloc/bins.cpp: their sizes, and where bins.h keeps them.
use my_malloc.Prelude.{ℕ, ◌+◌, ltb, if◌then◌else◌, List, [], ◌∷◌}

abbrev pub nlargebins : ℕ
nlargebins = 63

abbrev pub n_bins : ℕ
n_bins = 128

-- The bound max_size of each range; a range starts where the one before it ends.
abbrev pub max_sizes : List ℕ
max_sizes =
    1088 ∷ 1152 ∷ 1216 ∷ 1280 ∷ 1344 ∷ 1408 ∷ 1472 ∷ 1536 ∷ 1600 ∷ 1664 ∷ 1728 ∷ 1792 ∷ 1856 ∷ 1920
    ∷ 1984 ∷ 2048 ∷ 2176 ∷ 2304 ∷ 2432 ∷ 2560 ∷ 2688 ∷ 2816 ∷ 2944 ∷ 3072 ∷ 3328 ∷ 3584 ∷ 3840
    ∷ 4096 ∷ 4608 ∷ 5120 ∷ 5632 ∷ 6144 ∷ 6656 ∷ 7168 ∷ 7680 ∷ 8192 ∷ 9216 ∷ 10240 ∷ 11264 ∷ 12288
    ∷ 14336 ∷ 16384 ∷ 18432 ∷ 20480 ∷ 24576 ∷ 28672 ∷ 32768 ∷ 40960 ∷ 49152 ∷ 57344 ∷ 65536 ∷ 81920
    ∷ 98304 ∷ 114688 ∷ 131072 ∷ 163840 ∷ 196608 ∷ 229376 ∷ 262144 ∷ 327680 ∷ 393216 ∷ 458752
    ∷ 524288 ∷ []

-- The linear scan over the ranges from range i on; past the last it is the last range.
unfoldable pub scan : (sz i : ℕ) → List ℕ → ℕ
scan sz i [] = 62
scan sz i (max_size ∷ rest) =
    let later = scan sz (i + 1) rest in if ltb sz max_size then i else later

unfoldable pub largebin_index : (sz : ℕ) → ℕ
unfolding scan
largebin_index sz = scan sz 0 max_sizes

-- The place of large(li) among the bins.
abbrev pub large_bin : (li : ℕ) → ℕ
large_bin li = 66 + li
