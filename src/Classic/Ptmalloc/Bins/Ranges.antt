-- ===== src/Classic/Ptmalloc/Bins/Ranges.antt =====
-- Which large bin a size goes to in classic/ptmalloc/bins.cpp, and which of them are bins of bins.h.
use my_malloc.Prelude.{
  ℕ, zero, suc, ◌+◌, ◌-◌, ◌<◌, ◌≤◌, ◌≡◌, ◌↔◌, refl, subst, inl, inr, ◌⊎◌, arith, Bool, true, leb,
  leb→le, ltb, List, [], ◌∷◌, get_or, length, Bool-cases, all_below, all_below_at,
}
use native.Mathlib.Decide.{dec_lt}
use my_malloc.Classic.Ptmalloc.Bins.LargeIndex.{n_bins, max_sizes, scan, largebin_index, large_bin}

-- What a scan from range i on returns: a place among the bounds that are left, the first above the size,
-- or the last range.
pub record Scanned (sz i : ℕ) (xs : List ℕ) (found : ℕ) : Type 0 where
  from : i ≤ found
  last : found ≤ 62
  above : (found ≡ 62) ⊎ (sz < get_or xs (found - i) 0)
  below : (j : ℕ) → j < found - i → get_or xs j 0 ≤ sz

Scanned-here : (sz i m : ℕ) (xs : List ℕ) → i ≤ 62 → (i ≡ 62) ⊎ (sz < m) → Scanned sz i (m ∷ xs) i
Scanned-here sz i m xs le above = record {
  from = omega arith;
  last = le;
  above = subst (λ k. (i ≡ 62) ⊎ (sz < get_or (m ∷ xs) k 0)) {x = 0} (omega arith) above;
  below = λ j lt. absurd (omega (arith, lt));
}

Scanned-later :
    (sz i m found : ℕ) (xs : List ℕ)
    → m ≤ sz
    → Scanned sz (i + 1) xs found
    → Scanned sz i (m ∷ xs) found
Scanned-later sz i m found xs le later = record {
  from = omega (arith, later.from);
  last = later.last;
  above =
      subst (λ k. (found ≡ 62) ⊎ (sz < get_or (m ∷ xs) k 0)) {x = suc (found - (i + 1))}
        (omega (arith, later.from)) later.above;
  below = λ j lt. at j (omega (arith, lt));
}
  where
    at : (j : ℕ) → j < found - i → get_or (m ∷ xs) j 0 ≤ sz
    at zero lt = le
    at (suc j) lt = later.below j (omega (arith, lt))

Scanned-rest :
    {sz i m : ℕ} (xs : List ℕ)
    → m ≤ sz
    → i + suc (length xs) ≡ 63
    → (i + 1 ≤ 62 → i + 1 + length xs ≡ 63 → Scanned sz (i + 1) xs (scan sz (i + 1) xs))
    → Scanned sz i (m ∷ xs) (scan sz (i + 1) xs)
unfolding scan
Scanned-rest {sz} {i} {m} [] le n later =
    subst (Scanned sz i (m ∷ [])) {x = i} (omega (arith, n))
      (Scanned-here sz i m [] (omega (arith, n)) (inl (omega (arith, n))))
Scanned-rest {sz} {i} {m} (m' ∷ xs) le n later =
    Scanned-later sz i m (scan sz (i + 1) (m' ∷ xs)) (m' ∷ xs) le
      (later (omega (arith, n)) (omega (arith, n)))

scan-Scanned :
    (sz i : ℕ) (xs : List ℕ) → i ≤ 62 → i + length xs ≡ 63 → Scanned sz i xs (scan sz i xs)
unfolding scan
scan-Scanned sz i [] le n = absurd (omega (arith, le, n))
scan-Scanned sz i (m ∷ xs) le n = elim (Bool-cases (ltb sz m)) [
  | inl lt ↦ rw lt (Scanned-here sz i m xs le (inr (ground arith)))
  | inr ge ↦ rw ge (Scanned-rest xs (ground arith) n (scan-Scanned sz (i + 1) xs))
]

below_last : ℕ → Bool
below_last i = leb (get_or max_sizes i 0) 458752

below_last_all : all_below below_last 62 ≡ true
unfolding all_below below_last
below_last_all = refl

max_sizes_bound : (i : ℕ) → i < 62 → get_or max_sizes i 0 ≤ 458752
unfolding below_last
max_sizes_bound i lt =
    leb→le (get_or max_sizes i 0) 458752 (all_below_at below_last 62 i below_last_all lt)

Scanned-large_bin :
    (sz li : ℕ) → Scanned sz 0 max_sizes li → (large_bin li < n_bins) ↔ (sz < 458752)
Scanned-large_bin sz li found = (
  (λ lt. elim found.above [
    | inl e ↦ absurd (omega (arith, e, lt))
    | inr above ↦ omega (arith, above, max_sizes_bound (li - 0) (omega (arith, lt)))
  ]),
  λ small. elim (dec_lt li 62) [
    | yes lt ↦ omega (arith, lt)
    | no ge ↦ absurd (omega (arith, ge, small, found.below 61 (omega (arith, ge))))
  ],
)

-- largebin_index gives the first of the 63 ranges whose bound is above the size, and the last range if
-- none is. The bin that large() keeps for it is one of the 128 bins exactly if the size is below 458752:
-- the last range, from there on, has none.
pub largebin_index_lem :
    (sz : ℕ)
    → Scanned sz 0 max_sizes (largebin_index sz)
      × ((large_bin (largebin_index sz) < n_bins) ↔ (sz < 458752))
unfolding largebin_index
largebin_index_lem sz =
    let found = scan-Scanned sz 0 max_sizes (omega arith) refl in
    (found, Scanned-large_bin sz (scan sz 0 max_sizes) found)

pub largebin_index_last : (sz : ℕ) → largebin_index sz ≤ 62
largebin_index_last sz = (largebin_index_lem sz).0.last
