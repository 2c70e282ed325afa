-- ===== src/Classic/Ptmalloc/Bins/Choice.antt =====
-- Which chunk alloc_split of classic/ptmalloc/bins.cpp takes.
use my_malloc.Prelude.{
  ℕ, zero, suc, ◌+◌, ◌-◌, ◌<◌, ◌≤◌, ◌≡◌, refl, subst, sym, ◌∙◌, ap, inl, inr, ◌⊎◌, arith, true,
  List, [], ◌∷◌, length, ◌==◌, Bool-cases, eq_of, ne_from, if_false, if◌then◌else◌,
}
use native.Mathlib.Decide.{dec_lt}
use my_malloc.Classic.Ptmalloc.Chunk.{Chunks, chunk_size}
use my_malloc.Classic.Ptmalloc.Links.{Links, empty}
use my_malloc.Classic.Ptmalloc.Links.Ring.{has, distinct, Seg, IsRing}
use my_malloc.Classic.Ptmalloc.Bins.{Bins, as_chunk}
use my_malloc.Classic.Ptmalloc.Bins.LargeIndex.{large_bin, largebin_index}
use my_malloc.Classic.Ptmalloc.Bins.Ranges.{largebin_index_last}
use my_malloc.Classic.Ptmalloc.Bins.Split.{
  Outcome, ok, SplitResult, best, past_bins, large_links, take_victim, after_walk, split_from,
  alloc_split,
}
use my_malloc.Classic.Ptmalloc.Bins.Best.{IsBest, best-IsBest}

-- Every chunk of a bin is too small.
abbrev pub TooSmall : (nb : ℕ) → Chunks → List ℕ → Type 0
TooSmall nb m xs = (x : ℕ) → has x xs ≡ true → chunk_size (m x) < nb

-- The chunk v of large(i) is taken: the best fit of the first bin, from large(li) on, with one that fits.
pub record Takes (li nb unsorted : ℕ) (b : Bins) (m : Chunks) (lists : ℕ → List ℕ)
    (o : Outcome SplitResult) : Type 0 where
  pub i : ℕ
  pub v : ℕ
  pub from : li ≤ i
  pub before : i < 62
  pub isin : has v (lists i) ≡ true
  pub best_fit : IsBest nb m (lists i) v
  pub skipped : (j : ℕ) → li ≤ j → j < i → TooSmall nb m (lists j)
  pub taken : o ≡ ok (take_victim i v nb unsorted b m)

pub empty_ring : (l : Links) (s : ℕ) (xs : List ℕ) → IsRing l s xs → empty s l ≡ true → xs ≡ []
unfolding empty has distinct Seg
empty_ring l s [] ring e = refl
empty_ring l s (x ∷ xs) ring e =
    absurd (ne_from {a = x} {b = s} (ground (arith, ring.apart)) (sym ring.seg.0.0 ∙ eq_of e))

none_fits :
    (nb : ℕ) (m : Chunks) (xs : List ℕ) (v : ℕ) → IsBest nb m xs v → v ≡ 0 → TooSmall nb m xs
none_fits nb m xs v best e x isin = elim (dec_lt (chunk_size (m x)) nb) [
  | yes lt ↦ lt
  | no ge ↦ absurd ((best.least x isin (omega (arith, ge))).0 e)
]

skip_one :
    (nb : ℕ) (m : Chunks) (lists : ℕ → List ℕ) (li : ℕ) (P : ℕ → Type 0)
    → TooSmall nb m (lists li)
    → ((j : ℕ) → li + 1 ≤ j → P j → TooSmall nb m (lists j))
    → (j : ℕ) → li ≤ j
    → P j
    → TooSmall nb m (lists j)
skip_one nb m lists li P small later j le lt = elim (Bool-cases (li == j)) [
  | inl e ↦ subst (λ k. TooSmall nb m (lists k)) (eq_of e) small
  | inr ne ↦ later j (ground arith) lt
]

module _ (fuel nb unsorted : ℕ) (b : Bins) (m : Chunks) (lists : ℕ → List ℕ)
    (rings : (i : ℕ)
      → i < 62
      → IsRing b.links (as_chunk (large_bin i) b) (lists i) × (length (lists i) < fuel)) where
  abbrev pub Chooses : (li : ℕ) → Outcome SplitResult → Type 0
  Chooses li o =
      Takes li nb unsorted b m lists o
      ⊎ (((j : ℕ) → li ≤ j → j < 62 → TooSmall nb m (lists j))
          × (o ≡ split_from 1 fuel nb unsorted b m))

  -- A bin without a fit is passed over.
  Chooses-skip :
      (li : ℕ) (o : Outcome SplitResult)
      → TooSmall nb m (lists li)
      → Chooses (li + 1) o
      → Chooses li o
  Chooses-skip li o small (inl t) = inl (record {
    i = t.i;
    v = t.v;
    from = omega (arith, t.from);
    before = t.before;
    isin = t.isin;
    best_fit = t.best_fit;
    skipped = λ j le lt. skip_one nb m lists li (λ j. j < t.i) small t.skipped j le lt;
    taken = t.taken;
  })
  Chooses-skip li o small (inr (all, e)) =
      inr ((λ j le lt. skip_one nb m lists li (λ j. j < 62) small all j le lt), e)

  Chooses-walk :
      (li : ℕ) (rest : Outcome SplitResult)
      → li < 62
      → Chooses (li + 1) rest
      → (v : ℕ) → IsBest nb m (lists li) v
      → Chooses li (after_walk li nb unsorted b m rest (ok v))
  unfolding after_walk
  Chooses-walk li rest lt later v best = elim (Bool-cases (v == 0)) [
    | inl none ↦
        rw none (Chooses-skip li rest (none_fits nb m (lists li) v best (eq_of none)) later)
    | inr some ↦ rw some (
        inl (record {
          i = li;
          v = v;
          from = omega arith;
          before = lt;
          isin = elim best.member [ inl e ↦ absurd (ne_from some e) | inr (isin, fit) ↦ isin ];
          best_fit = best;
          skipped = λ j le lt. absurd (omega (arith, le, lt));
          taken = refl;
        }))
  ]

  -- One round of the loop, on the words l of its bin.
  abbrev round : (li : ℕ) → Links → Outcome SplitResult → Outcome SplitResult
  round li l rest =
      let s = as_chunk (large_bin li) b in
      if empty s l then rest else after_walk li nb unsorted b m rest (best fuel s nb (l.bk s) 0 l m)

  split_from-suc :
      (left : ℕ)
      → 62 - left < 62
      → split_from (suc left) fuel nb unsorted b m
        ≡ round (62 - left) b.links (split_from left fuel nb unsorted b m)
  unfolding split_from large_links
  split_from-suc left lt =
      ap (λ l. round (62 - left) l (split_from left fuel nb unsorted b m))
        (if_false (past_bins b) b.links (ground arith))

  Chooses-round :
      (li : ℕ) (rest : Outcome SplitResult)
      → li < 62
      → Chooses (li + 1) rest
      → Chooses li (round li b.links rest)
  unfolding has
  Chooses-round li rest lt later =
      let s = as_chunk (large_bin li) b in
      let (ring, few) = rings li lt in
      elim (Bool-cases (empty s b.links)) [
        | inl e ↦
            let none : TooSmall nb m (lists li) = λ x isin.
              absurd (ground (arith, ap (has x) (empty_ring b.links s (lists li) ring e) ∙ refl)) in
            rw e (Chooses-skip li rest none later)
        | inr some ↦
            let (v, e, found) = best-IsBest fuel s nb b.links m (lists li) ring few in
            rw (some, e) (Chooses-walk li rest lt later v found)
      ]

  split_from-Chooses :
      (left : ℕ) → left ≤ 62 → Chooses (62 - left) (split_from (suc left) fuel nb unsorted b m)
  split_from-Chooses zero le = inr ((λ j ge lt. absurd (omega (arith, ge, lt))), refl)
  split_from-Chooses (suc left) le =
      subst (Chooses (62 - suc left)) (sym (split_from-suc (suc left) (omega (arith, le)))) (
        Chooses-round (62 - suc left) (split_from (suc left) fuel nb unsorted b m)
          (omega (arith, le))
          (subst (λ k. Chooses k (split_from (suc left) fuel nb unsorted b m)) {x = 62 - left}
            (omega (arith, le)) (split_from-Chooses left (omega (arith, le)))))

  pub alloc_split-Chooses : Chooses (largebin_index nb) (alloc_split fuel nb unsorted b m)
  unfolding alloc_split
  alloc_split-Chooses =
      let last = largebin_index_last nb in
      let li = largebin_index nb in
      subst (λ left. Chooses li (split_from left fuel nb unsorted b m)) {x = suc (62 - li)}
        (omega (arith, last))
        (subst (λ k. Chooses k (split_from (suc (62 - li)) fuel nb unsorted b m))
          {x = 62 - (62 - li)} (omega (arith, last)) (split_from-Chooses (62 - li) (omega arith)))
