-- ===== src/Classic/Ptmalloc/Bins/Lists.antt =====
-- The walks of classic/ptmalloc/bins.cpp over bins that are lists.
use my_malloc.Prelude.{
  ℕ, zero, suc, ◌+◌, ◌-◌, ◌<◌, ◌≤◌, ◌≡◌, refl, subst, sym, ◌∙◌, inl, inr, arith, Bool, false, not,
  ◌&&◌, ◌||◌, List, [], ◌∷◌, length, ◌==◌, Bool-cases,
}
use my_malloc.Classic.Ptmalloc.Links.{Links, empty}
use my_malloc.Classic.Ptmalloc.Links.Ring.{has, distinct, Seg, IsRing}
use my_malloc.Classic.Ptmalloc.Bins.{Bins, as_chunk, bin_empty}
use my_malloc.Classic.Ptmalloc.Bins.Choice.{empty_ring}
use my_malloc.Classic.Ptmalloc.Bins.Search.{
  on_list, list_count, fast_has, bins_have, contains_free_chunk, fast_count, bins_count,
  free_chunk_count,
}

-- From cur along fd through the chunks xs to `stop`.
unfoldable pub Chain : Links → ℕ → List ℕ → ℕ → Type 0
Chain l cur [] stop = cur ≡ stop
Chain l cur (x ∷ xs) stop = (cur ≡ x) × Chain l (l.fd x) xs stop

-- The fastbins and the bins hold the chunks of lists, each shorter than the fuel.
pub record Holds (fuel : ℕ) (b : Bins) (fasts lists : ℕ → List ℕ) : Type 0 where
  pub chain : (i : ℕ) → i < 10 → Chain b.links (b.fast i) (fasts i) 0
  pub nonzero : (i : ℕ) → i < 10 → has 0 (fasts i) ≡ false
  pub fast_fuel : (i : ℕ) → i < 10 → length (fasts i) < fuel
  pub ring : (i : ℕ) → i < 128 → IsRing b.links (as_chunk i b) (lists i)
  pub fuel_left : (i : ℕ) → i < 128 → length (lists i) < fuel

-- Whether p is on one of the lists from top + 1 - left to top, and how many chunks are.
unfoldable pub in_lists : (left top p : ℕ) → (ℕ → List ℕ) → Bool
in_lists zero top p lists = false
in_lists (suc left) top p lists = has p (lists (top - left)) || in_lists left top p lists

unfoldable pub total : (left top : ℕ) → (ℕ → List ℕ) → ℕ
total zero top lists = 0
total (suc left) top lists = length (lists (top - left)) + total left top lists

Seg-Chain : (l : Links) (a : ℕ) (xs : List ℕ) (b : ℕ) → Seg l a xs b → Chain l (l.fd a) xs b
unfolding Seg Chain
Seg-Chain l a [] b e = e.0
Seg-Chain l a (x ∷ xs) b (e, s) = (e.0, Seg-Chain l x xs b s)

abbrev Walks : (fuel cur stop : ℕ) → Links → List ℕ → Type 0
Walks fuel cur stop l xs =
    ((p : ℕ) → on_list fuel p cur stop l ≡ has p xs) × (list_count fuel cur stop l ≡ length xs)

Chain-Walks :
    (fuel cur stop : ℕ) (l : Links) (xs : List ℕ)
    → Chain l cur xs stop
    → has 0 xs ≡ false
    → has stop xs ≡ false
    → length xs < fuel
    → Walks fuel cur stop l xs
unfolding on_list list_count has Chain
Chain-Walks zero cur stop l xs e pos out lt = absurd (omega (arith, lt))
Chain-Walks (suc fuel) cur stop l [] e pos out lt = ((λ p. ground (arith, e)), ground (arith, e))
Chain-Walks (suc fuel) cur stop l (x ∷ xs) (e, c) pos out lt =
    let (walk, count) =
      Chain-Walks fuel (l.fd x) stop l xs c (ground arith) (ground arith) (omega (arith, lt)) in
    subst (λ y. Walks (suc fuel) y stop l (x ∷ xs)) (sym e)
      ((λ p. ground (arith, walk p)), ground (arith, count))

module _ (fuel : ℕ) (b : Bins) (fasts lists : ℕ → List ℕ) (holds : Holds fuel b fasts lists) where
  fast-Walks : (i : ℕ) → i < 10 → Walks fuel (b.fast i) 0 b.links (fasts i)
  fast-Walks i lt =
      let pos = holds.nonzero i lt in
      Chain-Walks fuel (b.fast i) 0 b.links (fasts i) (holds.chain i lt) pos pos
        (holds.fast_fuel i lt)

  bin-Walks :
      (i : ℕ) → i < 128 → Walks fuel (b.links.fd (as_chunk i b)) (as_chunk i b) b.links (lists i)
  unfolding has distinct
  bin-Walks i lt =
      let ring = holds.ring i lt in
      let s = as_chunk i b in
      Chain-Walks fuel (b.links.fd s) s b.links (lists i) (Seg-Chain b.links s (lists i) s ring.seg)
        (ground (arith, ring.nonzero)) (ground (arith, ring.apart)) (holds.fuel_left i lt)

  fast_lists :
      (left : ℕ)
      → left ≤ 10
      → ((p : ℕ) → fast_has left fuel p b ≡ in_lists left 9 p fasts)
        × (fast_count left fuel b ≡ total left 9 fasts)
  unfolding fast_has in_lists fast_count total
  fast_lists zero le = ((λ p. refl), refl)
  fast_lists (suc left) le =
      let (walk, count) = fast-Walks (9 - left) (omega (arith, le)) in
      let (later, later_count) = fast_lists left (omega (arith, le)) in
      ((λ p. rw (walk p, later p) refl), rw (count, later_count) refl)

  bin_lists :
      (left : ℕ)
      → left ≤ 127
      → ((p : ℕ) → bins_have left fuel p b ≡ in_lists left 127 p lists)
        × (bins_count left fuel b ≡ total left 127 lists)
  unfolding bins_have in_lists bins_count total bin_empty has
  bin_lists zero le = ((λ p. refl), refl)
  bin_lists (suc left) le =
      let i = 127 - left in
      let (walk, count) = bin-Walks i (omega (arith, le)) in
      let (later, later_count) = bin_lists left (omega (arith, le)) in
      elim (Bool-cases (empty (as_chunk i b) b.links)) [
        | inl e ↦
            let none =
              empty_ring b.links (as_chunk i b) (lists i) (holds.ring i (omega (arith, le))) e in
            ((λ p. rw (e, none) (later p)), rw (e, none) (later_count ∙ omega arith))
        | inr some ↦ ((λ p. rw (some, walk p, later p) refl), rw (some, count, later_count) refl)
      ]

  -- Where the fastbins and the bins hold lists shorter than the fuel: contains_free_chunk tells the
  -- chunks of the lists of the fastbins and of the bins 1 to 127 from other addresses, and
  -- free_chunk_count is the number of chunks of those lists.
  pub contains_free_chunk_lem :
      ((p : ℕ)
        → contains_free_chunk fuel p b
          ≡ (not (p == 0) && (in_lists 10 9 p fasts || in_lists 127 127 p lists)))
      × (free_chunk_count fuel b ≡ total 10 9 fasts + total 127 127 lists)
  unfolding contains_free_chunk free_chunk_count
  contains_free_chunk_lem =
      let (fast, counted) = fast_lists 10 (omega arith) in
      let (bins, counted') = bin_lists 127 (omega arith) in
      ((λ p. rw (fast p, bins p) (ground arith)), rw (counted, counted') refl)
