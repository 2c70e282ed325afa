-- ===== src/Classic/Tcmalloc/PageMap/Lookup.antt =====
-- What get of classic/tcmalloc/page_map.cpp returns after set and map_span.
use my_malloc.Prelude.{
  ℕ, zero, suc, ◌+◌, ◌%◌, ◌^◌, ◌<◌, ◌≤◌, ◌≡◌, ◌≢◌, refl, ◌∙◌, inl, inr, arith, ◌==◌, if◌then◌else◌,
  word, Bool-cases, if_true, if_false, eq_of, ne_of, ==_of,
}
use my_malloc.Classic.Tcmalloc.PageMap.{PageMap, root_idx, leaf_idx, get, set, map_pages, map_span}

-- The pages that the tree tells apart: 512 times 1024.
abbrev pub pages : ℕ
pages = 2 ^ 19

-- Two page numbers share an entry just when they agree in their low 19 bits.
same_entry : (p q : ℕ) → root_idx q ≡ root_idx p → leaf_idx q ≡ leaf_idx p → q % pages ≡ p % pages
same_entry p q r l = omega arith

root_of : (p q : ℕ) → q % pages ≡ p % pages → (root_idx q ≡ root_idx p) × (leaf_idx q ≡ leaf_idx p)
root_of p q e = (omega arith, omega arith)

pub get_same : (p q : ℕ) (m : PageMap) → q % pages ≡ p % pages → get q m ≡ get p m
unfolding get
get_same p q m e = let (r, l) = root_of p q e in rw (r, l) refl

-- A page number reads what was set last for a page number with the same low 19 bits, and what it read
-- before where there is none.
pub get-set :
    (p q span : ℕ) (m : PageMap)
    → get p (set q span m) ≡ (if q % pages == p % pages then span else get p m)
unfolding get set
get-set p q span m = elim (Bool-cases (root_idx q == root_idx p)) [
  | inr r ↦
      rw (r, ne_of (λ (e : q % pages ≡ p % pages). absurd (cc (==_of (root_of p q e).0, r)))) refl
  | inl r ↦ elim (Bool-cases (leaf_idx q == leaf_idx p)) [
    | inr l ↦
        rw
          (
            r,
            l,
            ne_of (λ (e : q % pages ≡ p % pages). absurd (cc (==_of (root_of p q e).1, l))),
            eq_of r,
          )
          refl
    | inl l ↦ rw (r, l, ==_of (same_entry p q (eq_of r) (eq_of l))) refl
  ]
]

pages_kept :
    (p start span i left : ℕ) (m : PageMap)
    → ((k : ℕ) → k < left → (start + i + k) % pages ≢ p % pages)
    → get p (map_pages start span i left m) ≡ get p m
unfolding map_pages
pages_kept p start span i zero m apart = refl
pages_kept p start span i (suc left) m apart =
    let here : ((start + i) % word) % pages ≢ p % pages =
      λ e. apart 0 (omega arith) (omega (arith, e)) in
    pages_kept p start span (i + 1) left (set ((start + i) % word) span m)
      (λ k below e. apart (k + 1) (omega arith) (omega (arith, e)))
    ∙ get-set p ((start + i) % word) span m
    ∙ if_false _ _ (ne_of here)

pages_mapped :
    (start span i left k : ℕ) (m : PageMap)
    → left ≤ pages
    → k < left
    → get ((start + i + k) % word) (map_pages start span i left m) ≡ span
unfolding map_pages
pages_mapped start span i zero k m few below = absurd (omega arith)
pages_mapped start span i (suc left) zero m few below =
    let same : (start + i) % word % pages ≡ (start + i + 0) % word % pages = omega arith in
    pages_kept ((start + i + 0) % word) start span (i + 1) left (set ((start + i) % word) span m)
      (λ k below e. absurd (omega (arith, e)))
    ∙ get-set ((start + i + 0) % word) ((start + i) % word) span m
    ∙ if_true _ _ (==_of same)
pages_mapped start span i (suc left) (suc k) m few below =
    let at : (start + i + suc k) % word ≡ (start + (i + 1) + k) % word = omega arith in
    rw at (
      pages_mapped start span (i + 1) left k (set ((start + i) % word) span m) (omega arith)
        (omega arith))

pub map_span_pages :
    (span start length k : ℕ) (m : PageMap)
    → length ≤ pages
    → k < length
    → get ((start + k) % word) (map_span span start length m) ≡ span
unfolding map_span
map_span_pages span start length k m few below =
    let at : (start + k) % word ≡ (start + 0 + k) % word = omega arith in
    rw at (pages_mapped start span 0 length k m few below)

-- After map_span over at most 2^19 pages, each page of the span reads as the span; and a page number
-- that differs from all of them in its low 19 bits reads as before.
pub get-map_span :
    (span start length k p : ℕ) (m : PageMap)
    → length ≤ pages
    → k < length
    → ((j : ℕ) → j < length → (start + j) % pages ≢ p % pages)
    → (get ((start + k) % word) (map_span span start length m) ≡ span)
      × (get p (map_span span start length m) ≡ get p m)
unfolding map_span
get-map_span span start length k p m few below apart = (
  map_span_pages span start length k m few below,
  pages_kept p start span 0 length m (λ j lt e. apart j lt (omega (arith, e))),
)
