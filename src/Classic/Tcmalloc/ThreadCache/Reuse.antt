-- ===== src/Classic/Tcmalloc/ThreadCache/Reuse.antt =====
-- A node that is freed is the next one that is handed out, until scavenge of
-- classic/tcmalloc/thread_cache.cpp gives nodes back: these are lost.
use my_malloc.Prelude.{
  ap, ℕ, zero, suc, ◌+◌, ◌-◌, ◌%◌, ◌<◌, ◌≤◌, ◌≡◌, ◌≢◌, refl, ◌∙◌, inl, inr, true, false, arith,
  some, List, ◌∷◌, drop, ltb, leb, ◌==◌, Bool-cases, eq_of, ne_of, eq_refl, subst, word, ne_from,
}
use my_malloc.Classic.Tcmalloc.SizeClasses.{class_to_size}
use my_malloc.Classic.Tcmalloc.PageHeap.Valid.{put_same}
use my_malloc.Classic.Tcmalloc.Central.Lost.{SameNodes, insert_range-nodes}
use my_malloc.Classic.Tcmalloc.ThreadCache.Valid.{scavenge_class-low_water}
use my_malloc.Classic.Tcmalloc.ThreadCache.{
  Local, store_of, scavenge_class, scavenge_from, scavenge, push, pop, free, alloc,
}

-- Where the list of the class has room and the cache is below its limit, free takes the node, and the
-- next alloc of the class hands it out again; list, count and size of the cache are then as before.
pub alloc-free :
    (i ptr : ℕ) (l : Local)
    → i < 86
    → l.cache.count i < l.cache.max_count i
    → l.cache.max_count i < word
    → l.cache.allocated + class_to_size i ≤ l.cache.max_allocated
    → l.cache.max_allocated < word
    → (l1 l2 : Local) × (free i ptr l ≡ (true, l1))
      × (alloc i l1 ≡ some (some ptr, l2))
      × (l2.cache.list i ≡ l.cache.list i)
      × (l2.cache.count i ≡ l.cache.count i)
      × (l2.cache.allocated ≡ l.cache.allocated)
unfolding free alloc push pop
alloc-free i ptr l lt room few fits small =
    let inside : leb 86 i ≡ false = ground arith in
    let not_full : leb (l.cache.max_count i) (l.cache.count i) ≡ false = ground arith in
    let sum : (l.cache.allocated + class_to_size i) % word ≡ l.cache.allocated + class_to_size i =
      omega arith in
    let quiet : ltb l.cache.max_allocated ((l.cache.allocated + class_to_size i) % word) ≡ false =
      ground (arith, sum) in
    let l1 : Local = record l { cache = push i ptr l.cache } in
    let l2 : Local = record l1 { cache = pop i (l.cache.list i) l1.cache } in
    let e : l1.cache.list i ≡ ptr ∷ l.cache.list i =
      put_same l.cache.list i (ptr ∷ l.cache.list i) in
    let counted : l1.cache.count i ≡ (l.cache.count i + 1) % word =
      put_same l.cache.count i ((l.cache.count i + 1) % word) in
    (
      l1,
      l2,
      rw (inside, not_full, quiet) refl,
      rw (inside, alloc, e) refl,
      put_same l1.cache.list i (l.cache.list i),
      put_same l1.cache.count i ((l1.cache.count i + (word - 1)) % word)
          ∙ omega (arith, counted, room, few),
      omega (arith, sum),
    )

-- The round of a class drops the nodes above its low water, and changes no other list.
scavenge_class-list :
    (i : ℕ) (l : Local)
    → (scavenge_class i l).cache.list i
      ≡ drop (l.cache.count i - l.cache.low_water i) (l.cache.list i)
unfolding scavenge_class
scavenge_class-list i l = elim (Bool-cases (ltb (l.cache.low_water i) (l.cache.count i))) [
  | inl above ↦ rw (above, eq_refl i) refl
  | inr low ↦
      let nothing : l.cache.count i - l.cache.low_water i ≡ 0 = ground arith in
      rw (low, nothing) refl
]

scavenge_class-nodes : (i : ℕ) (l : Local) → SameNodes l.heap (scavenge_class i l).heap
unfolding scavenge_class
scavenge_class-nodes i l y = elim (Bool-cases (ltb (l.cache.low_water i) (l.cache.count i))) [
  | inl above ↦ rw above (insert_range-nodes _ (store_of i l) y)
  | inr low ↦ rw low refl
]

-- Another class keeps its list and its counts.
scavenge_class-others :
    (i j : ℕ) (l : Local)
    → i ≢ j
    → ((scavenge_class i l).cache.list j ≡ l.cache.list j)
      × ((scavenge_class i l).cache.count j ≡ l.cache.count j)
unfolding scavenge_class
scavenge_class-others i j l ne = elim (Bool-cases (ltb (l.cache.low_water i) (l.cache.count i))) [
  | inr low ↦ rw low (refl, refl)
  | inl above ↦ rw (above, ne_of ne) (refl, refl)
]

abbrev kept : Local → ℕ → List ℕ
kept l j = drop (l.cache.count j - l.cache.low_water j) (l.cache.list j)

scavenge_from-before :
    (i left j : ℕ) (l : Local) → j < i → (scavenge_from i left l).cache.list j ≡ l.cache.list j
unfolding scavenge_from
scavenge_from-before i zero j l lt = refl
scavenge_from-before i (suc left) j l lt =
    scavenge_from-before (i + 1) left j (scavenge_class i l) (omega arith)
    ∙ (scavenge_class-others i j l (λ e. absurd (omega (arith, e, lt)))).0

scavenge_from-list :
    (i left j : ℕ) (l : Local)
    → i ≤ j
    → j < i + left
    → (scavenge_from i left l).cache.list j ≡ kept l j
unfolding scavenge_from
scavenge_from-list i zero j l le lt = absurd (omega arith)
scavenge_from-list i (suc left) j l le lt = elim (Bool-cases (i == j)) [
  | inl same ↦
      scavenge_from-before (i + 1) left j (scavenge_class i l) (ground arith)
      ∙ subst (λ (k : ℕ). (scavenge_class i l).cache.list k ≡ kept l k) (eq_of same)
          (scavenge_class-list i l)
  | inr other ↦
      let (list, count) = scavenge_class-others i j l (ne_from other) in
      let rest =
        scavenge_from-list (i + 1) left j (scavenge_class i l) (ground arith) (omega arith) in
      rest ∙ rw (list, count, ap (λ (f : ℕ → ℕ). f j) (scavenge_class-low_water i l)) refl
]

scavenge_from-nodes : (i left : ℕ) (l : Local) → SameNodes l.heap (scavenge_from i left l).heap
unfolding scavenge_from
scavenge_from-nodes i zero l y = refl
scavenge_from-nodes i (suc left) l y =
    scavenge_from-nodes (i + 1) left (scavenge_class i l) y ∙ scavenge_class-nodes i l y

-- scavenge cuts from each class the first nodes of its list, as many as its count lies above its low
-- water, but no span's chain has another node afterwards: the nodes are lost.
pub scavenge-list :
    (j : ℕ) (l : Local)
    → j < 86
    → ((scavenge l).cache.list j ≡ drop (l.cache.count j - l.cache.low_water j) (l.cache.list j))
      × SameNodes l.heap (scavenge l).heap
unfolding scavenge
scavenge-list j l lt =
    (scavenge_from-list 0 86 j l (omega arith) (omega arith), scavenge_from-nodes 0 86 l)
