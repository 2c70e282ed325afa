-- ===== src/Classic/Tcmalloc/ThreadCache/Valid.antt =====
-- scavenge and free of classic/tcmalloc/thread_cache.cpp keep the counts of a cache.
use my_malloc.Prelude.{
  ℕ, zero, suc, ◌+◌, ◌<◌, ◌≤◌, ◌≡◌, ◌≢◌, refl, ◌∙◌, inl, inr, arith, ltb, leb, ◌==◌, Bool-cases,
  eq_of, ne_of, ==_of, subst, eq_refl,
}
use my_malloc.Classic.Tcmalloc.ThreadCache.{
  ThreadCache, Local, scavenge_class, scavenge_from, scavenge, push, free, relieved,
}
use my_malloc.Classic.Tcmalloc.ThreadCache.Counts.{ClassFits, Fits-drop, push-Fits}

abbrev pub IsValid : ThreadCache → Type 0
IsValid t = (i : ℕ) → i < 86 → ClassFits t i

scavenge_class_self :
    (i : ℕ) (l : Local) → ClassFits l.cache i → ClassFits (scavenge_class i l).cache i
unfolding scavenge_class
scavenge_class_self i l at = elim (Bool-cases (ltb (l.cache.low_water i) (l.cache.count i))) [
  | inr low ↦ rw low at
  | inl above ↦
      rw (above, eq_refl i)
        (Fits-drop (l.cache.list i) (l.cache.count i) (l.cache.max_count i) (l.cache.low_water i) at
          (ground arith))
]

-- The other classes keep their counts, and all their low water.
scavenge_class-other :
    (i j : ℕ) (l : Local) → i ≢ j → (scavenge_class i l).cache.count j ≡ l.cache.count j
unfolding scavenge_class
scavenge_class-other i j l ne = elim (Bool-cases (ltb (l.cache.low_water i) (l.cache.count i))) [
  | inr low ↦ rw low refl
  | inl above ↦ rw (above, ne_of ne) refl
]

pub scavenge_class-low_water :
    (i : ℕ) (l : Local) → (scavenge_class i l).cache.low_water ≡ l.cache.low_water
unfolding scavenge_class
scavenge_class-low_water i l = elim (Bool-cases (ltb (l.cache.low_water i) (l.cache.count i))) [
  | inr low ↦ rw low refl
  | inl above ↦ rw above refl
]

scavenge_class-Fits :
    (i j : ℕ) (l : Local) → ClassFits l.cache j → ClassFits (scavenge_class i l).cache j
unfolding scavenge_class
scavenge_class-Fits i j l at = elim (Bool-cases (ltb (l.cache.low_water i) (l.cache.count i))) [
  | inr low ↦ rw low at
  | inl above ↦ elim (Bool-cases (i == j)) [
    | inr other ↦ rw (above, other) at
    | inl same ↦
        subst (λ (k : ℕ). ClassFits l.cache k → ClassFits (scavenge_class i l).cache k) (eq_of same)
          (scavenge_class_self i l) at
  ]
]

-- A class that was scavenged has no more than its low water.
scavenge_class-low :
    (i : ℕ) (l : Local)
    → (scavenge_class i l).cache.count i ≤ (scavenge_class i l).cache.low_water i
unfolding scavenge_class
scavenge_class-low i l = elim (Bool-cases (ltb (l.cache.low_water i) (l.cache.count i))) [
  | inr low ↦ rw low (ground arith)
  | inl above ↦ rw (above, ==_of {a = i} {b = i} refl) (ground arith)
]

scavenge_from-Fits :
    (i left j : ℕ) (l : Local) → ClassFits l.cache j → ClassFits (scavenge_from i left l).cache j
unfolding scavenge_from
scavenge_from-Fits i zero j l at = at
scavenge_from-Fits i (suc left) j l at =
    scavenge_from-Fits (i + 1) left j (scavenge_class i l) (scavenge_class-Fits i j l at)

-- The classes before the first one are not scavenged.
scavenge_from-before :
    (i left j : ℕ) (l : Local)
    → j < i
    → ((scavenge_from i left l).cache.count j ≡ l.cache.count j)
      × ((scavenge_from i left l).cache.low_water ≡ l.cache.low_water)
unfolding scavenge_from
scavenge_from-before i zero j l lt = (refl, refl)
scavenge_from-before i (suc left) j l lt =
    let rest = scavenge_from-before (i + 1) left j (scavenge_class i l) (omega arith) in
    (
      rest.0 ∙ scavenge_class-other i j l (λ e. absurd (omega (arith, e, lt))),
      rest.1 ∙ scavenge_class-low_water i l,
    )

scavenge_from-low :
    (i left j : ℕ) (l : Local)
    → i ≤ j
    → j < i + left
    → (scavenge_from i left l).cache.count j ≤ (scavenge_from i left l).cache.low_water j
unfolding scavenge_from
scavenge_from-low i zero j l le lt = absurd (omega arith)
scavenge_from-low i (suc left) j l le lt = elim (Bool-cases (i == j)) [
  | inl same ↦
      let rest = scavenge_from-before (i + 1) left j (scavenge_class i l) (ground arith) in
      let low =
        subst
          (λ (k : ℕ). (scavenge_class i l).cache.count k ≤ (scavenge_class i l).cache.low_water k)
          (eq_of same) (scavenge_class-low i l) in
      rw (rest.0, rest.1) low
  | inr other ↦ scavenge_from-low (i + 1) left j (scavenge_class i l) (ground arith) (omega arith)
]

pub scavenge-IsValid : (l : Local) → IsValid l.cache → IsValid (scavenge l).cache
unfolding scavenge
scavenge-IsValid l valid i lt = scavenge_from-Fits 0 86 i l (valid i lt)

pub scavenge-low :
    (l : Local) (i : ℕ) → i < 86 → (scavenge l).cache.count i ≤ (scavenge l).cache.low_water i
unfolding scavenge
scavenge-low l i lt = scavenge_from-low 0 86 i l (omega arith) (omega arith)

relieved-IsValid :
    (i : ℕ) (l : Local)
    → IsValid l.cache
    → i < 86
    → IsValid (relieved i l).cache
      × ((relieved i l).cache.count i < (relieved i l).cache.max_count i)
relieved-IsValid i l valid lt = elim (Bool-cases (leb (l.cache.max_count i) (l.cache.count i))) [
  | inr room ↦ rw room (valid, ground arith)
  | inl full ↦
      let valid' = scavenge-IsValid l valid in
      let at = valid' i lt in
      rw full (valid', omega (arith, scavenge-low l i lt, at.low_bound, at.some_room))
]

-- free keeps a valid cache valid, also where it scavenges before it puts the node on its list, or after.
pub free-IsValid : (i ptr : ℕ) (l : Local) → IsValid l.cache → IsValid (free i ptr l).1.cache
unfolding free
free-IsValid i ptr l valid = elim (Bool-cases (leb 86 i)) [
  | inl outside ↦ rw outside valid
  | inr inside ↦
      let (valid1, room) = relieved-IsValid i l valid (ground arith) in
      let l1 = relieved i l in
      let l2 : Local = record l1 { cache = push i ptr l1.cache } in
      let valid2 : IsValid l2.cache = λ j lt. push-Fits i j l1.cache (valid1 j lt) ptr room in
      elim (Bool-cases (ltb l2.cache.max_allocated l2.cache.allocated)) [
        | inr small ↦ rw (inside, small) valid2
        | inl large ↦ rw (inside, large) (scavenge-IsValid l2 valid2)
      ]
]
