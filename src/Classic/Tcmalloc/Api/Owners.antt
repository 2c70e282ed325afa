-- ===== src/Classic/Tcmalloc/Api/Owners.antt =====
-- Which threads have a cache after a call of classic/tcmalloc/tcmalloc.cpp.
use my_malloc.Prelude.{
  ℕ, ◌≡◌, refl, sym, ◌∙◌, ap, inl, inr, Bool, true, false, Option, none, some, List, ltb, leb, ◌==◌,
  if◌then◌else◌, Bool-cases, Option-cases, eq_of, subst,
}
use my_malloc.Classic.Tcmalloc.SizeClasses.{k_max_size, at_least_one, size_to_class, pages_of_class}
use my_malloc.Classic.Tcmalloc.PageHeap.{Mapping, alloc_span, alloc_large}
use my_malloc.Classic.Tcmalloc.Central.{remove_range}
use my_malloc.Classic.Tcmalloc.ThreadCache.{ThreadCache, Local, alloc, free}
use my_malloc.Classic.Tcmalloc.Api.{
  Tcmalloc, local_of, with_local, class_store, with_heap, span_of, tc_init_allocator, tc_large_free,
  release_reference, free_to_central, free_small, tc_free,
}
use my_malloc.Classic.Tcmalloc.Api.Malloc.{
  tc_large_alloc, prepare_span, take_one, from_heap, or_heap, from_central, or_central,
  malloc_small, tc_malloc,
}

abbrev pub has : Option ThreadCache → Bool
has none = false
has (some t) = true

-- The same threads have a cache.
pub record SameOwners (s s' : Tcmalloc) : Type 0 where
  pub once : s'.once ≡ s.once
  pub owner : (b : ℕ) → has (s'.caches b) ≡ has (s.caches b)

pub owners_refl : (s : Tcmalloc) → SameOwners s s
owners_refl s = record { once = refl; owner = λ b. refl }

pub owners_trans : {s t u : Tcmalloc} → SameOwners s t → SameOwners t u → SameOwners s u
owners_trans st tu = record { once = tu.once ∙ st.once; owner = λ b. tu.owner b ∙ st.owner b }

-- A call that does not end has no result to be wrong.
abbrev pub Ends {ℓ κ} : {A : Type ℓ} → (Tcmalloc → Type κ) → Option (A × Tcmalloc) → Type κ
Ends P none = Unit
Ends P (some (a, s)) = P s

abbrev Keeps : Tcmalloc → Option (Option ℕ × Tcmalloc) → Type 0
Keeps s o = Ends (SameOwners s) o

owners_local :
    (thread : ℕ) (t : ThreadCache) (l : Local) (s : Tcmalloc)
    → s.caches thread ≡ some t
    → SameOwners s (with_local thread l s)
owners_local thread t l s e = record {
  once = refl;
  owner = λ b. elim (Bool-cases (thread == b)) [
    | inl same ↦ rw same (sym (ap has e) ∙ ap (λ (i : ℕ). has (s.caches i)) (eq_of same))
    | inr other ↦ rw other refl
  ];
}

pub owners_if :
    {s x y : Tcmalloc} (b : Bool)
    → SameOwners s x
    → SameOwners s y
    → SameOwners s (if b then x else y)
owners_if true one other = one
owners_if false one other = other

tc_large_free_owners : (ptr : ℕ) (s : Tcmalloc) → SameOwners s (tc_large_free ptr s)
unfolding tc_large_free
tc_large_free_owners ptr s =
    owners_if (span_of ptr s == 0) (owners_refl s) record { once = refl; owner = λ b. refl }

free_to_central_owners :
    (ptr span i : ℕ) (s : Tcmalloc) → SameOwners s (free_to_central ptr span i s)
unfolding free_to_central release_reference
free_to_central_owners ptr span i s = record { once = refl; owner = λ b. refl }

free_small_owners :
    (thread ptr span i : ℕ) (s : Tcmalloc) → SameOwners s (free_small thread ptr span i s)
unfolding free_small
free_small_owners thread ptr span i s = elim (Option-cases (s.caches thread)) [
  | inl e ↦ rw (e, free_small) (free_to_central_owners ptr span i s)
  | inr (t, e) ↦
      let r = free i ptr (local_of t s) in
      let kept = owners_local thread t r.1 s e in
      rw (e, free_small)
        (owners_if r.0 kept
          (owners_trans kept (free_to_central_owners ptr span i (with_local thread r.1 s))))
]

pub tc_free_owners :
    (thread : ℕ) (ptr : Option ℕ) (s : Tcmalloc) → SameOwners s (tc_free thread ptr s)
unfolding tc_free
tc_free_owners thread none s = owners_refl s
tc_free_owners thread (some ptr) s =
    let span = span_of ptr s in
    let class_idx = (s.heap.spans span).size_class in
    owners_if (span == 0) (owners_refl s) (
      owners_if (leb 86 class_idx) (tc_large_free_owners ptr s)
        (free_small_owners thread ptr span class_idx s))

take_one_owners : (i : ℕ) (s : Tcmalloc) → Keeps s (take_one i s)
unfolding take_one
take_one_owners i s = elim (Option-cases (remove_range 1 (class_store i s))) [
  | inl e ↦ rw (e, take_one) tt
  | inr (r, e) ↦ rw (e, take_one) record { once = refl; owner = λ b. refl }
]

Keeps-after :
    {s t : Tcmalloc} (o : Option (Option ℕ × Tcmalloc)) → SameOwners s t → Keeps t o → Keeps s o
Keeps-after none st to = tt
Keeps-after (some (p, u)) st to = owners_trans st to

module _ (mmap : List Mapping → (size : ℕ) → Option ℕ) where
  pub tc_large_alloc_owners :
      (size : ℕ) (s : Tcmalloc) → SameOwners s (tc_large_alloc mmap size s).1
  unfolding tc_large_alloc
  tc_large_alloc_owners size s = elim (Option-cases (alloc_large mmap size s.heap)) [
    | inl e ↦ rw (e, tc_large_alloc) (owners_refl s)
    | inr (r, e) ↦ rw (e, tc_large_alloc) record { once = refl; owner = λ b. refl }
  ]

  from_heap_owners : (i : ℕ) (s : Tcmalloc) → Keeps s (from_heap mmap i s)
  unfolding from_heap prepare_span
  from_heap_owners i s = elim (Option-cases (alloc_span mmap (pages_of_class i) s.heap)) [
    | inl e ↦ rw (e, from_heap) (owners_refl s)
    | inr ((span, h), e) ↦
        let s1 = prepare_span i span (with_heap h s) in
        rw (e, from_heap)
          (Keeps-after {s = s} (take_one i s1) record { once = refl; owner = λ b. refl }
            (take_one_owners i s1))
  ]

  or_heap_owners : (i : ℕ) (p : Option ℕ) (s : Tcmalloc) → Keeps s (or_heap mmap i p s)
  or_heap_owners i (some node) s = owners_refl s
  or_heap_owners i none s = from_heap_owners i s

  from_central_owners : (i : ℕ) (s : Tcmalloc) → Keeps s (from_central mmap i s)
  unfolding from_central
  from_central_owners i s = elim (Option-cases (take_one i s)) [
    | inl e ↦ rw (e, from_central) tt
    | inr ((node, s1), e) ↦
        rw (e, from_central)
          (Keeps-after {s = s} (or_heap mmap i node s1) (subst (Keeps s) e (take_one_owners i s))
            (or_heap_owners i node s1))
  ]

  or_central_owners : (i : ℕ) (p : Option ℕ) (s : Tcmalloc) → Keeps s (or_central mmap i p s)
  or_central_owners i (some node) s = owners_refl s
  or_central_owners i none s = from_central_owners i s

  malloc_small_owners : (thread i : ℕ) (s : Tcmalloc) → Keeps s (malloc_small mmap thread i s)
  unfolding malloc_small
  malloc_small_owners thread i s = elim (Option-cases (s.caches thread)) [
    | inl e ↦ rw (e, malloc_small) (owners_refl s)
    | inr (t, e) ↦ elim (Option-cases (alloc i (local_of t s))) [
      | inl a ↦ rw (e, malloc_small) (rw (a, malloc_small) tt)
      | inr ((p, l), a) ↦
          let s1 = with_local thread l s in
          rw (e, malloc_small)
            (rw (a, malloc_small)
              (Keeps-after {s = s} (or_central mmap i p s1) (owners_local thread t l s e)
                (or_central_owners i p s1)))
    ]
  ]

module _ (mmap : List Mapping → (size : ℕ) → Option ℕ) (aligned_alloc : ℕ → Bool) where
  -- After the first step of a call.
  abbrev After : (thread : ℕ) → Tcmalloc → Option (Option ℕ × Tcmalloc) → Type 0
  After thread s o = Keeps (tc_init_allocator (aligned_alloc thread) thread s) o

  pub tc_malloc_owners :
      (thread size : ℕ) (s : Tcmalloc) → After thread s (tc_malloc mmap aligned_alloc thread size s)
  unfolding tc_malloc
  tc_malloc_owners thread size s =
      let s1 = tc_init_allocator (aligned_alloc thread) thread s in
      elim (Bool-cases (ltb k_max_size (at_least_one size))) [
        | inl large ↦ rw large (tc_large_alloc_owners mmap (at_least_one size) s1)
        | inr small ↦
            rw small (malloc_small_owners mmap thread (size_to_class (at_least_one size)) s1)
      ]
