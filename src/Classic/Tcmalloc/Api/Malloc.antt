-- ===== src/Classic/Tcmalloc/Api/Malloc.antt =====
-- The calls of classic/tcmalloc/tcmalloc.cpp that hand out blocks.
use my_malloc.Prelude.{
  ℕ, ◌+◌, ◌-◌, bit_and, align_up, ◌*◌, ◌/◌, ◌%◌, Bool, not, ◌&&◌, Option, none, some, List, [], ◌∷◌,
  ltb, leb, ◌==◌, if◌then◌else◌, word,
}
use my_malloc.Classic.Tcmalloc.SizeClasses.{
  k_num_classes, k_max_size, at_least_one, size_to_class, class_to_size, pages_of_class,
}
use my_malloc.Classic.Tcmalloc.Span.{Span, page_addr, build_freelist}
use my_malloc.Classic.Tcmalloc.PageHeap.{Mapping, update_span, alloc_span, alloc_large}
use my_malloc.Classic.Tcmalloc.Central.{remove_range, add_span}
use my_malloc.Classic.Tcmalloc.ThreadCache.{alloc}
use my_malloc.Classic.Tcmalloc.Api.{
  Tcmalloc, local_of, with_local, class_store, with_class, with_heap, tc_init_allocator,
  tc_usable_size, tc_free,
}

-- memset to 0 and memcpy, of n bytes.
abbrev pub memset_zero : (p n : ℕ) → Tcmalloc → Tcmalloc
memset_zero p n s = record s { memory = λ a. if leb p a && ltb a (p + n) then 0 else s.memory a }

abbrev pub memcpy : (dst src n : ℕ) → Tcmalloc → Tcmalloc
memcpy dst src n s = record s {
  memory = λ a. if leb dst a && ltb a (dst + n) then s.memory (src + (a - dst)) else s.memory a;
}

abbrev pub aligned : (alignment : ℕ) → Option ℕ → Option ℕ
aligned alignment none = none
aligned alignment (some p) = some (align_up p alignment)

-- The span gets its class, its chain and its place in the central list.
unfoldable pub prepare_span : (class_idx span : ℕ) → Tcmalloc → Tcmalloc
prepare_span i span s =
    let h =
      update_span span
        (λ (s : Span). build_freelist (class_to_size i) (record s { size_class = i })) s.heap in
    with_class i (add_span span (class_store i (with_heap h s))) s

abbrev pub head : List ℕ → Option ℕ
head [] = none
head (node ∷ nodes) = some node

-- One object of the class from the central list.
unfoldable pub take_one : (class_idx : ℕ) → Tcmalloc → Option (Option ℕ × Tcmalloc)
take_one i s = elim (remove_range 1 (class_store i s)) [
  | none ↦ none
  | some (nodes, c) ↦ some (head nodes, with_class i c s)
]

-- The fill of the block, if there is one.
abbrev pub zeroed : (total : ℕ) → (p : Option ℕ) → Tcmalloc → Option ℕ × Tcmalloc
zeroed total none s = (none, s)
zeroed total (some p) s =
    let usable = tc_usable_size (some p) s in
    (some p, memset_zero p (if ltb usable total then usable else total) s)

abbrev pub filled : (total : ℕ) → Option (Option ℕ × Tcmalloc) → Option (Option ℕ × Tcmalloc)
filled total none = none
filled total (some (p, s)) = some (zeroed total p s)

-- The copy to the new block, if there is one, and the release of the old one.
abbrev pub moved : (thread ptr bytes : ℕ) → (np : Option ℕ) → Tcmalloc → Option ℕ × Tcmalloc
moved thread ptr bytes none s = (none, s)
moved thread ptr bytes (some np) s = (some np, tc_free thread (some ptr) (memcpy np ptr bytes s))

module _ (mmap : List Mapping → (size : ℕ) → Option ℕ) where
  unfoldable pub tc_large_alloc : (size : ℕ) → Tcmalloc → Option ℕ × Tcmalloc
  tc_large_alloc size s = elim (alloc_large mmap size s.heap) [
    | none ↦ (none, s)
    | some (span, h) ↦
        let h1 =
          update_span span (λ (s : Span). record s { size_class = k_num_classes; refcount = 1 })
            h in
        (some (page_addr (h1.spans span).start), with_heap h1 s)
  ]

  unfoldable pub from_heap : (class_idx : ℕ) → Tcmalloc → Option (Option ℕ × Tcmalloc)
  unfolding prepare_span take_one
  from_heap i s = elim (alloc_span mmap (pages_of_class i) s.heap) [
    | none ↦ some (none, s)
    | some (span, h) ↦ take_one i (prepare_span i span (with_heap h s))
  ]

  abbrev pub or_heap : (class_idx : ℕ) → Option ℕ → Tcmalloc → Option (Option ℕ × Tcmalloc)
  or_heap i (some node) s = some (some node, s)
  or_heap i none s = from_heap i s

  unfoldable pub from_central : (class_idx : ℕ) → Tcmalloc → Option (Option ℕ × Tcmalloc)
  from_central i s = elim (take_one i s) [ none ↦ none | some (node, s1) ↦ or_heap i node s1 ]

  abbrev pub or_central : (class_idx : ℕ) → Option ℕ → Tcmalloc → Option (Option ℕ × Tcmalloc)
  or_central i (some p) s = some (some p, s)
  or_central i none s = from_central i s

  unfoldable pub malloc_small : (thread class_idx : ℕ) → Tcmalloc → Option (Option ℕ × Tcmalloc)
  malloc_small thread i s = elim (s.caches thread) [
    | none ↦ some (none, s)
    | some t ↦ elim (alloc i (local_of t s)) [
      | none ↦ none
      | some (p, l) ↦ or_central i p (with_local thread l s)
    ]
  ]

-- With mmap, and whether aligned_alloc gives memory to a thread.
module _ (mmap : List Mapping → (size : ℕ) → Option ℕ) (aligned_alloc : ℕ → Bool) where
  -- `none` where a loop of remove_range does not end.
  unfoldable pub tc_malloc : (thread size : ℕ) → Tcmalloc → Option (Option ℕ × Tcmalloc)
  unfolding tc_large_alloc malloc_small
  tc_malloc thread size s =
      let s1 = tc_init_allocator (aligned_alloc thread) thread s in
      if ltb k_max_size (at_least_one size)
      then some (tc_large_alloc mmap (at_least_one size) s1)
      else malloc_small mmap thread (size_to_class (at_least_one size)) s1

  unfoldable pub tc_calloc : (thread n size : ℕ) → Tcmalloc → Option (Option ℕ × Tcmalloc)
  tc_calloc thread n size s =
      let total = n * size % word in
      if not (n == 0) && not (total / n == size)
      then some (none, s)
      else filled total (tc_malloc thread total s)

  unfoldable pub tc_realloc :
      (thread : ℕ) (ptr : Option ℕ) (size : ℕ) → Tcmalloc → Option (Option ℕ × Tcmalloc)
  tc_realloc thread none size s = tc_malloc thread size s
  tc_realloc thread (some ptr) size s =
      let old_size = tc_usable_size (some ptr) s in
      if size == 0
      then some (none, tc_free thread (some ptr) s)
      else if leb size old_size
      then some (some ptr, s)
      else elim (tc_malloc thread size s) [
        | none ↦ none
        | some (np, s1) ↦
            some (moved thread ptr (if ltb old_size size then old_size else size) np s1)
      ]

  unfoldable pub tc_memalign : (thread alignment size : ℕ) → Tcmalloc → Option (Option ℕ × Tcmalloc)
  unfolding tc_malloc tc_large_alloc
  tc_memalign thread alignment size s =
      let (p, s1) = tc_large_alloc mmap ((size + alignment) % word) s in
      if leb alignment 16
      then tc_malloc thread size s
      else if not (bit_and alignment ((alignment + (word - 1)) % word) == 0)
      then some (none, s)
      else some (aligned alignment p, s1)
