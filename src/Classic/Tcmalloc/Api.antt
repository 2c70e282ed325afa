-- ===== src/Classic/Tcmalloc/Api.antt =====
-- classic/tcmalloc/tcmalloc.cpp: the calls of the allocator, over the thread caches, the central lists
-- and the page heap. A pointer is an address, and `none` is the null pointer. The bytes of the blocks
-- are a map from addresses; the links of free objects stand in the chains and not in it.
pub mod Malloc
pub mod Owners
pub mod OneCache
pub mod Large
pub mod Huge
pub mod Calloc
mod Tests
use my_malloc.Prelude.{
  put, ℕ, zero, suc, ◌+◌, ◌-◌, ◌*◌, ◌/◌, ◌%◌, ◌^◌, ◌≡◌, Bool, true, false, not, ◌&&◌, Option, none,
  some, List, [], ◌∷◌, ltb, leb, ◌==◌, if◌then◌else◌, word,
}
use my_malloc.Classic.Tcmalloc.SizeClasses.{
  k_num_classes, k_max_size, at_least_one, size_to_class, class_to_size, pages_of_class,
}
use my_malloc.Classic.Tcmalloc.PageMap.{get}
use my_malloc.Classic.Tcmalloc.Span.{Span, k_page_size, page_number, page_addr, build_freelist}
use my_malloc.Classic.Tcmalloc.PageHeap.{
  PageHeap, Mapping, initial_heap, update_span, delete_span, alloc_span, alloc_large, free_span,
  munmap,
}
use my_malloc.Classic.Tcmalloc.Central.{
  CentralFreeList, Store, initial_central, remove_range, insert_range, add_span, drop_reference,
}
use my_malloc.Classic.Tcmalloc.ThreadCache.{ThreadCache, Local, new_cache, alloc, free}

pub record Tcmalloc : Type 0 where
  -- tc_once, and tc_thread_cache of each thread.
  pub once : Bool
  pub caches : ℕ → Option ThreadCache
  pub central : ℕ → CentralFreeList
  pub heap : PageHeap
  pub memory : ℕ → ℕ

abbrev pub initial_state : (memory : ℕ → ℕ) → Tcmalloc
initial_state memory = record {
  once = false;
  caches = λ thread. none;
  central = λ i. initial_central;
  heap = initial_heap;
  memory = memory;
}

-- What a call of a thread's cache works on, and its result put back.
abbrev pub local_of : ThreadCache → Tcmalloc → Local
local_of t s = record { cache = t; central = s.central; heap = s.heap }

abbrev pub with_local : (thread : ℕ) → Local → Tcmalloc → Tcmalloc
with_local thread l s = record s {
  caches = put s.caches thread (some l.cache);
  central = l.central;
  heap = l.heap;
}

abbrev pub class_store : (class_idx : ℕ) → Tcmalloc → Store
class_store i s = record { central = s.central i; heap = s.heap }

abbrev pub with_class : (class_idx : ℕ) → Store → Tcmalloc → Tcmalloc
with_class i c s = record s { central = put s.central i c.central; heap = c.heap }

abbrev pub with_heap : PageHeap → Tcmalloc → Tcmalloc
with_heap h s = record s { heap = h }

-- Whether the thread gets the memory of its cache, by aligned_alloc.
abbrev pub created : Bool → Option ThreadCache
created true = some new_cache
created false = none

abbrev pub cached : Option ThreadCache → Bool → Option ThreadCache
cached (some t) memory = some t
cached none memory = created memory

unfoldable pub tc_init : (aligned_alloc : Bool) (thread : ℕ) → Tcmalloc → Tcmalloc
tc_init aligned_alloc thread s = record s {
  caches = put s.caches thread (cached (s.caches thread) aligned_alloc);
}

-- pthread_once runs tc_init in the first call of the process.
unfoldable pub tc_init_allocator : (aligned_alloc : Bool) (thread : ℕ) → Tcmalloc → Tcmalloc
unfolding tc_init
tc_init_allocator aligned_alloc thread s =
    if s.once then s else record (tc_init aligned_alloc thread s) { once = true }

-- The span behind an address, or 0.
abbrev pub span_of : (ptr : ℕ) → Tcmalloc → ℕ
span_of ptr s = get (page_number ptr) s.heap.pagemap

-- The bytes of a span.
abbrev pub span_bytes : (span : ℕ) → Tcmalloc → ℕ
span_bytes span s = (s.heap.spans span).length * k_page_size % word

unfoldable pub tc_large_free : (ptr : ℕ) → Tcmalloc → Tcmalloc
tc_large_free ptr s =
    let span = span_of ptr s in
    let map_size = span_bytes span s in
    let h = munmap (page_addr (s.heap.spans span).start) map_size s.heap in
    let h1 = record h { system_bytes = (h.system_bytes + (word - map_size)) % word } in
    if span == 0 then s else with_heap (delete_span span h1) s

unfoldable pub tc_large_usable : (ptr : ℕ) → Tcmalloc → ℕ
tc_large_usable ptr s = if span_of ptr s == 0 then 0 else span_bytes (span_of ptr s) s

unfoldable pub tc_usable_size : (ptr : Option ℕ) → Tcmalloc → ℕ
unfolding tc_large_usable
tc_usable_size none s = 0
tc_usable_size (some ptr) s =
    let class_idx = (s.heap.spans (span_of ptr s)).size_class in
    if span_of ptr s == 0
    then 0
    else if leb k_num_classes class_idx
    then tc_large_usable ptr s
    else class_to_size class_idx

-- The reference that tc_free drops once more, and the span that nothing refers to.
unfoldable pub release_reference : (span class_idx : ℕ) → Tcmalloc → Tcmalloc
release_reference span class_idx s =
    let c = drop_reference span (class_store class_idx s) in
    with_heap (if (c.heap.spans span).refcount == 0 then free_span span c.heap else c.heap) s

unfoldable pub free_to_central : (ptr span class_idx : ℕ) → Tcmalloc → Tcmalloc
unfolding release_reference
free_to_central ptr span class_idx s =
    release_reference span class_idx
      (with_class class_idx (insert_range (ptr ∷ []) (class_store class_idx s)) s)

-- A small object goes to the thread's cache, if it takes it.
unfoldable pub free_small : (thread ptr span class_idx : ℕ) → Tcmalloc → Tcmalloc
unfolding free_to_central
free_small thread ptr span class_idx s = elim (s.caches thread) [
  | none ↦ free_to_central ptr span class_idx s
  | some t ↦
      let (taken, l) = free class_idx ptr (local_of t s) in
      let s1 = with_local thread l s in if taken then s1 else free_to_central ptr span class_idx s1
]

unfoldable pub tc_free : (thread : ℕ) (ptr : Option ℕ) → Tcmalloc → Tcmalloc
unfolding tc_large_free free_small
tc_free thread none s = s
tc_free thread (some ptr) s =
    let span = span_of ptr s in
    let class_idx = (s.heap.spans span).size_class in
    if span == 0
    then s
    else if leb k_num_classes class_idx
    then tc_large_free ptr s
    else free_small thread ptr span class_idx s
