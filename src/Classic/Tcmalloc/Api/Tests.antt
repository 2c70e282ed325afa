-- ===== src/Classic/Tcmalloc/Api/Tests.antt =====
-- One thread after another, on a system that maps memory above all that is in force.
use my_malloc.Prelude.{ℕ, ◌-◌, ◌*◌, ◌<◌, ◌≤◌, ◌≡◌, refl, true, Option, none, some, ◌⊎◌, arith, word}
use my_malloc.Classic.Tcmalloc.Span.{page_addr}
use my_malloc.Classic.Tcmalloc.PageHeap.{
  initial_heap, alloc_span, alloc_large, find_span, first_free, grow_heap,
}
use my_malloc.Classic.Tcmalloc.PageHeap.Alloc.{OutOfMemory}
use my_malloc.Classic.Tcmalloc.PageHeap.Given.{initial_heap-IsValid}
use my_malloc.Classic.Tcmalloc.PageHeap.Tests.{mmap, mmap-IsMmap}
use my_malloc.Classic.Tcmalloc.Api.{Tcmalloc, initial_state, tc_init, tc_init_allocator}
use my_malloc.Classic.Tcmalloc.Api.Calloc.{Filled, tc_calloc_overflow}
use my_malloc.Classic.Tcmalloc.Api.Malloc.{tc_calloc, tc_malloc, tc_large_alloc}
use my_malloc.Classic.Tcmalloc.Api.Owners.{has}
use my_malloc.Classic.Tcmalloc.Api.OneCache.{start, later, malloc, tc_malloc-other}
use my_malloc.Classic.Tcmalloc.Api.Huge.{tc_malloc-huge}

abbrev first_state : Tcmalloc
first_state = initial_state (λ address. 0)

abbrev result_of : Option (Option ℕ × Tcmalloc) → Option ℕ × Tcmalloc
result_of none = (none, first_state)
result_of (some r) = r

-- The first call, by thread 1.
abbrev first_call : Option (Option ℕ × Tcmalloc)
first_call = tc_malloc mmap (λ thread. true) 1 300000 first_state

first_step : first_call ≡ some ((result_of first_call).0, (result_of first_call).1)
unfolding tc_malloc tc_init_allocator
first_step = refl

first_owner : has ((result_of first_call).1.caches 1) ≡ true
unfolding tc_malloc tc_init_allocator tc_init tc_large_alloc alloc_large alloc_span find_span
    first_free grow_heap
first_owner = refl

tc_malloc-other_example :
    tc_malloc mmap (λ thread. true) 2 100 (result_of first_call).1
    ≡ some (none, (result_of first_call).1)
tc_malloc-other_example =
    tc_malloc-other mmap (λ thread. true) (λ address. 0) (result_of first_call).1 1 2 100
      (later start (malloc 1 300000 (result_of first_call).0 first_step)) first_owner (omega arith)
      (omega arith)

tc_malloc-huge_example :
    ((tc_malloc mmap (λ thread. true) 1 (word - 1) first_state
        ≡ some (none, tc_init_allocator true 1 first_state))
      × OutOfMemory mmap 0 initial_heap)
    ⊎ ((id : ℕ) × (s' : Tcmalloc) × (tc_malloc mmap (λ thread. true) 1 (word - 1) first_state
          ≡ some (some (page_addr (s'.heap.spans id).start), s'))
        × ((s'.heap.spans id).length ≡ 0))
tc_malloc-huge_example =
    tc_malloc-huge mmap (λ thread. true) 1 (word - 1) first_state mmap-IsMmap initial_heap-IsValid
      (omega arith) (omega arith)

tc_calloc_overflow_example :
    ((3 * 100000 < word)
      × Filled
          (3 * 100000)
          (tc_malloc mmap (λ thread. true) 1 (3 * 100000) first_state)
          (tc_calloc mmap (λ thread. true) 1 3 100000 first_state))
    ⊎ ((word ≤ 3 * 100000)
        × (tc_calloc mmap (λ thread. true) 1 3 100000 first_state ≡ some (none, first_state)))
tc_calloc_overflow_example = tc_calloc_overflow mmap (λ thread. true) 1 3 100000 first_state
