-- ===== src/Classic/Tcmalloc/PageHeap/FirstSpan.antt =====
-- The first span that alloc_span of classic/tcmalloc/page_heap.cpp cuts, given back to free_span.
use my_malloc.Prelude.{
  ℕ, zero, suc, ◌+◌, ◌-◌, ◌*◌, ◌/◌, ◌%◌, ◌^◌, ◌<◌, ◌≤◌, ◌≡◌, refl, ◌∙◌, true, false, arith, Option,
  none, some, List, [], ltb, leb, word,
}
use my_malloc.Classic.Tcmalloc.PageMap.{PageMap, get, map_span, empty}
use my_malloc.Classic.Tcmalloc.PageMap.Lookup.{get-map_span, map_span_pages}
use my_malloc.Classic.Tcmalloc.PageHeap.{
  PageHeap, Mapping, initial_heap, first_free, add_mapping, grow_heap, find_span, split_span,
  push_remainder, claim_span, free_span, alloc_span,
}
use my_malloc.Classic.Tcmalloc.PageHeap.Dangling.{Dangling, free_span_deleted}

no_list : (i left : ℕ) → first_free i left initial_heap ≡ none
unfolding first_free
no_list i zero = refl
no_list i (suc left) = no_list (i + 1) left

module _ (mmap : List Mapping → (size : ℕ) → Option ℕ) (n raw : ℕ) (some_pages : 1 ≤ n)
    (few : n < 256) (answer : mmap [] (256 * 8192) ≡ some raw) (low : 8192 ≤ raw)
    (high : raw < 2 ^ 47) where
  first_found : find_span mmap n initial_heap ≡ some (1, add_mapping 256 raw initial_heap)
  unfolding find_span grow_heap
  first_found =
      let small : ltb 256 n ≡ false = ground arith in
      rw (no_list n (257 - n), find_span, small) (rw (answer, grow_heap) refl)

  abbrev cut_state : PageHeap
  cut_state = split_span 1 n (add_mapping 256 raw initial_heap)

  cut_first :
      ((cut_state.spans 1).start ≡ raw / 8192)
      × ((cut_state.spans 1).length ≡ n)
      × (cut_state.pagemap ≡ map_span 1 (raw / 8192) 256 empty)
  unfolding split_span push_remainder
  cut_first =
      let longer : ltb n 256 ≡ true = ground arith in
      let short : leb (256 - n) 256 ≡ true = ground arith in
      (rw longer (rw (short, push_remainder) refl), rw longer refl, rw (longer, short) refl)

  -- What the page map says next to the pages that were handed out.
  abbrev final_map : PageMap
  final_map = map_span 1 (raw / 8192) n (map_span 1 (raw / 8192) 256 empty)

  after_first : get ((raw / 8192 + n) % word) final_map ≡ 1
  after_first =
      (get-map_span 1 (raw / 8192) n 0 ((raw / 8192 + n) % word) (map_span 1 (raw / 8192) 256 empty)
        (omega arith) some_pages (λ j lt e. absurd (omega (arith, e)))).1
      ∙ map_span_pages 1 (raw / 8192) 256 n empty (omega arith) few

  before_first : get (raw / 8192 - 1) final_map ≡ 0
  unfolding get
  before_first =
      (get-map_span 1 (raw / 8192) n 0 (raw / 8192 - 1) (map_span 1 (raw / 8192) 256 empty)
        (omega arith) some_pages (λ j lt e. absurd (omega (arith, e)))).1
      ∙ (get-map_span 1 (raw / 8192) 256 0 (raw / 8192 - 1) empty (omega arith) (omega arith)
          (λ j lt e. absurd (omega (arith, e)))).1

  -- The first span from a new heap, of 1 to 255 pages, where the system maps 256 pages at an address
  -- from 8 KiB on and below 2^47: free_span finds the span itself as its own right neighbour, deletes
  -- it, and leaves it in a free list.
  pub free_span-alloc_span :
      (h : PageHeap) × (alloc_span mmap n initial_heap ≡ some (1, h)) × Dangling 1 (free_span 1 h)
  unfolding alloc_span claim_span
  free_span-alloc_span =
      let (start, length, map) = cut_first in
      let h = claim_span 1 cut_state in
      (
        h,
        rw (first_found, alloc_span) refl,
        free_span_deleted 1 h (omega arith) (rw (start, length, map) after_first)
            (rw (start, length, map) before_first),
      )
