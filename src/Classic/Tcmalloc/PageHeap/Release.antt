-- ===== src/Classic/Tcmalloc/PageHeap/Release.antt =====
-- release_to_os of classic/tcmalloc/page_heap.cpp.
use my_malloc.Prelude.{
  ℕ, zero, suc, ◌+◌, ◌-◌, ◌*◌, ◌/◌, ◌%◌, true, false, not, Option, none, some, leb, ◌==◌,
  if◌then◌else◌, word,
}
use my_malloc.Classic.Tcmalloc.Span.{k_page_size, page_addr}
use my_malloc.Classic.Tcmalloc.PageHeap.{
  PageHeap, k_max_pages, set_prev, set_next, set_free, delete_span, munmap,
}

-- A span of the list i is unmapped and deleted.
release_span : (i id : ℕ) → PageHeap → PageHeap
unfolding munmap
release_span i id h =
    let s = h.spans id in
    let h1 = if not (s.prev == 0) then set_next s.prev s.next h else set_free i s.next h in
    let h2 = set_prev ((h1.spans id).next) ((h1.spans id).prev) h1 in
    let sz = s.length * k_page_size % word in
    delete_span id (record (munmap (page_addr s.start) sz h2) {
      system_bytes = (h2.system_bytes + (word - sz)) % word;
      free_bytes = (h2.free_bytes + (word - sz)) % word;
    })

-- The walk along a list; `none` where the rounds do not lead to its end.
release_list : (rounds i id : ℕ) → PageHeap → Option PageHeap
unfolding release_span
release_list zero i id h = none
release_list (suc rounds) i id h = elim (id == 0) [
  | true ↦ some h
  | false ↦
      release_list rounds i ((h.spans id).next)
        (if leb (k_max_pages / 2) (h.spans id).length then release_span i id h else h)
]

-- The lists from i on, with the lists that are left.
release_lists : (i left : ℕ) → PageHeap → Option PageHeap
unfolding release_list
release_lists i zero h = some h
release_lists i (suc left) h = elim (release_list h.next_span i (h.free i) h) [
  | none ↦ none
  | some h1 ↦ release_lists (i + 1) left h1
]

unfoldable pub release_to_os : PageHeap → Option PageHeap
unfolding release_lists
release_to_os h = release_lists (k_max_pages / 2) (k_max_pages / 2 + 1) h
