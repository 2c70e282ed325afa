-- ===== src/Classic/Tcmalloc/Api/Huge.antt =====
-- Sizes near 2^64 in classic/tcmalloc/tcmalloc.cpp.
use my_malloc.Prelude.{
  ℕ, ◌+◌, ◌<◌, ◌≡◌, sym, ◌∙◌, ap, ◌⊎◌, inl, inr, Bool, arith, Option, none, some, List, subst, word,
}
use my_malloc.Classic.Tcmalloc.Span.{page_addr}
use my_malloc.Classic.Tcmalloc.PageHeap.{Mapping}
use my_malloc.Classic.Tcmalloc.PageHeap.Valid.{View, view, IsValid}
use my_malloc.Classic.Tcmalloc.PageHeap.Grow.{IsMmap}
use my_malloc.Classic.Tcmalloc.PageHeap.Alloc.{OutOfMemory}
use my_malloc.Classic.Tcmalloc.Api.{Tcmalloc, with_heap, tc_init_allocator}
use my_malloc.Classic.Tcmalloc.Api.Malloc.{tc_malloc}
use my_malloc.Classic.Tcmalloc.Api.Large.{
  pages_for, marked, view-marked, init_heap, init-IsValid, GivesSpan, tc_large_alloc-GivesSpan,
  tc_malloc-tc_large_alloc,
}

-- tc_malloc of a size in the last 8191 bytes below 2^64, on a valid heap and with a system as above:
-- the number of pages wraps around to 0. It returns null only where no list holds a span and the system
-- has no memory; else it returns the address of a span without a page, instead of null.
pub tc_malloc-huge :
    (mmap : List Mapping → (size : ℕ) → Option ℕ) (aligned_alloc : ℕ → Bool) (thread size : ℕ)
    (s : Tcmalloc)
    → IsMmap mmap
    → IsValid 0 (view s.heap)
    → word < size + 8192
    → size < word
    → ((tc_malloc mmap aligned_alloc thread size s
          ≡ some (none, tc_init_allocator (aligned_alloc thread) thread s))
        × OutOfMemory mmap 0 s.heap)
      ⊎ ((id : ℕ) × (s' : Tcmalloc) × (tc_malloc mmap aligned_alloc thread size s
            ≡ some (some (page_addr (s'.heap.spans id).start), s'))
          × ((s'.heap.spans id).length ≡ 0))
unfolding GivesSpan
tc_malloc-huge mmap aligned_alloc thread size s system valid huge small =
    let s1 = tc_init_allocator (aligned_alloc thread) thread s in
    let heap = init_heap (aligned_alloc thread) thread s in
    let call = tc_malloc-tc_large_alloc mmap aligned_alloc thread size s (omega arith) in
    let valid1 = init-IsValid (aligned_alloc thread) thread s valid in
    let none_wanted : pages_for size ≡ 0 = omega arith in
    elim (tc_large_alloc-GivesSpan mmap size s1 system valid1 (omega (arith, none_wanted))) [
      | inl (failed, out) ↦ inl (
        call ∙ ap some failed,
        subst (λ (n : ℕ). OutOfMemory mmap n s.heap) none_wanted
            (subst (OutOfMemory mmap (pages_for size)) heap out),
      )
      | inr (id, h', e, valid', given) ↦
          let same = view-marked id h' in
          let start = ap (λ (v : View). v.start id) same in
          inr (
            id,
            with_heap (marked id h') s1,
            call
                ∙ ap some e
                ∙ ap (λ (x : ℕ). some (some (page_addr x), with_heap (marked id h') s1))
                    (sym start),
            ap (λ (v : View). v.length id) same ∙ given.length ∙ none_wanted,
          )
    ]
