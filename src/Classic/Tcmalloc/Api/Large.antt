-- ===== src/Classic/Tcmalloc/Api/Large.antt =====
-- Blocks of more than 256 KiB of classic/tcmalloc/tcmalloc.cpp: they are spans of their own.
use my_malloc.Prelude.{
  ℕ, ◌+◌, ◌-◌, ◌/◌, ◌%◌, ◌^◌, ◌<◌, ◌≤◌, ◌≡◌, refl, sym, ◌∙◌, ap, ◌⊎◌, inl, inr, Bool, true, false,
  arith, Option, none, some, List, ltb, Bool-cases, if_true, if_false, subst, word,
}
use my_malloc.Classic.Tcmalloc.SizeClasses.{k_max_size, at_least_one}
use my_malloc.Classic.Tcmalloc.Span.{Span, is_normal, page_addr}
use my_malloc.Classic.Tcmalloc.PageHeap.{PageHeap, Mapping, update_span, alloc_large}
use my_malloc.Classic.Tcmalloc.PageHeap.Valid.{View, view, IsValid, Apart, put_keeps}
use my_malloc.Classic.Tcmalloc.PageHeap.Grow.{IsMmap}
use my_malloc.Classic.Tcmalloc.PageHeap.Alloc.{Unchanged, OutOfMemory}
use my_malloc.Classic.Tcmalloc.PageHeap.Given.{Given, alloc_span-IsValid}
use my_malloc.Classic.Tcmalloc.Api.{
  Tcmalloc, with_heap, span_of, tc_init, tc_init_allocator, tc_usable_size,
}
use my_malloc.Classic.Tcmalloc.Api.Malloc.{tc_large_alloc, tc_malloc}

-- A write to members that the view does not show.
view-update_span :
    (id : ℕ) (f : Span → Span) (h : PageHeap)
    → ((s : Span) → (f s).start ≡ s.start)
    → ((s : Span) → (f s).length ≡ s.length)
    → ((s : Span) → (f s).next ≡ s.next)
    → ((s : Span) → is_normal (f s).state ≡ is_normal s.state)
    → view (update_span id f h) ≡ view h
view-update_span id f h start length next normal i = record {
  free = h.free;
  count = h.next_span;
  start = put_keeps (λ (s : Span). s.start) h.spans id (f (h.spans id)) (start (h.spans id)) i;
  length = put_keeps (λ (s : Span). s.length) h.spans id (f (h.spans id)) (length (h.spans id)) i;
  next = put_keeps (λ (s : Span). s.next) h.spans id (f (h.spans id)) (next (h.spans id)) i;
  normal =
      put_keeps (λ (s : Span). is_normal s.state) h.spans id (f (h.spans id)) (normal (h.spans id))
        i;
  mapped = h.mapped;
}

-- The span of a large block.
abbrev pub marked : (id : ℕ) → PageHeap → PageHeap
marked id h =
    update_span id (λ (s : Span). record s { size_class = 86; refcount = 1 })
      (update_span id (λ (s : Span). record s { size_class = 86 }) h)

pub view-marked : (id : ℕ) (h : PageHeap) → view (marked id h) ≡ view h
view-marked id h =
    let h1 = update_span id (λ (s : Span). record s { size_class = 86 }) h in
    view-update_span id (λ (s : Span). record s { size_class = 86; refcount = 1 }) h1 (λ s. refl)
      (λ s. refl) (λ s. refl) (λ s. refl)
    ∙ view-update_span id (λ (s : Span). record s { size_class = 86 }) h (λ s. refl) (λ s. refl)
        (λ s. refl) (λ s. refl)

abbrev pub pages_for : ℕ → ℕ
pages_for size = (size + 8192 - 1) % word / 2 ^ 13

-- The span x keeps its pages, and none of them is a page of the span id.
abbrev pub Spared : (id x : ℕ) → (v v' : View) → Type 0
Spared id x v v' = Unchanged v v' x × Apart (v'.start x) (v'.length x) (v'.start id) (v'.length id)

-- A block at p: the page map leads to its span, and it shares no page with the spans that were in use.
pub record IsBlock (size p : ℕ) (h : PageHeap) (s' : Tcmalloc) : Type 0 where
  pub usable : size ≤ tc_usable_size (some p) s'
  pub valid : IsValid 0 (view s'.heap)
  pub others :
      (x : ℕ)
      → 1 ≤ x
      → x < h.next_span
      → is_normal (h.spans x).state ≡ false
      → Spared (span_of p s') x (view h) (view s'.heap)

pub init_heap :
    (memory : Bool) (thread : ℕ) (s : Tcmalloc) → (tc_init_allocator memory thread s).heap ≡ s.heap
unfolding tc_init_allocator tc_init
init_heap memory thread s = elim (Bool-cases s.once) [
  | inl done ↦ ap (λ (s : Tcmalloc). s.heap) (if_true s _ done)
  | inr first ↦ ap (λ (s : Tcmalloc). s.heap) (if_false s _ first)
]

-- What a large allocation makes of a span that alloc_span hands out.
unfoldable pub GivesSpan : (List Mapping → (size : ℕ) → Option ℕ) → (size : ℕ) → Tcmalloc → Type 0
GivesSpan mmap size s =
    ((tc_large_alloc mmap size s ≡ (none, s)) × OutOfMemory mmap (pages_for size) s.heap)
    ⊎ ((id : ℕ) × (h' : PageHeap) × (tc_large_alloc mmap size s
          ≡ (some (page_addr (h'.spans id).start), with_heap (marked id h') s))
        × IsValid 0 (view h')
        × Given (pages_for size) s.heap id h')

pub tc_large_alloc-GivesSpan :
    (mmap : List Mapping → (size : ℕ) → Option ℕ) (size : ℕ) (s : Tcmalloc)
    → IsMmap mmap
    → IsValid 0 (view s.heap)
    → pages_for size ≤ 2 ^ 19
    → GivesSpan mmap size s
unfolding tc_large_alloc alloc_large GivesSpan
tc_large_alloc-GivesSpan mmap size s system valid few =
    elim (alloc_span-IsValid mmap (pages_for size) s.heap system valid few) [
      | inl (failed, out) ↦
          let none_left : alloc_large mmap size s.heap ≡ none = rw (failed, alloc_large) refl in
          inl (rw (none_left, tc_large_alloc) refl, out)
      | inr (id, h', e, valid', given) ↦
          let start = ap (λ (v : View). v.start id) (view-marked id h') in
          let found : alloc_large mmap size s.heap
              ≡ some (id, update_span id (λ (s : Span). record s { size_class = 86 }) h') =
            rw (e, alloc_large) refl in
          inr (
            id,
            h',
            rw (found, tc_large_alloc)
                (ap (λ (x : ℕ). (some (page_addr x), with_heap (marked id h') s)) start),
            valid',
            given,
          )
    ]

-- tc_malloc is that allocation where the size is large.
pub tc_malloc-tc_large_alloc :
    (mmap : List Mapping → (size : ℕ) → Option ℕ) (aligned_alloc : ℕ → Bool) (thread size : ℕ)
    (s : Tcmalloc)
    → k_max_size < size
    → tc_malloc mmap aligned_alloc thread size s
      ≡ some (tc_large_alloc mmap size (tc_init_allocator (aligned_alloc thread) thread s))
unfolding tc_malloc
tc_malloc-tc_large_alloc mmap aligned_alloc thread size s large =
    let least : at_least_one size ≡ size = ground arith in
    let over : ltb k_max_size size ≡ true = ground arith in rw (least, over) refl

pub init-IsValid :
    (memory : Bool) (thread : ℕ) (s : Tcmalloc)
    → IsValid 0 (view s.heap)
    → IsValid 0 (view (tc_init_allocator memory thread s).heap)
init-IsValid memory thread s valid =
    subst (λ (h : PageHeap). IsValid 0 (view h)) (sym (init_heap memory thread s)) valid
