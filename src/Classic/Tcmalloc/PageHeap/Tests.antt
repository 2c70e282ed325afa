-- ===== src/Classic/Tcmalloc/PageHeap/Tests.antt =====
-- A system that maps memory above all that is in force, and spans of a few pages.
use my_malloc.Prelude.{
  ℕ, ◌+◌, ◌*◌, ◌/◌, ◌%◌, ◌^◌, ◌≤◌, ◌≡◌, refl, ◌⊎◌, inl, inr, Option, none, some, some_eq, List, [],
  ◌∷◌, arith, leb, if◌then◌else◌, Bool-cases, sym,
}
use my_malloc.Classic.Tcmalloc.PageHeap.{PageHeap, Mapping, initial_heap, free_span, alloc_span}
use my_malloc.Classic.Tcmalloc.PageHeap.Valid.{IsValid, view}
use my_malloc.Classic.Tcmalloc.PageHeap.Grow.{IsMmap, Fresh}
use my_malloc.Classic.Tcmalloc.PageHeap.Alloc.{OutOfMemory}
use my_malloc.Classic.Tcmalloc.PageHeap.Given.{Given, alloc_span-IsValid, initial_heap-IsValid}
use my_malloc.Classic.Tcmalloc.PageHeap.Dangling.{Dangling}
use my_malloc.Classic.Tcmalloc.PageHeap.FirstSpan.{free_span-alloc_span}

-- The first multiple of 8 KiB above all mappings.
abbrev pub top : List Mapping → ℕ
top [] = 0x100000
top (m ∷ ms) = (m.base + m.size + top ms + 8191) / 8192 * 8192

abbrev pub mmap : List Mapping → (size : ℕ) → Option ℕ
mmap ms size = if leb (top ms + size) (2 ^ 47) then some (top ms) else none

answer : (ms : List Mapping) (n b : ℕ) → mmap ms n ≡ some b → (b ≡ top ms) × (b + n ≤ 2 ^ 47)
answer ms n b e = elim (Bool-cases (leb (top ms + n) (2 ^ 47))) [
  | inl fits ↦
      let same : top ms ≡ b = some_eq (rw fits at e) in
      let le : top ms + n ≤ 2 ^ 47 = ground arith in (sym same, omega (arith, same, le))
  | inr full ↦ absurd (cc (rw full at e))
]

top-paged : (ms : List Mapping) → top ms % 8192 ≡ 0
top-paged [] = refl
top-paged (m ∷ ms) = omega arith

above-Fresh : (ms : List Mapping) (b n : ℕ) → top ms ≤ b → Fresh b n ms
above-Fresh [] b n le = tt
above-Fresh (m ∷ ms) b n le = (inr (omega arith), above-Fresh ms b n (omega arith))

pub mmap-IsMmap : IsMmap mmap
mmap-IsMmap = record {
  paged = λ ms n b e. rw (answer ms n b e).0 (top-paged ms);
  bounded = λ ms n b e. (answer ms n b e).1;
  fresh = λ ms n b e. above-Fresh ms b n (omega (arith, (answer ms n b e).0));
}

alloc_span-IsValid_example :
    ((alloc_span mmap 3 initial_heap ≡ none) × OutOfMemory mmap 3 initial_heap)
    ⊎ ((id : ℕ) × (h' : PageHeap) × (alloc_span mmap 3 initial_heap ≡ some (id, h'))
        × IsValid 0 (view h')
        × Given 3 initial_heap id h')
alloc_span-IsValid_example =
    alloc_span-IsValid mmap 3 initial_heap mmap-IsMmap initial_heap-IsValid (omega arith)

free_span-alloc_span_example :
    (h : PageHeap) × (alloc_span mmap 3 initial_heap ≡ some (1, h)) × Dangling 1 (free_span 1 h)
free_span-alloc_span_example =
    free_span-alloc_span mmap 3 0x100000 (omega arith) (omega arith) refl (omega arith)
      (omega arith)
