-- ===== src/Classic/Tcmalloc/PageHeap.antt =====
-- classic/tcmalloc/page_heap.cpp: spans from the system, split and merged. The Span objects are a map
-- from their numbers; `new` counts them up, and what is deleted keeps its last contents, as in a
-- program that reads it once more.
pub mod Valid
pub mod Take
pub mod Extend
pub mod Grow
pub mod Cut
pub mod Split
pub mod Release
pub mod Cutting
pub mod Alloc
pub mod Given
pub mod Dangling
pub mod FirstSpan
pub mod Tests
use my_malloc.Prelude.{
  put, ℕ, zero, suc, ◌+◌, ◌-◌, ◌*◌, ◌/◌, ◌%◌, ◌^◌, ◌≡◌, Bool, true, false, not, ◌&&◌, Option, none,
  some, List, [], ◌∷◌, ltb, leb, ◌==◌, if◌then◌else◌, word,
}
use my_malloc.Classic.Tcmalloc.SizeClasses.{k_num_classes}
use my_malloc.Classic.Tcmalloc.Span.{
  Span, SpanState, in_use, on_normal_freelist, is_normal, zero_span, k_page_size, k_page_shift,
  page_number, page_addr,
}
use my_malloc.Classic.Tcmalloc.PageMap.{PageMap, empty, get, map_span}

abbrev pub k_max_pages : ℕ
k_max_pages = 256

-- A mapping in force: its address and its size in bytes.
pub record Mapping : Type 0 where
  pub base : ℕ
  pub size : ℕ

pub record PageHeap : Type 0 where
  -- free_, by the number of pages
  pub free : ℕ → ℕ
  pub large_set : ℕ
  pub pagemap : PageMap
  pub system_bytes : ℕ
  pub free_bytes : ℕ
  -- The Span objects, those that were deleted, and the number of the next one.
  pub spans : ℕ → Span
  pub deleted : ℕ → Bool
  pub next_span : ℕ
  pub mapped : List Mapping

abbrev pub initial_heap : PageHeap
initial_heap = record {
  free = λ i. 0;
  large_set = 0;
  pagemap = empty;
  system_bytes = 0;
  free_bytes = 0;
  spans = λ id. zero_span;
  deleted = λ id. false;
  next_span = 1;
  mapped = [];
}

-- A write through a pointer to a Span, and one to a pointer that may be null.
abbrev pub update_span : (id : ℕ) → (Span → Span) → PageHeap → PageHeap
update_span id f h = record h { spans = put h.spans id (f (h.spans id)) }

abbrev pub set_prev : (id prev : ℕ) → PageHeap → PageHeap
set_prev id prev h =
    if id == 0 then h else update_span id (λ (s : Span). record s { prev = prev }) h

abbrev pub set_next : (id next : ℕ) → PageHeap → PageHeap
set_next id next h = update_span id (λ (s : Span). record s { next = next }) h

abbrev pub set_free : (i head : ℕ) → PageHeap → PageHeap
set_free i head h = record h { free = put h.free i head }

-- `new Span()` with the members that are set at once.
abbrev pub new_span : Span → PageHeap → PageHeap
new_span s h = record h { spans = put h.spans h.next_span s; next_span = h.next_span + 1 }

abbrev pub delete_span : (id : ℕ) → PageHeap → PageHeap
delete_span id h = record h { deleted = put h.deleted id true }

-- The scan for the first list that is not empty, from i on with the lists that are left.
unfoldable pub first_free : (i left : ℕ) → PageHeap → Option ℕ
first_free i zero h = none
first_free i (suc left) h = if h.free i == 0 then first_free (i + 1) left h else some i

-- The head of a list is taken off it.
unfoldable pub take_free : (i : ℕ) → PageHeap → PageHeap
take_free i h = let next = (h.spans (h.free i)).next in set_prev next 0 (set_free i next h)

-- The rest of a span that is split goes to the front of its list.
unfoldable pub push_remainder : (id : ℕ) → PageHeap → PageHeap
push_remainder id h =
    let rlen = (h.spans id).length in
    if leb rlen k_max_pages
    then set_free rlen id (set_prev (h.free rlen) id (set_next id (h.free rlen) h))
    else record (set_next id h.large_set h) { large_set = id }

-- The first n pages stay with the span.
unfoldable pub split_span : (id n : ℕ) → PageHeap → PageHeap
unfolding push_remainder
split_span id n h =
    let best = h.spans id in
    let remainder : Span = record zero_span {
      start = best.start + n;
      length = best.length - n;
      state = on_normal_freelist;
      size_class = k_num_classes;
    } in
    if ltb n best.length
    then update_span id (λ (s : Span). record s { length = n })
        (push_remainder h.next_span (new_span remainder h))
    else h

-- The span is handed out.
unfoldable pub claim_span : (id : ℕ) → PageHeap → PageHeap
claim_span id h =
    let best = h.spans id in
    record (update_span id (λ (s : Span). record s { state = in_use; size_class = k_num_classes })
      h) {
        pagemap = map_span id best.start best.length h.pagemap;
        free_bytes = (h.free_bytes + (word - best.length * k_page_size % word)) % word;
      }

-- The new mapping becomes a span.
abbrev pub add_mapping : (n raw : ℕ) → PageHeap → PageHeap
add_mapping n raw h =
    let bytes = n * k_page_size % word in
    let start = page_number raw in
    record (new_span (record zero_span { start = start; length = n }) h) {
      system_bytes = (h.system_bytes + bytes) % word;
      pagemap = map_span h.next_span start n h.pagemap;
      mapped = record { base = raw; size = bytes } ∷ h.mapped;
    }

module _ (mmap : List Mapping → (size : ℕ) → Option ℕ) where
  unfoldable pub grow_heap : (n : ℕ) → PageHeap → Option (ℕ × PageHeap)
  grow_heap n h = elim (mmap h.mapped (n * k_page_size % word)) [
    | none ↦ none
    | some raw ↦ some (h.next_span, add_mapping n raw h)
  ]

  -- The span that is cut: one from a list, or a new one.
  unfoldable pub find_span : (n : ℕ) → PageHeap → Option (ℕ × PageHeap)
  unfolding first_free take_free grow_heap
  find_span n h = elim (first_free n (k_max_pages + 1 - n) h) [
    | some i ↦ some (h.free i, take_free i h)
    | none ↦ grow_heap (if ltb k_max_pages n then n else k_max_pages) h
  ]

  unfoldable pub alloc_span : (n : ℕ) → PageHeap → Option (ℕ × PageHeap)
  unfolding find_span split_span claim_span
  alloc_span n h = elim (find_span n h) [
    | none ↦ none
    | some (best, h1) ↦ some (best, claim_span best (split_span best n h1))
  ]

  unfoldable pub alloc_large : (bytes : ℕ) → PageHeap → Option (ℕ × PageHeap)
  alloc_large bytes h = elim (alloc_span ((bytes + k_page_size - 1) % word / 2 ^ k_page_shift) h) [
    | none ↦ none
    | some (id, h1) ↦
        some (id, update_span id (λ (s : Span). record s { size_class = k_num_classes }) h1)
  ]

-- A neighbour leaves its list, as far as its own links and length say.
unfoldable pub unlink : (id : ℕ) → PageHeap → PageHeap
unlink id h =
    let s = h.spans id in
    let h1 =
      if not (s.prev == 0)
      then set_next s.prev s.next h
      else if leb s.length k_max_pages
      then set_free s.length s.next h
      else h in
    set_prev ((h1.spans id).next) ((h1.spans id).prev) h1

unfoldable pub merge_prev : (id : ℕ) → PageHeap → PageHeap
unfolding unlink
merge_prev id h =
    let s = h.spans id in
    let prev = get (s.start - 1) h.pagemap in
    let p = h.spans prev in
    let h1 = unlink prev h in
    if ltb 0 s.start
      && (not (prev == 0) && (is_normal p.state && (p.start + p.length) % word == s.start))
    then delete_span prev (
        update_span id
          (λ (s : Span). record s { start = p.start; length = (s.length + p.length) % word }) h1)
    else h

-- The span takes the pages of the next one, which is deleted.
unfoldable pub absorb_next : (id next : ℕ) → PageHeap → PageHeap
unfolding unlink
absorb_next id next h =
    let h1 = unlink next h in
    delete_span next (
      update_span id
        (λ (s : Span). record s { length = (s.length + (h1.spans next).length) % word }) h1)

unfoldable pub merge_next : (id : ℕ) → PageHeap → PageHeap
merge_next id h =
    let s = h.spans id in
    let next = get ((s.start + s.length) % word) h.pagemap in
    if not (next == 0) && is_normal (h.spans next).state then absorb_next id next h else h

unfoldable pub coalesce : (id : ℕ) → PageHeap → PageHeap
coalesce id h = merge_next id (merge_prev id h)

-- The span is marked as free.
unfoldable pub retire_span : (id : ℕ) → PageHeap → PageHeap
retire_span id h =
    record (update_span id
      (λ (s : Span). record s { state = on_normal_freelist; size_class = k_num_classes }) h) {
        free_bytes = (h.free_bytes + (h.spans id).length * k_page_size) % word;
      }

-- The merged span goes to the front of its list.
unfoldable pub insert_free : (id : ℕ) → PageHeap → PageHeap
insert_free id h =
    let len = (h.spans id).length in
    let set_links = λ (next : ℕ) (h : PageHeap).
      update_span id (λ (s : Span). record s { next = next; prev = 0 }) h in
    if leb len k_max_pages
    then set_free len id (set_links (h.free len) (set_prev (h.free len) id h))
    else record (set_links h.large_set h) { large_set = id }

unfoldable pub free_span : (id : ℕ) → PageHeap → PageHeap
free_span id h = insert_free id (coalesce id (retire_span id h))

abbrev pub free_large : (id : ℕ) → PageHeap → PageHeap
free_large id h = free_span id h

-- What is left of the mappings where [base, base + size) is unmapped.
pub unmapped : (base size : ℕ) → List Mapping → List Mapping
unmapped base size [] = []
unmapped base size (m ∷ ms) =
    let end = m.base + m.size in
    let before = if ltb m.base base then (if ltb base end then base else end) - m.base else 0 in
    let after_base = if ltb m.base (base + size) then base + size else m.base in
    let rest = unmapped base size ms in
    let right =
      if ltb after_base end
      then record { base = after_base; size = end - after_base } ∷ rest
      else rest in
    if before == 0 then right else record { base = m.base; size = before } ∷ right

unfoldable pub munmap : (base size : ℕ) → PageHeap → PageHeap
unfolding unmapped
munmap base size h = record h { mapped = unmapped base size h.mapped }
