-- ===== src/Classic/Tcmalloc/PageHeap/Given.antt =====
-- What alloc_span of classic/tcmalloc/page_heap.cpp promises of the span that it hands out.
use my_malloc.Prelude.{
  ℕ, ◌+◌, ◌%◌, ◌^◌, ◌<◌, ◌≤◌, ◌≡◌, ◌≢◌, refl, sym, ◌∙◌, ap, inl, inr, ◌⊎◌, true, false, arith,
  Option, none, some, List, ltb, Bool-cases, subst, word,
}
use my_malloc.Classic.Tcmalloc.Span.{Span, in_use, is_normal}
use my_malloc.Classic.Tcmalloc.PageMap.{get}
use my_malloc.Classic.Tcmalloc.PageMap.Lookup.{map_span_pages}
use my_malloc.Classic.Tcmalloc.PageHeap.{
  PageHeap, Mapping, initial_heap, split_span, claim_span, alloc_span,
}
use my_malloc.Classic.Tcmalloc.PageHeap.Valid.{View, view, IsValid, Apart, put_same, put_other}
use my_malloc.Classic.Tcmalloc.PageHeap.Grow.{IsMmap}
use my_malloc.Classic.Tcmalloc.PageHeap.Split.{cut-IsValid}
use my_malloc.Classic.Tcmalloc.PageHeap.Cutting.{split_span-Cut}
use my_malloc.Classic.Tcmalloc.PageHeap.Alloc.{
  Unchanged, view-claim_span, claimed-IsValid, Found, OutOfMemory, find_span-Found,
}

-- A span that was handed out before keeps its pages, and they are not those of `id`.
pub record Kept (h : PageHeap) (id : ℕ) (h' : PageHeap) (x : ℕ) : Type 0 where
  pub other : x ≢ id
  pub unchanged : Unchanged (view h) (view h') x
  pub apart : Apart (h'.spans x).start (h'.spans x).length (h'.spans id).start (h'.spans id).length

-- The span `id` of n pages, handed out in the state h' after h.
pub record Given (n : ℕ) (h : PageHeap) (id : ℕ) (h' : PageHeap) : Type 0 where
  pub pos : 1 ≤ id
  pub length : (h'.spans id).length ≡ n
  pub state : (h'.spans id).state ≡ in_use
  pub was_free : ((id < h.next_span) × (is_normal (h.spans id).state ≡ true)) ⊎ (id ≡ h.next_span)
  pub pages : (k : ℕ) → k < n → get (((h'.spans id).start + k) % word) h'.pagemap ≡ id
  pub others :
      (x : ℕ) → 1 ≤ x → x < h.next_span → is_normal (h.spans x).state ≡ false → Kept h id h' x

-- After the split the span has n pages.
record Trimmed (n : ℕ) (h : PageHeap) (id : ℕ) (h' : PageHeap) : Type 0 where
  valid : IsValid id (view h')
  length : (h'.spans id).length ≡ n
  grows : h.next_span ≤ h'.next_span
  others : (x : ℕ) → x < h.next_span → x ≢ id → Unchanged (view h) (view h') x

split-Trimmed :
    (n id : ℕ) (h : PageHeap)
    → IsValid id (view h)
    → 1 ≤ id
    → id < h.next_span
    → n ≤ (h.spans id).length
    → Trimmed n h id (split_span id n h)
unfolding split_span
split-Trimmed n id h valid pos known long = elim (Bool-cases (ltb n (h.spans id).length)) [
  | inr exact ↦ rw exact record {
    valid = valid;
    length = ground arith;
    grows = omega arith;
    others = λ x k ne. record { start = refl; length = refl; normal = refl };
  }
  | inl more ↦
      let lt : n < (h.spans id).length = ground arith in
      let cut = split_span-Cut h id n lt (λ e. absurd (omega (arith, e, known))) in
      record {
        valid = cut-IsValid (view h) _ id n valid pos known lt cut;
        length = cut.kept_length;
        grows = omega (arith, cut.count);
        others = λ x k ne.
            let s = cut.same x (λ e. absurd (omega (arith, e, k))) ne in
            record { start = s.0; length = s.1.length; normal = s.1.normal };
      }
]

-- A span in use is not the one found.
Found-other :
    (n id x : ℕ) (h h1 : PageHeap)
    → Found n h id h1
    → x < h.next_span
    → is_normal (h.spans x).state ≡ false
    → x ≢ id
Found-other n id x h h1 found k used e = elim found.was_free [
  | inl (lt, normal) ↦ absurd (cc (ap (λ (y : ℕ). is_normal (h.spans y).state) e, normal, used))
  | inr new ↦ absurd (omega (arith, e, new, k))
]

claim-Kept :
    (n id : ℕ) (h h1 h2 : PageHeap)
    → Found n h id h1
    → Trimmed n h1 id h2
    → IsValid 0 (view (claim_span id h2))
    → (x : ℕ) → 1 ≤ x
    → x < h.next_span
    → is_normal (h.spans x).state ≡ false
    → Kept h id (claim_span id h2) x
claim-Kept n id h h1 h2 found trimmed valid x pos k used =
    let claim = view-claim_span id h2 in
    let count = ap (λ (v : View). v.count) claim in
    let ne = Found-other n id x h h1 found k used in
    let first = found.others x k ne in
    let k1 : x < h1.next_span = omega (arith, k, found.grows) in
    let second = trimmed.others x k1 ne in
    record {
      other = ne;
      unchanged = record {
        start = ap (λ (v : View). v.start x) claim ∙ second.start ∙ first.start;
        length = ap (λ (v : View). v.length x) claim ∙ second.length ∙ first.length;
        normal =
            ap (λ (v : View). v.normal x) claim
            ∙ put_other (view h2).normal id x false (λ e. ne (sym e))
            ∙ second.normal
            ∙ first.normal;
      };
      apart =
          valid.apart x id pos found.pos (omega (arith, count, k1, trimmed.grows))
            (omega (arith, count, found.known, trimmed.grows)) ne;
    }

-- The last step hands the span out.
claim-Given :
    (n id : ℕ) (h h1 h2 : PageHeap)
    → n ≤ 2 ^ 19
    → Found n h id h1
    → Trimmed n h1 id h2
    → IsValid 0 (view (claim_span id h2)) × Given n h id (claim_span id h2)
unfolding claim_span
claim-Given n id h h1 h2 few found trimmed =
    let claim = view-claim_span id h2 in
    let valid : IsValid 0 (view (claim_span id h2)) =
      subst (IsValid 0) (sym claim) (claimed-IsValid (view h2) id trimmed.valid) in
    let at = put_same h2.spans id (record (h2.spans id) { state = in_use; size_class = 86 }) in
    (
      valid,
      record {
        pos = found.pos;
        length = ap (λ (s : Span). s.length) at ∙ trimmed.length;
        state = ap (λ (s : Span). s.state) at;
        was_free = found.was_free;
        pages = λ k lt. rw (ap (λ (s : Span). s.start) at) (
            map_span_pages id (h2.spans id).start (h2.spans id).length k h2.pagemap
              (omega (arith, trimmed.length)) (omega (arith, trimmed.length)));
        others = λ x pos k used. claim-Kept n id h h1 h2 found trimmed valid x pos k used;
      },
    )

-- alloc_span on a valid heap, for up to 2^19 pages, either fails with no list that holds a span and no
-- memory from the system; or it returns a span in use of just n pages, which was free or is new, whose
-- pages all lead to it in the page map, and which shares no page with the spans in use before: these
-- keep their pages. The heap is valid afterwards. The system maps multiples of 8 KiB below 2^47.
pub alloc_span-IsValid :
    (mmap : List Mapping → (size : ℕ) → Option ℕ) (n : ℕ) (h : PageHeap)
    → IsMmap mmap
    → IsValid 0 (view h)
    → n ≤ 2 ^ 19
    → ((alloc_span mmap n h ≡ none) × OutOfMemory mmap n h)
      ⊎ ((id : ℕ) × (h' : PageHeap) × (alloc_span mmap n h ≡ some (id, h'))
          × IsValid 0 (view h')
          × Given n h id h')
unfolding alloc_span
alloc_span-IsValid mmap n h system valid few =
    elim (find_span-Found mmap n h system valid (omega arith)) [
      | inl (failed, out) ↦ inl (rw (failed, alloc_span) refl, out)
      | inr (id, h1, e, found) ↦
          let trimmed = split-Trimmed n id h1 found.valid found.pos found.known found.long in
          let (valid', given) = claim-Given n id h h1 (split_span id n h1) few found trimmed in
          inr (id, claim_span id (split_span id n h1), rw (e, alloc_span) refl, valid', given)
    ]

-- A heap without spans is valid.
pub initial_heap-IsValid : IsValid 0 (view initial_heap)
initial_heap-IsValid = record {
  started = omega arith;
  heads = λ i le ne. absurd (ne refl);
  links = λ id l le ne. absurd (ne refl);
  not_head = λ id l le ne. absurd (ne refl);
  one_link = λ a b la lb lea leb ne e. absurd (ne refl);
  apart = λ a b pa pb ka kb ne. absurd (omega (arith, pa, ka));
  inside = λ a pa ka. absurd (omega (arith, pa, ka));
}
