-- ===== src/Classic/Tcmalloc/PageHeap/Dangling.antt =====
-- free_span of classic/tcmalloc/page_heap.cpp merges a span with itself.
use my_malloc.Prelude.{
  put, ℕ, ◌+◌, ◌-◌, ◌%◌, ◌≡◌, ◌≢◌, refl, sym, ◌∙◌, ap, inl, inr, ◌⊎◌, Bool, true, false, not, ◌&&◌,
  leb, ◌==◌, Bool-cases, if_true, if_false, ==_of, ne_of, subst, word,
}
use my_malloc.Classic.Tcmalloc.Span.{Span, on_normal_freelist, is_normal}
use my_malloc.Classic.Tcmalloc.PageMap.{get}
use my_malloc.Classic.Tcmalloc.PageHeap.{
  PageHeap, set_prev, unlink, merge_prev, absorb_next, merge_next, coalesce, retire_span,
  insert_free, free_span,
}
use my_malloc.Classic.Tcmalloc.PageHeap.Valid.{View, view-set_prev, put_same}

-- A list holds the span, although the object was deleted.
pub record Dangling (id : ℕ) (h : PageHeap) : Type 0 where
  pub deleted : h.deleted id ≡ true
  pub listed : (h.free (h.spans id).length ≡ id) ⊎ (h.large_set ≡ id)

not_null : (a c : Bool) (g : ℕ) → g ≡ 0 → (a && (not (g == 0) && c)) ≡ false
not_null true c g e = rw (==_of e) refl
not_null false c g e = refl

object : (g id : ℕ) (c : Bool) → g ≡ id → id ≢ 0 → c ≡ true → (not (g == 0) && c) ≡ true
object g id c e ne t = rw (e, ne_of ne) t

merge_prev_none :
    (id : ℕ) (h : PageHeap) → get ((h.spans id).start - 1) h.pagemap ≡ 0 → merge_prev id h ≡ h
unfolding merge_prev
merge_prev_none id h before = if_false _ _ (not_null _ _ _ before)

merge_next_self :
    (id : ℕ) (h : PageHeap)
    → id ≢ 0
    → get (((h.spans id).start + (h.spans id).length) % word) h.pagemap ≡ id
    → is_normal (h.spans id).state ≡ true
    → merge_next id h ≡ absorb_next id id h
unfolding merge_next
merge_next_self id h ne after normal =
    if_true _ _
      (object _ id _ after ne (ap (λ (x : ℕ). is_normal (h.spans x).state) after ∙ normal))
    ∙ ap (λ (x : ℕ). absorb_next id x h) after

absorb_next-deleted : (id : ℕ) (h : PageHeap) → (absorb_next id id h).deleted id ≡ true
unfolding absorb_next
absorb_next-deleted id h = put_same (unlink id h).deleted id true

set_prev-deleted : (id p : ℕ) (h : PageHeap) → (set_prev id p h).deleted ≡ h.deleted
set_prev-deleted id p h = elim (Bool-cases (id == 0)) [ inl e ↦ rw e refl | inr e ↦ rw e refl ]

insert_free-deleted : (id : ℕ) (h : PageHeap) → (insert_free id h).deleted ≡ h.deleted
unfolding insert_free
insert_free-deleted id h = elim (Bool-cases (leb (h.spans id).length 256)) [
  | inl e ↦ ap (λ (g : PageHeap). g.deleted) (if_true _ _ e) ∙ set_prev-deleted _ id h
  | inr e ↦ ap (λ (g : PageHeap). g.deleted) (if_false _ _ e)
]

abbrev AtHead : (id : ℕ) (h : PageHeap) → Type 0
AtHead id h = (h.free (h.spans id).length ≡ id) ⊎ (h.large_set ≡ id)

at_head :
    (id : ℕ) (h : PageHeap)
    → (let len = (h.spans id).length in
        let g = set_prev (h.free len) id h in
        let s : Span = record (g.spans id) { next = h.free len; prev = 0 } in
        put g.free len id ((put g.spans id s id).length) ≡ id)
at_head id h =
    let len = (h.spans id).length in
    let g = set_prev (h.free len) id h in
    let s : Span = record (g.spans id) { next = h.free len; prev = 0 } in
    let same : (put g.spans id s id).length ≡ len =
      ap (λ (s : Span). s.length) (put_same g.spans id s)
      ∙ ap (λ (v : View). v.length id) (view-set_prev (h.free len) id h) in
    ap (put g.free len id) same ∙ put_same g.free len id

insert_free-listed : (id : ℕ) (h : PageHeap) → AtHead id (insert_free id h)
unfolding insert_free
insert_free-listed id h = elim (Bool-cases (leb (h.spans id).length 256)) [
  | inl e ↦ subst (AtHead id) (sym (if_true _ _ e)) (inl (at_head id h))
  | inr e ↦ subst (AtHead id) (sym (if_false _ _ e)) (inr refl)
]

pub free_span_deleted :
    (id : ℕ) (h : PageHeap)
    → id ≢ 0
    → get (((h.spans id).start + (h.spans id).length) % word) h.pagemap ≡ id
    → get ((h.spans id).start - 1) h.pagemap ≡ 0
    → Dangling id (free_span id h)
unfolding free_span coalesce retire_span
free_span_deleted id h ne after before =
    let s : Span = record (h.spans id) { state = on_normal_freelist; size_class = 86 } in
    let h0 = retire_span id h in
    let at : h0.spans id ≡ s = put_same h.spans id s in
    let alone =
      merge_prev_none id h0 (ap (λ (s : Span). get (s.start - 1) h.pagemap) at ∙ before) in
    let merged =
      ap (merge_next id) alone
      ∙ merge_next_self id h0 ne
          (ap (λ (s : Span). get ((s.start + s.length) % word) h.pagemap) at ∙ after)
          (ap (λ (s : Span). is_normal s.state) at) in
    let h1 = merge_next id (merge_prev id h0) in
    record {
      deleted =
          ap (λ (f : ℕ → Bool). f id) (insert_free-deleted id h1)
          ∙ ap (λ (g : PageHeap). g.deleted id) merged
          ∙ absorb_next-deleted id h0;
      listed = insert_free-listed id h1;
    }
