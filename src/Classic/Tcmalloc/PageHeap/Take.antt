-- ===== src/Classic/Tcmalloc/PageHeap/Take.antt =====
-- The head of a list leaves it, in alloc_span of classic/tcmalloc/page_heap.cpp.
use my_malloc.Prelude.{
  put, ℕ, zero, suc, ◌+◌, ◌<◌, ◌≤◌, ◌≡◌, ◌≢◌, sym, ◌∙◌, ap, inl, inr, arith, some, ◌==◌, Bool-cases,
  if_true, if_false, ==_of, eq_of, subst, some_eq,
}
use my_malloc.Classic.Tcmalloc.PageHeap.{PageHeap, first_free, take_free}
use my_malloc.Classic.Tcmalloc.PageHeap.Valid.{View, view, Listed, IsValid, view-set_prev}

-- first_free finds the first list from i on that holds a span.
pub first_free-some :
    (i left j : ℕ) (h : PageHeap)
    → first_free i left h ≡ some j
    → (i ≤ j) × (j < i + left) × (h.free j ≢ 0)
unfolding first_free
first_free-some i zero j h e = absurd (cc e)
first_free-some i (suc left) j h e = elim (Bool-cases (h.free i == 0)) [
  | inl empty ↦
      let rest = first_free-some (i + 1) left j h (rw empty at e) in
      (omega (arith, rest.0), omega (arith, rest.1), rest.2)
  | inr found ↦
      let same : i ≡ j = some_eq (rw found at e) in
      (
        omega (arith, same),
        omega (arith, same),
        λ z. absurd (cc (==_of z, found, ap (λ (k : ℕ). h.free k == 0) same)),
      )
]

module _ (v : View) (i : ℕ) (valid : IsValid 0 v) (small : i ≤ 256) (full : v.free i ≢ 0) where
  abbrev without : View
  without = record v { free = put v.free i (v.next (v.free i)) }

  head_listed : Listed 0 (v.free i) v
  head_listed = (valid.heads i small full).0

  head_length : v.length (v.free i) ≡ i
  head_length = (valid.heads i small full).1

  before : (id : ℕ) → Listed (v.free i) id without → Listed 0 id v
  before id l = record {
    pos = l.pos;
    known = l.known;
    normal = l.normal;
    loose = λ z. absurd (omega (arith, l.pos, z));
  }

  after : (id : ℕ) → Listed 0 id v → id ≢ v.free i → Listed (v.free i) id without
  after id l ne = record { pos = l.pos; known = l.known; normal = l.normal; loose = ne }

  -- What a link leads to is not the head.
  not_taken : (id : ℕ) → Listed 0 id v → v.length id ≤ 256 → v.next id ≢ 0 → v.next id ≢ v.free i
  not_taken id l le ne e =
      let same : v.length id ≡ i = sym (valid.links id l le ne).1 ∙ ap v.length e ∙ head_length in
      valid.not_head id l le ne (e ∙ ap v.free (sym same))

  head_le : v.length (v.free i) ≤ 256
  head_le = omega (arith, head_length)

  heads_after :
      (j : ℕ)
      → j ≤ 256
      → put v.free i (v.next (v.free i)) j ≢ 0
      → Listed (v.free i) (put v.free i (v.next (v.free i)) j) without
        × (v.length (put v.free i (v.next (v.free i)) j) ≡ j)
  heads_after j le ne = elim (Bool-cases (i == j)) [
    | inl e ↦
        let ne' : v.next (v.free i) ≢ 0 = rw e at ne in
        let link = valid.links (v.free i) head_listed head_le ne' in
        rw e (
          after _ link.0 (not_taken (v.free i) head_listed head_le ne'),
          link.1 ∙ head_length ∙ eq_of e,
        )
    | inr e ↦
        let ne' : v.free j ≢ 0 = rw e at ne in
        let head = valid.heads j le ne' in
        rw e (
          after _ head.0
              (λ same. absurd (cc (e, ==_of (sym head_length ∙ ap v.length (sym same) ∙ head.1)))),
          head.1,
        )
  ]

  not_head_after :
      (id : ℕ)
      → Listed (v.free i) id without
      → v.length id ≤ 256
      → v.next id ≢ 0
      → v.next id ≢ put v.free i (v.next (v.free i)) (v.length id)
  not_head_after id l le ne e = elim (Bool-cases (i == v.length id)) [
    | inl at ↦
        l.loose (
          valid.one_link id (v.free i) (before id l) head_listed le head_le ne (e ∙ if_true _ _ at))
    | inr at ↦ valid.not_head id (before id l) le ne (e ∙ if_false _ _ at)
  ]

  without-IsValid : IsValid (v.free i) without
  without-IsValid = record {
    started = valid.started;
    heads = heads_after;
    links = λ id l le ne.
        let link = valid.links id (before id l) le ne in
        (after _ link.0 (not_taken id (before id l) le ne), link.1);
    not_head = not_head_after;
    one_link = λ a b la lb. valid.one_link a b (before a la) (before b lb);
    apart = valid.apart;
    inside = valid.inside;
  }

-- The list loses its head, and nothing else changes.
pub take_free-IsValid :
    (h : PageHeap) (i : ℕ)
    → IsValid 0 (view h)
    → i ≤ 256
    → h.free i ≢ 0
    → IsValid (h.free i) (view (take_free i h))
unfolding take_free
take_free-IsValid h i valid small full =
    subst (IsValid (h.free i)) (sym (view-set_prev _ 0 _))
      (without-IsValid (view h) i valid small full)
