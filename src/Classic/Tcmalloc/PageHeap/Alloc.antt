-- ===== src/Classic/Tcmalloc/PageHeap/Alloc.antt =====
-- alloc_span of classic/tcmalloc/page_heap.cpp hands out spans that share no page.
use my_malloc.Prelude.{
  put, ℕ, ◌-◌, ◌*◌, ◌^◌, ◌<◌, ◌≤◌, ◌≡◌, ◌≢◌, refl, sym, ◌∙◌, ap, fun_ext, inl, inr, ◌⊎◌, true,
  false, arith, Option, none, some, List, ltb, ◌==◌, if◌then◌else◌, Bool-cases, Option-cases, eq_of,
}
use my_malloc.Classic.Tcmalloc.Span.{Span, is_normal}
use my_malloc.Classic.Tcmalloc.PageHeap.{
  PageHeap, Mapping, take_free, first_free, add_mapping, claim_span, find_span,
}
use my_malloc.Classic.Tcmalloc.PageHeap.Valid.{
  View, view, Listed, IsValid, put_same, put_other, view-put, view-set_prev,
}
use my_malloc.Classic.Tcmalloc.PageHeap.Extend.{
  Same, link_old, not_head_old, one_link_old, head_old,
}
use my_malloc.Classic.Tcmalloc.PageHeap.Take.{first_free-some, take_free-IsValid}
use my_malloc.Classic.Tcmalloc.PageHeap.Grow.{IsMmap, grow_heap-IsValid}

-- An object that keeps its pages and whether it is free.
pub record Unchanged (v v' : View) (id : ℕ) : Type 0 where
  pub start : v'.start id ≡ v.start id
  pub length : v'.length id ≡ v.length id
  pub normal : v'.normal id ≡ v.normal id

put_self {ℓ} : {A : Type ℓ} (f : ℕ → A) (i : ℕ) → put f i (f i) ≡ f
put_self f i = fun_ext λ x. elim (Bool-cases (i == x)) [
  | inl same ↦ rw same (ap f (eq_of same))
  | inr other ↦ rw other refl
]

abbrev pub claimed : (id : ℕ) → View → View
claimed id v = record v { normal = put v.normal id false }

pub view-claim_span : (id : ℕ) (h : PageHeap) → view (claim_span id h) ≡ claimed id (view h)
unfolding claim_span
view-claim_span id h = view-put id _ h ∙ (λ i. record (view h) {
  start = put_self (view h).start id i;
  length = put_self (view h).length id i;
  next = put_self (view h).next id i;
  normal = put (view h).normal id false;
})

module _ (v : View) (held : ℕ) (valid : IsValid held v) where
  after : (id : ℕ) → Listed held id v → Listed 0 id (claimed held v)
  after id l = record {
    pos = l.pos;
    known = l.known;
    normal = put_other v.normal held id false (λ e. l.loose (sym e)) ∙ l.normal;
    loose = λ z. absurd (omega (arith, l.pos, z));
  }

  before : (id : ℕ) → Listed 0 id (claimed held v) → Listed held id v
  before id l =
      let ne : held ≢ id = λ e. absurd (cc (put_same v.normal held false, e, l.normal)) in
      record {
        pos = l.pos;
        known = l.known;
        normal = sym (put_other v.normal held id false ne) ∙ l.normal;
        loose = λ e. ne (sym e);
      }

  same : (id : ℕ) → Listed held id v → Same v (claimed held v) id
  same id l = record {
    length = refl;
    next = refl;
    normal = put_other v.normal held id false (λ e. l.loose (sym e));
  }

  pub claimed-IsValid : IsValid 0 (claimed held v)
  claimed-IsValid = record {
    started = valid.started;
    heads = head_old v (claimed held v) held 0 valid same after;
    links = λ id l. link_old v (claimed held v) held 0 valid same after id (before id l);
    not_head = λ id l. not_head_old v (claimed held v) held 0 valid same after id (before id l);
    one_link = λ a b la lb lea leb ne e.
        one_link_old v (claimed held v) held 0 valid same after a (before a la) lea ne b
          (before b lb) leb e;
    apart = valid.apart;
    inside = valid.inside;
  }

-- What find_span returns: a span of n pages or more, which was free or is new.
pub record Found (n : ℕ) (h : PageHeap) (id : ℕ) (h' : PageHeap) : Type 0 where
  pub valid : IsValid id (view h')
  pub pos : 1 ≤ id
  pub known : id < h'.next_span
  pub long : n ≤ (h'.spans id).length
  pub grows : h.next_span ≤ h'.next_span
  pub was_free : ((id < h.next_span) × (is_normal (h.spans id).state ≡ true)) ⊎ (id ≡ h.next_span)
  pub others : (x : ℕ) → x < h.next_span → x ≢ id → Unchanged (view h) (view h') x

take-Found :
    (n i : ℕ) (h : PageHeap)
    → IsValid 0 (view h)
    → n ≤ i
    → i ≤ 256
    → h.free i ≢ 0
    → Found n h (h.free i) (take_free i h)
unfolding take_free
take-Found n i h valid le small full =
    let head = valid.heads i small full in
    let same : view (take_free i h)
        ≡ view (record h { free = put h.free i (h.spans (h.free i)).next }) =
      view-set_prev _ 0 _ in
    record {
      valid = take_free-IsValid h i valid small full;
      pos = head.0.pos;
      known = rw (ap (λ (v : View). v.count) same) head.0.known;
      long = rw (ap (λ (v : View). v.length (h.free i)) same, head.1) le;
      grows = rw (ap (λ (v : View). v.count) same) (omega arith);
      was_free = inl (head.0.known, head.0.normal);
      others = λ x k ne. record {
        start = ap (λ (v : View). v.start x) same;
        length = ap (λ (v : View). v.length x) same;
        normal = ap (λ (v : View). v.normal x) same;
      };
    }

grow-Found :
    (n m raw : ℕ) (h : PageHeap)
    → 1 ≤ h.next_span
    → n ≤ m
    → IsValid h.next_span (view (add_mapping m raw h))
    → Found n h h.next_span (add_mapping m raw h)
grow-Found n m raw h started le valid = record {
  valid = valid;
  pos = started;
  known = omega arith;
  long = rw (put_same h.spans h.next_span _) le;
  grows = omega arith;
  was_free = inr refl;
  others = λ x k ne.
      let old = put_other h.spans h.next_span x _ (λ e. ne (sym e)) in
      record {
        start = ap (λ (s : Span). s.start) old;
        length = ap (λ (s : Span). s.length) old;
        normal = ap (λ (s : Span). is_normal s.state) old;
      };
}

-- No list from n pages on holds a span, and the system has no memory.
abbrev pub OutOfMemory : (List Mapping → (size : ℕ) → Option ℕ) → (n : ℕ) → PageHeap → Type 0
OutOfMemory mmap n h =
    (first_free n (257 - n) h ≡ none)
    × (mmap h.mapped ((if ltb 256 n then n else 256) * 8192) ≡ none)

pub find_span-Found :
    (mmap : List Mapping → (size : ℕ) → Option ℕ) (n : ℕ) (h : PageHeap)
    → IsMmap mmap
    → IsValid 0 (view h)
    → n < 2 ^ 51
    → ((find_span mmap n h ≡ none) × OutOfMemory mmap n h)
      ⊎ ((id : ℕ) × (h' : PageHeap) × (find_span mmap n h ≡ some (id, h')) × Found n h id h')
unfolding find_span
find_span-Found mmap n h system valid small = elim (Option-cases (first_free n (257 - n) h)) [
  | inr (i, e) ↦
      let (le, lt, full) = first_free-some n (257 - n) i h e in
      inr (
        h.free i,
        take_free i h,
        rw (e, find_span) refl,
        take-Found n i h valid le (omega (arith, le, lt)) full,
      )
  | inl e ↦
      let m : ℕ = if ltb 256 n then n else 256 in
      elim (grow_heap-IsValid mmap m h system valid (ground arith)) [
        | inl (failed, none_left) ↦ inl (rw (e, find_span) failed, (e, none_left))
        | inr (raw, grown, valid') ↦ inr (
          h.next_span,
          add_mapping m raw h,
          rw (e, find_span) grown,
          grow-Found n m raw h valid.started (ground arith) valid',
        )
      ]
]
