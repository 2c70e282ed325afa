-- ===== src/Classic/Tcmalloc/PageHeap/Grow.antt =====
-- A span from the system, in grow_heap of classic/tcmalloc/page_heap.cpp.
use my_malloc.Prelude.{
  put, ℕ, ◌+◌, ◌*◌, ◌/◌, ◌%◌, ◌^◌, ◌<◌, ◌≤◌, ◌≡◌, ◌≢◌, refl, sym, ◌∙◌, ap, inl, inr, ◌⊎◌, false,
  arith, Option, none, some, List, [], ◌∷◌, ◌==◌, Bool-cases, eq_of, subst, Option-cases, word,
}
use my_malloc.Classic.Tcmalloc.Span.{Span, is_normal, zero_span}
use my_malloc.Classic.Tcmalloc.PageHeap.{PageHeap, Mapping, grow_heap, add_mapping}
use my_malloc.Classic.Tcmalloc.PageHeap.Extend.{
  below_of_ne, Same, link_old, not_head_old, one_link_old, head_old,
}
use my_malloc.Classic.Tcmalloc.PageHeap.Valid.{
  View, view, Listed, IsValid, Inside, Apart, put_other, map_put, write_view,
}

-- A new mapping shares no byte with those in force.
abbrev pub Fresh : (base size : ℕ) → List Mapping → Type 0
Fresh base size [] = Unit {0}
Fresh base size (m ∷ ms) = ((base + size ≤ m.base) ⊎ (m.base + m.size ≤ base)) × Fresh base size ms

-- mmap on a system whose pages have 8 KiB or a multiple of it: it returns the start of such a page, below
-- 2^47, and no byte of a mapping that is in force.
pub record IsMmap (mmap : List Mapping → (size : ℕ) → Option ℕ) : Type 0 where
  pub paged : (ms : List Mapping) (n b : ℕ) → mmap ms n ≡ some b → b % 8192 ≡ 0
  pub bounded : (ms : List Mapping) (n b : ℕ) → mmap ms n ≡ some b → b + n ≤ 2 ^ 47
  pub fresh : (ms : List Mapping) (n b : ℕ) → mmap ms n ≡ some b → Fresh b n ms

-- A span inside the mappings has no page in a new one.
Inside-Apart :
    (start length base pages : ℕ) (ms : List Mapping)
    → base % 8192 ≡ 0
    → Fresh base (pages * 8192) ms
    → Inside start length ms
    → Apart start length (base / 8192) pages
Inside-Apart start length base pages [] paged fresh inside = absurd inside
Inside-Apart start length base pages (m ∷ ms) paged fresh inside = elim inside [
  | inr later ↦ Inside-Apart start length base pages ms paged fresh.1 later
  | inl here ↦ elim fresh.0 [
    | inl below ↦ inr (omega (arith, here.0, below, paged))
    | inr above ↦ inl (omega (arith, here.1, above, paged))
  ]
]

same-Inside :
    (ms : List Mapping) {s s' l l' : ℕ} → s' ≡ s → l' ≡ l → Inside s l ms → Inside s' l' ms
same-Inside ms es el inside = rw (es, el) inside

swap_sum : {A B : Type 0} → A ⊎ B → B ⊎ A
swap_sum (inl a) = inr a
swap_sum (inr b) = inl b

abbrev new_object : (n raw : ℕ) → Span
new_object n raw = record zero_span { start = raw / 8192; length = n }

module _ (v : View) (valid : IsValid 0 v) (base pages : ℕ) (paged : base % 8192 ≡ 0)
    (fresh : Fresh base (pages * 8192) v.mapped) where
  abbrev grown : View
  grown = record (write_view v.count (base / 8192) pages 0 false v) {
    count = v.count + 1;
    mapped = record { base = base; size = pages * 8192 } ∷ v.mapped;
  }

  -- The objects from before are those that are not the new one.
  old_same : {A : Type 0} (f : ℕ → A) (x : ℕ) (a : A) → x < v.count → put f v.count a x ≡ f x
  old_same f x a k = put_other f v.count x a (λ e. absurd (omega (arith, e, k)))

  before : (id : ℕ) → Listed v.count id grown → Listed 0 id v
  before id l =
      let old : id < v.count = below_of_ne l.known l.loose in
      record {
        pos = l.pos;
        known = old;
        normal = sym (old_same v.normal id false old) ∙ l.normal;
        loose = λ z. absurd (omega (arith, l.pos, z));
      }

  after : (id : ℕ) → Listed 0 id v → Listed v.count id grown
  after id l = record {
    pos = l.pos;
    known = omega (arith, l.known);
    normal = old_same v.normal id false l.known ∙ l.normal;
    loose = λ e. absurd (omega (arith, e, l.known));
  }

  same : (id : ℕ) → Listed 0 id v → Same v grown id
  same id l = record {
    length = old_same v.length id pages l.known;
    next = old_same v.next id 0 l.known;
    normal = old_same v.normal id false l.known;
  }

  old-Apart : (a : ℕ) → 1 ≤ a → a < v.count → Apart (v.start a) (v.length a) (base / 8192) pages
  old-Apart a pa ka =
      Inside-Apart (v.start a) (v.length a) base pages v.mapped paged fresh (valid.inside a pa ka)

  Apart-after :
      (a b : ℕ)
      → 1 ≤ a
      → 1 ≤ b
      → a < v.count + 1
      → b < v.count + 1
      → a ≢ b
      → Apart (grown.start a) (grown.length a) (grown.start b) (grown.length b)
  Apart-after a b pa pb ka kb ne = elim (Bool-cases (v.count == a)) [
    | inl new_a ↦
        let kb' : b < v.count = below_of_ne kb (λ e. ne (sym (eq_of new_a) ∙ sym e)) in
        rw (new_a, old_same v.start b (base / 8192) kb', old_same v.length b pages kb')
          (swap_sum (old-Apart b pb kb'))
    | inr old_a ↦
        let ka' : a < v.count = ground arith in
        elim (Bool-cases (v.count == b)) [
          | inl new_b ↦
              rw (old_same v.start a (base / 8192) ka', old_same v.length a pages ka', new_b)
                (old-Apart a pa ka')
          | inr old_b ↦ rw (old_a, old_b) (valid.apart a b pa pb ka' (ground arith) ne)
        ]
  ]

  Inside-after :
      (a : ℕ) → 1 ≤ a → a < v.count + 1 → Inside (grown.start a) (grown.length a) grown.mapped
  Inside-after a pa ka = elim (Bool-cases (v.count == a)) [
    | inl new_a ↦ rw new_a (inl (omega arith, omega (arith, paged)))
    | inr old_a ↦
        let ka' : a < v.count = ground arith in
        inr (
          same-Inside v.mapped (old_same v.start a (base / 8192) ka')
            (old_same v.length a pages ka') (valid.inside a pa ka'))
  ]

  pub grown-IsValid : IsValid v.count grown
  grown-IsValid = record {
    started = omega arith;
    heads = head_old v grown 0 v.count valid same after;
    links = λ id l. link_old v grown 0 v.count valid same after id (before id l);
    not_head = λ id l. not_head_old v grown 0 v.count valid same after id (before id l);
    one_link = λ a b la lb le leb ne e.
        one_link_old v grown 0 v.count valid same after a (before a la) le ne b (before b lb) leb e;
    apart = Apart-after;
    inside = Inside-after;
  }

view-add_mapping :
    (n raw : ℕ) (h : PageHeap)
    → n * 8192 % word ≡ n * 8192
    → (valid : IsValid 0 (view h)) (paged : raw % 8192 ≡ 0) (fresh : Fresh raw (n * 8192) h.mapped)
    → view (add_mapping n raw h) ≡ grown (view h) valid raw n paged fresh
view-add_mapping n raw h bytes valid paged fresh = λ i. record {
  free = h.free;
  count = h.next_span + 1;
  start = map_put (λ (s : Span). s.start) h.spans h.next_span (new_object n raw) i;
  length = map_put (λ (s : Span). s.length) h.spans h.next_span (new_object n raw) i;
  next = map_put (λ (s : Span). s.next) h.spans h.next_span (new_object n raw) i;
  normal = map_put (λ (s : Span). is_normal s.state) h.spans h.next_span (new_object n raw) i;
  mapped = record { base = raw; size = bytes i } ∷ h.mapped;
}

-- What grow_heap returns: nothing where the system has no memory, and otherwise a new span of n pages.
pub grow_heap-IsValid :
    (mmap : List Mapping → (size : ℕ) → Option ℕ) (n : ℕ) (h : PageHeap)
    → IsMmap mmap
    → IsValid 0 (view h)
    → n < 2 ^ 51
    → ((grow_heap mmap n h ≡ none) × (mmap h.mapped (n * 8192) ≡ none))
      ⊎ ((raw : ℕ) × (grow_heap mmap n h ≡ some (h.next_span, add_mapping n raw h))
          × IsValid h.next_span (view (add_mapping n raw h)))
unfolding grow_heap
grow_heap-IsValid mmap n h system valid small =
    let bytes : n * 8192 % word ≡ n * 8192 = omega arith in
    elim (Option-cases (mmap h.mapped (n * 8192))) [
      | inl e ↦
          let answer : mmap h.mapped (n * 8192 % word) ≡ none = ap (mmap h.mapped) bytes ∙ e in
          inl (rw (answer, grow_heap) refl, e)
      | inr (b, e) ↦
          let answer : mmap h.mapped (n * 8192 % word) ≡ some b = ap (mmap h.mapped) bytes ∙ e in
          let paged = system.paged h.mapped (n * 8192) b e in
          let fresh = system.fresh h.mapped (n * 8192) b e in
          inr (
            b,
            rw (answer, grow_heap) refl,
            subst (IsValid h.next_span) (sym (view-add_mapping n b h bytes valid paged fresh))
                (grown-IsValid (view h) valid b n paged fresh),
          )
    ]
