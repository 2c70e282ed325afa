-- ===== src/Classic/Tcmalloc/PageHeap/Valid.antt =====
-- What holds of the page heap of classic/tcmalloc/page_heap.cpp between calls of alloc_span, or inside
-- one, where a span `held` has left its list. It is said of a view without the links back.
use my_malloc.Prelude.{
  put, ℕ, ◌+◌, ◌/◌, ◌<◌, ◌≤◌, ◌≡◌, ◌≢◌, refl, ◌∙◌, ap, inl, inr, ◌⊎◌, Bool, true, false, List, [],
  ◌∷◌, ◌==◌, if◌then◌else◌, Bool-cases, if_true, if_false, ==_of, ne_of, eq_of, fun_ext,
}
use my_malloc.Classic.Tcmalloc.Span.{Span, is_normal}
use my_malloc.Classic.Tcmalloc.PageHeap.{PageHeap, Mapping, set_prev}

-- The lists and the objects, without what alloc_span does not depend on.
pub record View : Type 0 where
  pub free : ℕ → ℕ
  pub count : ℕ
  pub start : ℕ → ℕ
  pub length : ℕ → ℕ
  pub next : ℕ → ℕ
  pub normal : ℕ → Bool
  pub mapped : List Mapping

abbrev pub view : PageHeap → View
view h = record {
  free = h.free;
  count = h.next_span;
  start = λ id. (h.spans id).start;
  length = λ id. (h.spans id).length;
  next = λ id. (h.spans id).next;
  normal = λ id. is_normal (h.spans id).state;
  mapped = h.mapped;
}

-- A span that a list may hold: one of the objects, free, and not `held`.
pub record Listed (held id : ℕ) (v : View) : Type 0 where
  pub pos : 1 ≤ id
  pub known : id < v.count
  pub normal : v.normal id ≡ true
  pub loose : id ≢ held

-- The pages of a span lie in one of the mappings.
abbrev pub Inside : (start length : ℕ) → List Mapping → Type 0
Inside start length [] = ⊥
Inside start length (m ∷ ms) =
    ((m.base / 8192 ≤ start) × (start + length ≤ (m.base + m.size) / 8192)) ⊎ Inside start length ms

-- The pages of two spans.
abbrev pub Apart : (start length start' length' : ℕ) → Type 0
Apart start length start' length' = (start + length ≤ start') ⊎ (start' + length' ≤ start)

pub record IsValid (held : ℕ) (v : View) : Type 0 where
  pub started : 1 ≤ v.count
  -- The head of a list is free and has the list's length.
  pub heads :
      (i : ℕ) → i ≤ 256 → v.free i ≢ 0 → Listed held (v.free i) v × (v.length (v.free i) ≡ i)
  -- So does what a link leads to.
  pub links :
      (id : ℕ)
      → Listed held id v
      → v.length id ≤ 256
      → v.next id ≢ 0
      → Listed held (v.next id) v × (v.length (v.next id) ≡ v.length id)
  -- No link leads to a head, and no two to one span.
  pub not_head :
      (id : ℕ)
      → Listed held id v
      → v.length id ≤ 256
      → v.next id ≢ 0
      → v.next id ≢ v.free (v.length id)
  pub one_link :
      (a b : ℕ)
      → Listed held a v
      → Listed held b v
      → v.length a ≤ 256
      → v.length b ≤ 256
      → v.next a ≢ 0
      → v.next a ≡ v.next b
      → a ≡ b
  -- No page belongs to two spans, and each span to a mapping.
  pub apart :
      (a b : ℕ)
      → 1 ≤ a
      → 1 ≤ b
      → a < v.count
      → b < v.count
      → a ≢ b
      → Apart (v.start a) (v.length a) (v.start b) (v.length b)
  pub inside : (a : ℕ) → 1 ≤ a → a < v.count → Inside (v.start a) (v.length a) v.mapped

pub put_same {ℓ} : {A : Type ℓ} (f : ℕ → A) (i : ℕ) (a : A) → put f i a i ≡ a
put_same f i a = if_true a (f i) (==_of refl)

pub put_other {ℓ} : {A : Type ℓ} (f : ℕ → A) (i j : ℕ) (a : A) → i ≢ j → put f i a j ≡ f j
put_other f i j a h = if_false a (f j) (ne_of h)

-- A member of what a map was changed to.
pub map_put {ℓ κ} :
    {A : Type ℓ} {B : Type κ} (g : A → B) (f : ℕ → A) (i : ℕ) (a : A)
    → ◌≡◌ {A = ℕ → B} (λ x. g (put f i a x)) (put (λ x. g (f x)) i (g a))
map_put g f i a = fun_ext λ x. member (i == x) x
  where
    member : (b : Bool) (x : ℕ) → g (if b then a else f x) ≡ (if b then g a else g (f x))
    member true x = refl
    member false x = refl

-- A member that a write leaves alone.
pub put_keeps {ℓ κ} :
    {A : Type ℓ} {B : Type κ} (g : A → B) (f : ℕ → A) (i : ℕ) (a : A)
    → g a ≡ g (f i)
    → ◌≡◌ {A = ℕ → B} (λ x. g (put f i a x)) (λ x. g (f x))
put_keeps g f i a keeps = fun_ext λ x. elim (Bool-cases (i == x)) [
  | inl same ↦ rw same (keeps ∙ ap (λ (y : ℕ). g (f y)) (eq_of same))
  | inr other ↦ rw other refl
]

-- The links back do not show in the view.
pub view-set_prev : (id p : ℕ) (h : PageHeap) → view (set_prev id p h) ≡ view h
view-set_prev id p h = elim (Bool-cases (id == 0)) [
  | inl null ↦ rw null refl
  | inr object ↦
      let s : Span = record (h.spans id) { prev = p } in
      rw object (λ i. record {
        free = h.free;
        count = h.next_span;
        start = put_keeps (λ (s : Span). s.start) h.spans id s refl i;
        length = put_keeps (λ (s : Span). s.length) h.spans id s refl i;
        next = put_keeps (λ (s : Span). s.next) h.spans id s refl i;
        normal = put_keeps (λ (s : Span). is_normal s.state) h.spans id s refl i;
        mapped = h.mapped;
      })
]

-- One object is written.
abbrev pub write_view : (id start length next : ℕ) → (normal : Bool) → View → View
write_view id start length next normal v = record v {
  start = put v.start id start;
  length = put v.length id length;
  next = put v.next id next;
  normal = put v.normal id normal;
}

pub view-put :
    (id : ℕ) (s : Span) (h : PageHeap)
    → view (record h { spans = put h.spans id s })
      ≡ write_view id s.start s.length s.next (is_normal s.state) (view h)
view-put id s h = λ i. record {
  free = h.free;
  count = h.next_span;
  start = map_put (λ (s : Span). s.start) h.spans id s i;
  length = map_put (λ (s : Span). s.length) h.spans id s i;
  next = map_put (λ (s : Span). s.next) h.spans id s i;
  normal = map_put (λ (s : Span). is_normal s.state) h.spans id s i;
  mapped = h.mapped;
}
