-- ===== src/Classic/Tcmalloc/Central/Chain.antt =====
-- The spans on a list of classic/tcmalloc/central_freelist.cpp, as their links lead from one to another.
use my_malloc.Prelude.{
  ℕ, zero, suc, ◌-◌, ◌≡◌, ◌≢◌, refl, ap, inl, inr, arith, List, [], ◌∷◌, ◌++◌, length, take, drop,
  ◌==◌, Bool-cases, ne_of,
}
use my_malloc.Classic.Tcmalloc.Span.{Span}
use my_malloc.Classic.Tcmalloc.PageHeap.{PageHeap, set_prev}
use my_malloc.Classic.Tcmalloc.PageHeap.Valid.{put_same, put_other, put_keeps}
use my_malloc.Classic.Tcmalloc.Central.{pull}

abbrev pub Absent : ℕ → List ℕ → Type 0
Absent x [] = Unit {0}
Absent x (y ∷ ys) = (x ≢ y) × Absent x ys

-- From the pointer p on: the objects of a list, no object twice.
abbrev pub Chain : PageHeap → (p : ℕ) → List ℕ → Type 0
Chain h p [] = p ≡ 0
Chain h p (x ∷ xs) = (p ≡ x) × (x ≢ 0) × Absent x xs × Chain h ((h.spans x).next) xs

-- All free nodes of the spans.
abbrev pub all_nodes : PageHeap → List ℕ → List ℕ
all_nodes h [] = []
all_nodes h (x ∷ xs) = (h.spans x).freelist ++ all_nodes h xs

-- Nothing changes but the span and the links back.
pub record SameOutside (span : ℕ) (h h' : PageHeap) : Type 0 where
  pub next : (y : ℕ) → span ≢ y → (h'.spans y).next ≡ (h.spans y).next
  pub nodes : (y : ℕ) → span ≢ y → (h'.spans y).freelist ≡ (h.spans y).freelist

pub set_prev_member {ℓ} :
    {B : Type ℓ} (g : Span → B) (a b y : ℕ) (h : PageHeap)
    → ((s : Span) → g (record s { prev = b }) ≡ g s)
    → g ((set_prev a b h).spans y) ≡ g (h.spans y)
set_prev_member g a b y h keeps = elim (Bool-cases (a == 0)) [
  | inl null ↦ rw null refl
  | inr object ↦
      rw object (λ i. put_keeps g h.spans a (record (h.spans a) { prev = b }) (keeps _) i y)
]

pub set_prev_other : (a b y : ℕ) (h : PageHeap) → a ≢ y → (set_prev a b h).spans y ≡ h.spans y
set_prev_other a b y h ne = elim (Bool-cases (a == 0)) [
  | inl null ↦ rw null refl
  | inr object ↦ rw object (put_other h.spans a y _ ne)
]

pub set_prev_self : (a b : ℕ) (h : PageHeap) → a ≢ 0 → ((set_prev a b h).spans a).prev ≡ b
set_prev_self a b h ne = rw (ne_of ne) (ap (λ (s : Span). s.prev) (put_same h.spans a _))

pub Chain-outside :
    (span p : ℕ) (h h' : PageHeap) (xs : List ℕ)
    → SameOutside span h h'
    → Absent span xs
    → Chain h p xs
    → Chain h' p xs
Chain-outside span p h h' [] same out chain = chain
Chain-outside span p h h' (x ∷ xs) same (ne, out) (at, pos, fresh, rest) =
    (at, pos, fresh, rw (same.next x ne) (Chain-outside span _ h h' xs same out rest))

pub all_nodes-outside :
    (span : ℕ) (h h' : PageHeap) (xs : List ℕ)
    → SameOutside span h h'
    → Absent span xs
    → all_nodes h' xs ≡ all_nodes h xs
all_nodes-outside span h h' [] same out = refl
all_nodes-outside span h h' (x ∷ xs) same (ne, out) =
    rw (same.nodes x ne, all_nodes-outside span h h' xs same out) refl

pub pull_lem : (n : ℕ) (nodes : List ℕ) → pull n nodes ≡ (take n nodes, drop n nodes)
unfolding pull
pull_lem zero nodes = refl
pull_lem (suc n) [] = refl
pull_lem (suc n) (node ∷ nodes) = rw (pull_lem n nodes) refl

-- A number of nodes from a front that has fewer, and from one that has more.
pub take-append_short :
    (n : ℕ) (xs ys : List ℕ)
    → drop n xs ≡ []
    → (take n (xs ++ ys) ≡ take n xs ++ take (n - length (take n xs)) ys)
      × (drop n (xs ++ ys) ≡ drop (n - length (take n xs)) ys)
take-append_short zero [] ys e = (refl, refl)
take-append_short zero (x ∷ xs) ys e = absurd (cc e)
take-append_short (suc n) [] ys e =
    let whole : suc n - 0 ≡ suc n = omega arith in rw whole (refl, refl)
take-append_short (suc n) (x ∷ xs) ys e =
    let rest = take-append_short n xs ys e in
    let less : suc n - suc (length (take n xs)) ≡ n - length (take n xs) = omega arith in
    rw less (ap (λ (zs : List ℕ). x ∷ zs) rest.0, rest.1)

pub take-append_long :
    (n : ℕ) (xs ys zs : List ℕ) (z : ℕ)
    → drop n xs ≡ z ∷ zs
    → (take n (xs ++ ys) ≡ take n xs) × (drop n (xs ++ ys) ≡ (z ∷ zs) ++ ys)
take-append_long zero xs ys zs z e = (refl, rw e refl)
take-append_long (suc n) [] ys zs z e = absurd (cc e)
take-append_long (suc n) (x ∷ xs) ys zs z e =
    let rest = take-append_long n xs ys zs z e in (ap (λ (zs : List ℕ). x ∷ zs) rest.0, rest.1)
