-- ===== src/Classic/Tcmalloc/SizeClasses/Search.antt =====
-- The class that size_to_class of classic/tcmalloc/size_classes.h finds.
use my_malloc.Prelude.{
  all_below, all_below_at, ℕ, zero, suc, ◌+◌, ◌-◌, ◌*◌, ◌/◌, ◌^◌, ◌<◌, ◌≤◌, ◌≡◌, refl, subst, ap,
  ◌∙◌, ◌⊎◌, inl, inr, true, false, arith, ltb, leb, Bool-cases,
}
use native.Mathlib.Nat.{pow-succ'}
use my_malloc.Classic.Tcmalloc.SizeClasses.{
  k_num_classes, k_max_size, k_class_info, entry_size, binary_search, size_to_class, class_to_size,
  at_least_one,
}

-- The first of the places up to hi whose entry is large enough, or hi.
pub record First (table : ℕ → ℕ) (size hi r : ℕ) : Type 0 where
  pub bounded : r ≤ hi
  pub smaller_before : (i : ℕ) → i < r → table i < size
  pub fits : (r ≡ hi) ⊎ (size ≤ table r)

abbrev pub Increasing : (ℕ → ℕ) → ℕ → Type 0
Increasing table n = (i j : ℕ) → i ≤ j → j < n → table i ≤ table j

-- Where lo and hi have met, the place is the one looked for.
met-First :
    (table : ℕ → ℕ) (size last lo hi : ℕ)
    → hi ≤ lo
    → lo ≤ hi
    → hi ≤ last
    → ((i : ℕ) → i < lo → table i < size)
    → ((hi ≡ last) ⊎ (size ≤ table hi))
    → First table size last lo
met-First table size last lo hi ge le top before after =
    let same : hi ≡ lo = omega arith in
    record {
      bounded = omega arith;
      smaller_before = before;
      fits = subst (λ (x : ℕ). (x ≡ last) ⊎ (size ≤ table x)) same after;
    }

halved_right : (bound lo hi : ℕ) → hi - lo < 2 * bound → hi - ((lo + hi) / 2 + 1) < bound
halved_right bound lo hi enough = omega arith

halved_left : (bound lo hi : ℕ) → hi - lo < 2 * bound → lo < hi → (lo + hi) / 2 - lo < bound
halved_left bound lo hi enough more = omega arith

-- What comes before an entry that is too small is too small.
smaller_up_to :
    (table : ℕ → ℕ) (n size mid i : ℕ)
    → Increasing table n
    → mid < n
    → table mid < size
    → i < mid + 1
    → table i < size
smaller_up_to table n size mid i up in_table small below =
    omega (arith, up i mid (omega arith) in_table)

pub binary_search-First :
    (rounds : ℕ) (table : ℕ → ℕ) (n size last lo hi : ℕ)
    → Increasing table n
    → last < n
    → hi - lo < 2 ^ rounds
    → lo ≤ hi
    → hi ≤ last
    → ((i : ℕ) → i < lo → table i < size)
    → ((hi ≡ last) ⊎ (size ≤ table hi))
    → First table size last (binary_search rounds table size lo hi)
unfolding binary_search
binary_search-First zero table n size last lo hi up in_table enough le top before after =
    met-First table size last lo hi (omega arith) le top before after
binary_search-First (suc rounds) table n size last lo hi up in_table enough le top before after =
    elim (Bool-cases (ltb lo hi)) [
      | inl more ↦
          let mid : ℕ = (lo + hi) / 2 in
          elim (Bool-cases (ltb (table mid) size)) [
            | inl right ↦
                rw (more, right)
                  (binary_search-First rounds table n size last (mid + 1) hi up in_table
                    (halved_right (2 ^ rounds) lo hi (omega (arith, pow-succ' 2 rounds)))
                    (ground arith) top
                    (λ i below.
                      smaller_up_to table n size mid i up (ground arith) (ground arith) below)
                    after)
            | inr left ↦
                rw (more, left)
                  (binary_search-First rounds table n size last lo mid up in_table
                    (halved_left (2 ^ rounds) lo hi (omega (arith, pow-succ' 2 rounds))
                      (ground arith))
                    (ground arith) (ground arith) before (inr (ground arith)))
          ]
      | inr done ↦ rw done (met-First table size last lo hi (ground arith) le top before after)
    ]

next_step :
    (table : ℕ → ℕ) (i j : ℕ)
    → table i ≤ table j
    → leb (table j) (table (j + 1)) ≡ true
    → table i ≤ table (suc j)
next_step table i j before step =
    let same : j + 1 ≡ suc j = omega arith in
    subst (λ (x : ℕ). table i ≤ table x) same (ground arith)

pub increasing_by_steps :
    (table : ℕ → ℕ) (n i j : ℕ)
    → all_below (λ k. leb (table k) (table (k + 1))) n ≡ true
    → i ≤ j
    → j < n + 1
    → table i ≤ table j
increasing_by_steps table n i zero steps le below =
    let same : i ≡ 0 = omega arith in rw same (omega arith)
increasing_by_steps table n i (suc j) steps le below = elim (Bool-cases (leb i j)) [
  | inl e ↦
      let step : leb (table j) (table (j + 1)) ≡ true = all_below_at _ n j steps (omega arith) in
      let before = increasing_by_steps table n i j steps (ground arith) (omega arith) in
      next_step table i j before step
  | inr e ↦
      let same : i ≡ suc j = ground arith in subst (λ (x : ℕ). table i ≤ table x) same (omega arith)
]

table_steps :
    all_below (λ i. leb (entry_size k_class_info i) (entry_size k_class_info (i + 1))) 85 ≡ true
unfolding all_below entry_size
table_steps = refl

table-Increasing : Increasing (entry_size k_class_info) 86
table-Increasing i j le below =
    increasing_by_steps (entry_size k_class_info) 85 i j table_steps le below

class_to_size-entry : (i : ℕ) → i < 86 → class_to_size i ≡ entry_size k_class_info i
unfolding class_to_size
class_to_size-entry i below =
    let inside : leb k_num_classes i ≡ false = ground arith in rw inside refl

-- The same place is the first one by class_to_size.
by_class_to_size :
    (size r : ℕ) → First (entry_size k_class_info) size 85 r → First class_to_size size 85 r
by_class_to_size size r f = record {
  bounded = f.bounded;
  smaller_before = λ i below.
      omega
        (arith, class_to_size-entry i (omega (arith, f.bounded, below)), f.smaller_before i below);
  fits = elim f.fits [
    | inl e ↦ inl e
    | inr le ↦ inr (omega (arith, class_to_size-entry r (omega (arith, f.bounded)), le))
  ];
}

above_limit : (size : ℕ) → ltb k_max_size (at_least_one size) ≡ true → k_max_size < size
above_limit size e = ground arith

within_limit : (size : ℕ) → ltb k_max_size (at_least_one size) ≡ false → size ≤ k_max_size
within_limit size e = ground arith

-- Up to 256 KiB the binary search ends within its seven rounds and finds the first class whose
-- objects hold the size, or the last class where no class does; no byte counts as one byte. Above
-- 256 KiB size_to_class returns the number of classes.
pub size_to_class-First :
    (size : ℕ)
    → ((k_max_size < size) × (size_to_class size ≡ k_num_classes))
      ⊎ ((size ≤ k_max_size) × First class_to_size (at_least_one size) 85 (size_to_class size))
unfolding size_to_class
size_to_class-First size = elim (Bool-cases (ltb k_max_size (at_least_one size))) [
  | inl large ↦ inl (above_limit size large, rw large refl)
  | inr small ↦
      let found =
        binary_search-First 7 (entry_size k_class_info) 86 (at_least_one size) 85 0 85
          table-Increasing (omega arith) (omega arith) (omega arith) (omega arith)
          (λ i below. absurd (omega arith)) (inl refl) in
      inr (within_limit size small, rw small (by_class_to_size (at_least_one size) _ found))
]

last_size : class_to_size 85 ≡ 1080
unfolding class_to_size entry_size
last_size = refl

class_to_size-bounded : (r : ℕ) → r ≤ 85 → class_to_size r ≤ 1080
class_to_size-bounded r le = omega (
  arith,
  class_to_size-entry r (omega arith),
  class_to_size-entry 85 (omega arith),
  last_size,
  table-Increasing r 85 le (omega arith),
)

fits_or_last :
    (size r : ℕ)
    → First class_to_size (at_least_one size) 85 r
    → ((size ≤ 1080) × (size ≤ class_to_size r)) ⊎ ((1080 < size) × (class_to_size r ≡ 1080))
fits_or_last size r f = elim f.fits [
  | inl last ↦
      let same : class_to_size r ≡ 1080 = ap class_to_size last ∙ last_size in
      elim (Bool-cases (leb size 1080)) [
        | inl e ↦ inl (ground arith, ground arith)
        | inr e ↦ inr (ground arith, same)
      ]
  | inr le ↦
      let bound = class_to_size-bounded r f.bounded in
      let size_le : size ≤ class_to_size r = ground arith in
      inl (omega (arith, bound, size_le), size_le)
]

-- A size up to 1080 gets a class whose objects hold it. Every larger size up to 256 KiB gets the last
-- class, whose objects have 1080 bytes: they are smaller than the size.
pub class_to_size-size_to_class :
    (size : ℕ)
    → size ≤ k_max_size
    → ((size ≤ 1080) × (size ≤ class_to_size (size_to_class size)))
      ⊎ ((1080 < size) × (class_to_size (size_to_class size) ≡ 1080))
class_to_size-size_to_class size small = elim (size_to_class-First size) [
  | inl large ↦ absurd (omega (arith, large.0))
  | inr (le, f) ↦ fits_or_last size (size_to_class size) f
]
