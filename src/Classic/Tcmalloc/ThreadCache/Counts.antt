-- ===== src/Classic/Tcmalloc/ThreadCache/Counts.antt =====
-- One class of a cache of classic/tcmalloc/thread_cache.cpp: its list and its three counters.
use my_malloc.Prelude.{
  put, ℕ, ◌+◌, ◌-◌, ◌*◌, ◌/◌, ◌%◌, ◌<◌, ◌≤◌, ◌≡◌, sym, ◌∙◌, ap, inl, inr, arith, List, ◌∷◌, ◌++◌,
  length, length-append, length-drop, drop, ltb, leb, ◌==◌, if◌then◌else◌, Bool-cases, word, eq_of,
  subst,
}
use my_malloc.Classic.Tcmalloc.ThreadCache.{ThreadCache, update_capacity, prepend, pop, push}

-- The count is that of the list, and the capacity and the low water are within their bounds.
pub record Fits (list : List ℕ) (count max low : ℕ) : Type 0 where
  pub counted : count ≡ length list
  pub few : count ≤ 8192
  pub low_bound : low * 4 ≤ max
  pub some_room : 2 ≤ max
  pub max_bound : max ≤ 8192

abbrev pub ClassFits : ThreadCache → ℕ → Type 0
ClassFits t i = Fits (t.list i) (t.count i) (t.max_count i) (t.low_water i)

-- The capacity after update_capacity.
capacity : (count max : ℕ) → ℕ
capacity count max =
    if leb (max * 3 % word / 4) count
    then if ltb 8192 (max * 2 % word) then 8192 else max * 2 % word
    else max

capacity_bounds :
    (count max : ℕ) → 2 ≤ max → max ≤ 8192 → (2 ≤ capacity count max) × (capacity count max ≤ 8192)
unfolding capacity
capacity_bounds count max low high = ground arith

Fits-capacity :
    (list : List ℕ) (count max low : ℕ)
    → Fits list count max low
    → Fits list count (capacity count max) (capacity count max / 4)
Fits-capacity list count max low f =
    let (above, below) = capacity_bounds count max f.some_room f.max_bound in
    record {
      counted = f.counted;
      few = f.few;
      low_bound = omega arith;
      some_room = above;
      max_bound = below;
    }

Fits-append :
    (nodes list : List ℕ) (count max low : ℕ)
    → Fits list count max low
    → count + length nodes ≤ 8192
    → Fits (nodes ++ list) ((count + length nodes) % word) max low
Fits-append nodes list count max low f room = record {
  counted = omega (arith, length-append nodes list, f.counted);
  few = omega arith;
  low_bound = f.low_bound;
  some_room = f.some_room;
  max_bound = f.max_bound;
}

Fits-tail :
    (x : ℕ) (rest : List ℕ) (count max low : ℕ)
    → Fits (x ∷ rest) count max low
    → Fits rest ((count + (word - 1)) % word) max low
Fits-tail x rest count max low f = record {
  counted = omega (arith, f.counted, f.few);
  few = omega (arith, f.counted, f.few);
  low_bound = f.low_bound;
  some_room = f.some_room;
  max_bound = f.max_bound;
}

pub Fits-drop :
    (list : List ℕ) (count max low : ℕ)
    → Fits list count max low
    → low < count
    → Fits (drop (count - low) list) (count - (count - low)) max low
Fits-drop list count max low f above = record {
  counted = omega (arith, length-drop (count - low) list, f.counted);
  few = omega (arith, f.few);
  low_bound = f.low_bound;
  some_room = f.some_room;
  max_bound = f.max_bound;
}

Fits-cons :
    (x : ℕ) (list : List ℕ) (count max low : ℕ)
    → Fits list count max low
    → count < max
    → Fits (x ∷ list) ((count + 1) % word) max low
Fits-cons x list count max low f room = record {
  counted = omega (arith, f.counted, f.few);
  few = omega (arith, f.max_bound);
  low_bound = f.low_bound;
  some_room = f.some_room;
  max_bound = f.max_bound;
}

-- The operations on the class i, seen at a class j.
module _ (i j : ℕ) (t : ThreadCache) (at : ClassFits t j) where
  pub update_capacity-Fits : ClassFits (update_capacity i t) j
  unfolding update_capacity capacity
  update_capacity-Fits = elim (Bool-cases (i == j)) [
    | inl e ↦ rw (e, eq_of e) (Fits-capacity _ _ _ _ at)
    | inr e ↦ rw e at
  ]

  pub pop-Fits : (x : ℕ) (rest : List ℕ) → t.list i ≡ x ∷ rest → ClassFits (pop i rest t) j
  unfolding pop
  pop-Fits x rest e = elim (Bool-cases (i == j)) [
    | inl same ↦
        let list : t.list j ≡ x ∷ rest = ap t.list (sym (eq_of same)) ∙ e in
        rw (same, eq_of same)
          (Fits-tail x rest (t.count j) (t.max_count j) (t.low_water j)
            (subst (λ (zs : List ℕ). Fits zs (t.count j) (t.max_count j) (t.low_water j)) list at))
    | inr other ↦ rw other at
  ]

  pub push-Fits : (x : ℕ) → t.count i < t.max_count i → ClassFits (push i x t) j
  unfolding push
  push-Fits x room = elim (Bool-cases (i == j)) [
    | inl same ↦
        rw (same, eq_of same)
          (Fits-cons x (t.list j) (t.count j) (t.max_count j) (t.low_water j) at
            (subst (λ (k : ℕ). t.count k < t.max_count k) (eq_of same) room))
    | inr other ↦ rw other at
  ]

pub prepend-Fits :
    (i j : ℕ) (t : ThreadCache) (nodes : List ℕ)
    → ClassFits t j
    → t.count i + length nodes ≤ 8192
    → ClassFits (prepend i nodes t) j
unfolding prepend
prepend-Fits i j t nodes at room =
    let t1 : ThreadCache = record t {
      list = put t.list i (nodes ++ t.list i);
      count = put t.count i ((t.count i + length nodes) % word);
    } in
    update_capacity-Fits i j t1 (elim (Bool-cases (i == j)) [
      | inl same ↦
          rw (same, eq_of same)
            (Fits-append nodes (t.list j) (t.count j) (t.max_count j) (t.low_water j) at
              (subst (λ (k : ℕ). t.count k + length nodes ≤ 8192) (eq_of same) room))
      | inr other ↦ rw other at
    ])
