-- ===== src/Classic/Tcmalloc/PageHeap/Cut.antt =====
-- A span that was cut in two, in alloc_span of classic/tcmalloc/page_heap.cpp, and the pages of the parts.
use my_malloc.Prelude.{
  ℕ, ◌+◌, ◌-◌, ◌<◌, ◌≤◌, ◌≡◌, ◌≢◌, sym, ◌∙◌, inl, inr, true, arith, List, [], ◌∷◌, ◌==◌,
  if◌then◌else◌, Bool-cases, if_true, if_false, eq_of, ne_from,
}
use my_malloc.Classic.Tcmalloc.PageHeap.{Mapping}
use my_malloc.Classic.Tcmalloc.PageHeap.Valid.{View, IsValid, Inside, Apart}
use my_malloc.Classic.Tcmalloc.PageHeap.Extend.{below_of_ne, Same}

-- The view v' after the span `best` was cut to n pages and the rest became the next object.
pub record Cut (v v' : View) (best n : ℕ) : Type 0 where
  pub count : v'.count ≡ v.count + 1
  pub mapped : v'.mapped ≡ v.mapped
  pub same : (x : ℕ) → x ≢ v.count → x ≢ best → (v'.start x ≡ v.start x) × Same v v' x
  pub kept_start : v'.start best ≡ v.start best
  pub kept_length : v'.length best ≡ n
  pub rest_start : v'.start v.count ≡ v.start best + n
  pub rest_length : v'.length v.count ≡ v.length best - n
  pub rest_normal : v'.normal v.count ≡ true
  pub rest_next : v.length best - n ≤ 256 → v'.next v.count ≡ v.free (v.length best - n)
  pub heads :
      (j : ℕ) → j ≤ 256 → v'.free j ≡ (if (v.length best - n) == j then v.count else v.free j)

-- Fewer pages are inside where more are.
Inside-mono :
    (ms : List Mapping) (s l s' l' : ℕ) → s ≤ s' → s' + l' ≤ s + l → Inside s l ms → Inside s' l' ms
Inside-mono [] s l s' l' low high inside = inside
Inside-mono (m ∷ ms) s l s' l' low high inside = elim inside [
  | inl here ↦ inl (omega (arith, here.0), omega (arith, here.1))
  | inr later ↦ inr (Inside-mono ms s l s' l' low high later)
]

module _ (v v' : View) (best n : ℕ) (valid : IsValid best v) (pos : 1 ≤ best)
    (known : best < v.count) (long : n < v.length best) (cut : Cut v v' best n) where
  -- The span whose pages an object has a part of.
  owner : ℕ → ℕ
  owner x = if x == v.count then best else x

  owner_lem :
      (x : ℕ)
      → 1 ≤ x
      → x < v'.count
      → (1 ≤ owner x)
        × (owner x < v.count)
        × (v.start (owner x) ≤ v'.start x)
        × (v'.start x + v'.length x ≤ v.start (owner x) + v.length (owner x))
  unfolding owner
  owner_lem x px kx = elim (Bool-cases (x == v.count)) [
    | inl new ↦
        rw (new, eq_of new)
          (
            pos,
            known,
            omega (arith, cut.rest_start),
            omega (arith, cut.rest_start, cut.rest_length),
          )
    | inr old ↦ elim (Bool-cases (x == best)) [
      | inl at ↦
          rw (old, eq_of at)
            (
              pos,
              known,
              omega (arith, cut.kept_start),
              omega (arith, cut.kept_start, cut.kept_length),
            )
      | inr other ↦
          let s = cut.same x (ne_from old) (ne_from other) in
          rw old (
            px,
            below_of_ne (omega (arith, kx, cut.count)) (ne_from old),
            omega (arith, s.0),
            omega (arith, s.0, s.1.length),
          )
    ]
  ]

  -- The two parts of the span that was split.
  rest_kept : Apart (v'.start v.count) (v'.length v.count) (v'.start best) (v'.length best)
  rest_kept = inr (omega (arith, cut.rest_start, cut.kept_start, cut.kept_length))

  kept_rest : Apart (v'.start best) (v'.length best) (v'.start v.count) (v'.length v.count)
  kept_rest = inl (omega (arith, cut.rest_start, cut.kept_start, cut.kept_length))

  one_owner :
      (a b : ℕ)
      → a ≢ b
      → owner a ≡ owner b
      → Apart (v'.start a) (v'.length a) (v'.start b) (v'.length b)
  unfolding owner
  one_owner a b ne e = elim (Bool-cases (a == v.count)) [
    | inl new_a ↦ elim (Bool-cases (b == v.count)) [
      | inl new_b ↦ absurd (ne (eq_of new_a ∙ sym (eq_of new_b)))
      | inr old_b ↦
          let at : b ≡ best = sym (sym (if_true best a new_a) ∙ e ∙ if_false best b old_b) in
          rw (eq_of new_a, at) rest_kept
    ]
    | inr old_a ↦ elim (Bool-cases (b == v.count)) [
      | inl new_b ↦
          let at : a ≡ best = sym (if_false best a old_a) ∙ e ∙ if_true best b new_b in
          rw (eq_of new_b, at) kept_rest
      | inr old_b ↦ absurd (ne (sym (if_false best a old_a) ∙ e ∙ if_false best b old_b))
    ]
  ]

  pub Apart-after :
      (a b : ℕ)
      → 1 ≤ a
      → 1 ≤ b
      → a < v'.count
      → b < v'.count
      → a ≢ b
      → Apart (v'.start a) (v'.length a) (v'.start b) (v'.length b)
  Apart-after a b pa pb ka kb ne = elim (Bool-cases (owner a == owner b)) [
    | inr other ↦
        let (pa', ka', la, ha) = owner_lem a pa ka in
        let (pb', kb', lb, hb) = owner_lem b pb kb in
        elim (valid.apart (owner a) (owner b) pa' pb' ka' kb' (ne_from other)) [
          | inl x ↦ inl (omega (arith, x, la, ha, lb, hb))
          | inr x ↦ inr (omega (arith, x, la, ha, lb, hb))
        ]
    | inl one ↦ one_owner a b ne (eq_of one)
  ]

  pub Inside-after : (a : ℕ) → 1 ≤ a → a < v'.count → Inside (v'.start a) (v'.length a) v'.mapped
  Inside-after a pa ka =
      let (pa', ka', la, ha) = owner_lem a pa ka in
      rw cut.mapped (Inside-mono v.mapped _ _ _ _ la ha (valid.inside (owner a) pa' ka'))
