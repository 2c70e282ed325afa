-- ===== src/Classic/Tcmalloc/PageHeap/Split.antt =====
-- A span is split, in alloc_span of classic/tcmalloc/page_heap.cpp: the rest is a new free span.
use my_malloc.Prelude.{
  ℕ, ◌-◌, ◌<◌, ◌≤◌, ◌≡◌, ◌≢◌, sym, ◌∙◌, ap, inl, inr, arith, ◌==◌, Bool-cases, if_true, if_false,
  eq_of, ne_from, eq_refl, subst,
}
use my_malloc.Classic.Tcmalloc.PageHeap.Valid.{View, Listed, IsValid}
use my_malloc.Classic.Tcmalloc.PageHeap.Extend.{
  below_of_ne, Same, link_old, not_head_old, one_link_old, head_old, le_before, ne_before,
}
use my_malloc.Classic.Tcmalloc.PageHeap.Cut.{Cut, Apart-after, Inside-after}

module _ (v v' : View) (best n : ℕ) (valid : IsValid best v) (pos : 1 ≤ best)
    (known : best < v.count) (long : n < v.length best) (cut : Cut v v' best n) where
  r_ne_best : v.count ≢ best
  r_ne_best e = absurd (omega (arith, e, known))

  before : (id : ℕ) → Listed best id v' → id ≢ v.count → Listed best id v
  before id l ne = record {
    pos = l.pos;
    known = below_of_ne (omega (arith, l.known, cut.count)) ne;
    normal = sym (cut.same id ne l.loose).1.normal ∙ l.normal;
    loose = l.loose;
  }

  same : (id : ℕ) → Listed best id v → Same v v' id
  same id l = (cut.same id (λ e. absurd (omega (arith, e, l.known))) l.loose).1

  after : (id : ℕ) → Listed best id v → Listed best id v'
  after id l = record {
    pos = l.pos;
    known = omega (arith, l.known, cut.count);
    normal = (same id l).normal ∙ l.normal;
    loose = l.loose;
  }

  rest_listed : Listed best v.count v'
  rest_listed = record {
    pos = valid.started;
    known = omega (arith, cut.count);
    normal = cut.rest_normal;
    loose = r_ne_best;
  }

  head_after :
      (j : ℕ) → j ≤ 256 → v'.free j ≢ 0 → Listed best (v'.free j) v' × (v'.length (v'.free j) ≡ j)
  head_after j le ne = elim (Bool-cases ((v.length best - n) == j)) [
    | inl at ↦
        let head : v'.free j ≡ v.count = cut.heads j le ∙ if_true _ _ at in
        rw head (rest_listed, cut.rest_length ∙ eq_of at)
    | inr at ↦
        let head : v'.free j ≡ v.free j = cut.heads j le ∙ if_false _ _ at in
        let old = head_old v v' best best valid same after j le (λ z. ne (head ∙ z)) in rw head old
  ]

  -- The rest is short where its list is asked for, and then its link leads to the old head.
  rest_short : v'.length v.count ≤ 256 → v.length best - n ≤ 256
  rest_short le = omega (arith, le, cut.rest_length)

  -- The old head of the list that the rest goes to.
  module _ (le : v'.length v.count ≤ 256) (ne : v'.next v.count ≢ 0) where
    to_head : v'.next v.count ≡ v.free (v.length best - n)
    to_head = cut.rest_next (rest_short le)

    old_head_ne : v.free (v.length best - n) ≢ 0
    old_head_ne z = ne (to_head ∙ z)

    old_head :
        Listed best (v.free (v.length best - n)) v
        × (v.length (v.free (v.length best - n)) ≡ v.length best - n)
    old_head = valid.heads (v.length best - n) (rest_short le) old_head_ne

    rest_link : Listed best (v'.next v.count) v' × (v'.length (v'.next v.count) ≡ v'.length v.count)
    rest_link =
        let head =
          head_old v v' best best valid same after (v.length best - n) (rest_short le)
            old_head_ne in
        (
          subst (λ (x : ℕ). Listed best x v') (sym to_head) head.0,
          ap v'.length to_head ∙ head.1 ∙ sym cut.rest_length,
        )

    -- The rest is the new head of that list.
    new_head : v'.free (v'.length v.count) ≡ v.count
    new_head =
        ap v'.free cut.rest_length
        ∙ cut.heads (v.length best - n) (rest_short le)
        ∙ if_true v.count (v.free (v.length best - n)) (eq_refl (v.length best - n))

    rest_not_head : v'.next v.count ≢ v'.free (v'.length v.count)
    rest_not_head e = absurd (omega (arith, old_head.0.known, to_head, e, new_head))

    rest_one_link : (b : ℕ) → Listed best b v → v'.length b ≤ 256 → v'.next v.count ≢ v'.next b
    rest_one_link b lb leb e =
        let into : v.next b ≡ v.free (v.length best - n) = sym (same b lb).next ∙ sym e ∙ to_head in
        let leb' : v.length b ≤ 256 = omega (arith, leb, (same b lb).length) in
        let ne' : v.next b ≢ 0 = λ z. old_head_ne (sym into ∙ z) in
        let lengths : v.length b ≡ v.length best - n =
          sym (valid.links b lb leb' ne').1 ∙ ap v.length into ∙ old_head.1 in
        valid.not_head b lb leb' ne' (into ∙ ap v.free (sym lengths))

  link_after :
      (id : ℕ)
      → Listed best id v'
      → v'.length id ≤ 256
      → v'.next id ≢ 0
      → Listed best (v'.next id) v' × (v'.length (v'.next id) ≡ v'.length id)
  link_after id l le ne = elim (Bool-cases (id == v.count)) [
    | inr old ↦ link_old v v' best best valid same after id (before id l (ne_from old)) le ne
    | inl new ↦
        subst
          (λ (x : ℕ).
            v'.length x ≤ 256
            → v'.next x ≢ 0
            → Listed best (v'.next x) v' × (v'.length (v'.next x) ≡ v'.length x))
          (sym (eq_of new)) rest_link le ne
  ]

  not_head_after :
      (id : ℕ)
      → Listed best id v'
      → v'.length id ≤ 256
      → v'.next id ≢ 0
      → v'.next id ≢ v'.free (v'.length id)
  not_head_after id l le ne = elim (Bool-cases (id == v.count)) [
    | inl new ↦
        subst (λ (x : ℕ). v'.length x ≤ 256 → v'.next x ≢ 0 → v'.next x ≢ v'.free (v'.length x))
          (sym (eq_of new)) rest_not_head le ne
    | inr old ↦
        let l' = before id l (ne_from old) in
        let link =
          valid.links id l' (le_before v v' best best valid same after id l' le ne)
            (ne_before v v' best best valid same after id l' le ne) in
        λ e. elim (Bool-cases ((v.length best - n) == v'.length id)) [
          | inl at ↦ absurd (
              omega (
                arith,
                e,
                cut.heads (v'.length id) le ∙ if_true _ _ at,
                (same id l').next,
                link.0.known,
              ))
          | inr at ↦
              not_head_old v v' best best valid same after id l' le ne
                (e ∙ cut.heads (v'.length id) le ∙ if_false _ _ at)
        ]
  ]

  one_link_after :
      (a b : ℕ)
      → Listed best a v'
      → Listed best b v'
      → v'.length a ≤ 256
      → v'.length b ≤ 256
      → v'.next a ≢ 0
      → v'.next a ≡ v'.next b
      → a ≡ b
  one_link_after a b la lb lea leb ne e = elim (Bool-cases (a == v.count)) [
    | inl new_a ↦ elim (Bool-cases (b == v.count)) [
      | inl new_b ↦ eq_of new_a ∙ sym (eq_of new_b)
      | inr old_b ↦ absurd (
          subst
            (λ (x : ℕ).
              v'.length x ≤ 256
              → v'.next x ≢ 0
              → (b : ℕ) → Listed best b v
              → v'.length b ≤ 256
              → v'.next x ≢ v'.next b)
            (sym (eq_of new_a)) rest_one_link lea ne b (before b lb (ne_from old_b)) leb e)
    ]
    | inr old_a ↦ elim (Bool-cases (b == v.count)) [
      | inl new_b ↦ absurd (
          subst
            (λ (x : ℕ).
              v'.length x ≤ 256
              → v'.next x ≢ 0
              → (b : ℕ) → Listed best b v
              → v'.length b ≤ 256
              → v'.next x ≢ v'.next b)
            (sym (eq_of new_b)) rest_one_link leb (λ z. ne (e ∙ z)) a (before a la (ne_from old_a))
            lea (sym e))
      | inr old_b ↦
          one_link_old v v' best best valid same after a (before a la (ne_from old_a)) lea ne b
            (before b lb (ne_from old_b)) leb e
    ]
  ]

  pub cut-IsValid : IsValid best v'
  cut-IsValid = record {
    started = omega (arith, cut.count);
    heads = head_after;
    links = link_after;
    not_head = not_head_after;
    one_link = one_link_after;
    apart = Apart-after v v' best n valid pos known long cut;
    inside = Inside-after v v' best n valid pos known long cut;
  }
