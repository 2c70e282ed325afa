-- ===== src/Classic/Tcmalloc/PageHeap/Extend.antt =====
-- An object is added to the page heap of classic/tcmalloc/page_heap.cpp, and the listed spans stay as
-- they were.
use my_malloc.Prelude.{ℕ, ◌+◌, ◌<◌, ◌≤◌, ◌≡◌, ◌≢◌, sym, ◌∙◌, ap, arith, subst}
use my_malloc.Classic.Tcmalloc.PageHeap.Valid.{View, Listed, IsValid}

pub below_of_ne : {a n : ℕ} → a < n + 1 → a ≢ n → a < n
below_of_ne k ne = ground arith

-- An object that reads the same.
pub record Same (v v' : View) (id : ℕ) : Type 0 where
  pub length : v'.length id ≡ v.length id
  pub next : v'.next id ≡ v.next id
  pub normal : v'.normal id ≡ v.normal id

module _ (v v' : View) (held held' : ℕ) (valid : IsValid held v)
    (same : (id : ℕ) → Listed held id v → Same v v' id)
    (after : (id : ℕ) → Listed held id v → Listed held' id v') where
  -- What is small and has a link was so before.
  module _ (id : ℕ) (l : Listed held id v) (le : v'.length id ≤ 256) (ne : v'.next id ≢ 0) where
    pub le_before : v.length id ≤ 256
    le_before = omega (arith, le, (same id l).length)

    pub ne_before : v.next id ≢ 0
    ne_before z = ne ((same id l).next ∙ z)

    pub link_old : Listed held' (v'.next id) v' × (v'.length (v'.next id) ≡ v'.length id)
    link_old =
        let link = valid.links id l le_before ne_before in
        (
          subst (λ (x : ℕ). Listed held' x v') (sym (same id l).next) (after _ link.0),
          ap v'.length (same id l).next ∙ (same _ link.0).length ∙ link.1 ∙ sym (same id l).length,
        )

    pub not_head_old : v'.next id ≢ v.free (v'.length id)
    not_head_old e =
        valid.not_head id l le_before ne_before
          (sym (same id l).next ∙ e ∙ ap v.free (same id l).length)

    pub one_link_old :
        (b : ℕ) → Listed held b v → v'.length b ≤ 256 → v'.next id ≡ v'.next b → id ≡ b
    one_link_old b lb leb e =
        valid.one_link id b l lb le_before (omega (arith, leb, (same b lb).length)) ne_before
          (sym (same id l).next ∙ e ∙ (same b lb).next)

  pub head_old :
      (i : ℕ) → i ≤ 256 → v.free i ≢ 0 → Listed held' (v.free i) v' × (v'.length (v.free i) ≡ i)
  head_old i le ne =
      let head = valid.heads i le ne in (after _ head.0, (same _ head.0).length ∙ head.1)
