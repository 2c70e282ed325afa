-- ===== src/Classic/Ptmalloc/Links/Unlink.antt =====
-- BinList::unlink and pop_front of classic/ptmalloc/bins.cpp on a circular list.
use my_malloc.Prelude.{
  ℕ, ◌≡◌, ◌≢◌, refl, subst, sym, ◌∙◌, ap, inl, inr, arith, true, false, List, [], ◌∷◌, ◌==◌,
  Bool-cases, eq_of, ne_of, ==_of, ne_from, if_true,
}
use my_malloc.Classic.Ptmalloc.Links.{Links, well_linked, unlink}
use my_malloc.Classic.Ptmalloc.Links.Ring.{
  has, distinct, without, Seg, IsRing, joined, Seg-joined, Seg-neighbours,
}

module _ (l : Links) (p : ℕ) where
  Seg-nonzero :
      (a : ℕ) (xs : List ℕ) (b : ℕ)
      → has p xs ≡ true
      → has 0 (a ∷ xs) ≡ false
      → b ≢ 0
      → Seg l a xs b
      → ((l.fd p == 0) ≡ false) × ((l.bk p == 0) ≡ false)
  unfolding Seg has
  Seg-nonzero a [] b isin pos nb s = absurd (ground arith)
  Seg-nonzero a (x ∷ xs) b isin pos nb (e, s) = elim (Bool-cases (x == p)) [
    | inl same ↦
        subst (λ y. ((l.fd y == 0) ≡ false) × ((l.bk y == 0) ≡ false)) (eq_of same)
          (next_nonzero xs s (ground arith), ap (λ y. y == 0) e.1 ∙ ground arith)
    | inr other ↦ Seg-nonzero x xs b (ground arith) (ground arith) nb s
  ]
    where
      next_nonzero : (xs : List ℕ) → Seg l x xs b → has 0 xs ≡ false → (l.fd x == 0) ≡ false
      next_nonzero [] s pos = ap (λ y. y == 0) s.0 ∙ ne_of nb
      next_nonzero (z ∷ zs) s pos = ap (λ y. y == 0) s.0.0 ∙ ground arith

has-without : (a p : ℕ) (xs : List ℕ) → has a xs ≡ false → has a (without p xs) ≡ false
unfolding has without
has-without a p [] out = refl
has-without a p (x ∷ xs) out = ground (arith, has-without a p xs)

distinct-without : (p : ℕ) (xs : List ℕ) → distinct xs ≡ true → distinct (without p xs) ≡ true
unfolding distinct without
distinct-without p [] apart = refl
distinct-without p (x ∷ xs) apart = ground (arith, has-without x p xs, distinct-without p xs)

-- A chunk of a circular list passes the check of unlink and leaves the list.
pub unlink-IsRing :
    (l : Links) (s p : ℕ) (xs : List ℕ)
    → IsRing l s xs
    → has p xs ≡ true
    → (well_linked p l ≡ true) × IsRing (unlink p l) s (without p xs)
unfolding unlink well_linked has distinct
unlink-IsRing l s p xs ring isin =
    let (there, back) = Seg-neighbours l p s xs s isin ring.seg in
    let pos : (0 == s) ≡ false = ground (arith, ring.nonzero) in
    let (nf, nb) = Seg-nonzero l p s xs s isin ring.nonzero (λ e. ne_from pos (sym e)) ring.seg in
    let ns : s ≢ p = λ e. ground (arith, ring.apart) in
    let linked : well_linked p l ≡ true = rw (nf, nb, ==_of there, ==_of back) refl in
    (
      linked,
      subst (λ m. IsRing m s (without p xs)) (sym (if_true (joined p l) l linked))
          (record {
            seg = Seg-joined l p s xs s there back ns isin (ground (arith, ring.apart)) ns ring.seg;
            nonzero = ground (arith, ring.nonzero, has-without 0 p xs);
            apart = ground (arith, ring.apart, has-without s p xs, distinct-without p xs);
          }),
    )
