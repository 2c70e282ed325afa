-- ===== src/Classic/Ptmalloc/Bins/Best.antt =====
-- The walk of alloc_split of classic/ptmalloc/bins.cpp over one large bin.
use my_malloc.Prelude.{
  ℕ, zero, suc, ◌+◌, ◌<◌, ◌≤◌, ◌≡◌, ◌≢◌, refl, subst, sym, ◌∙◌, inl, inr, ◌⊎◌, arith, Bool, true,
  false, ◌&&◌, ◌||◌, List, [], ◌∷◌, length, ltb, leb, ◌==◌, if◌then◌else◌, Bool-cases, eq_of,
  ne_from, ==_of, ne_of,
}
use my_malloc.Classic.Ptmalloc.Chunk.{Chunks, chunk_size}
use my_malloc.Classic.Ptmalloc.Links.{Links}
use my_malloc.Classic.Ptmalloc.Links.Ring.{has, distinct, Seg, IsRing}
use my_malloc.Classic.Ptmalloc.Bins.Split.{Outcome, ok, best}

-- The chunks from b backwards to a.
unfoldable pub Back : Links → ℕ → List ℕ → ℕ → Type 0
Back l b [] a = l.bk b ≡ a
Back l b (y ∷ ys) a = (l.bk b ≡ y) × Back l y ys a

unfoldable pub onto : List ℕ → List ℕ → List ℕ
onto [] ys = ys
onto (x ∷ xs) ys = onto xs (x ∷ ys)

Back-onto :
    (l : Links) (a : ℕ) (xs : List ℕ) (b : ℕ) (ys : List ℕ) (s : ℕ)
    → Seg l a xs b
    → Back l a ys s
    → Back l b (onto xs (a ∷ ys)) s
unfolding Back onto Seg
Back-onto l a [] b ys s e back = (e.1, back)
Back-onto l a (x ∷ xs) b ys s (e, t) back = Back-onto l x xs b (a ∷ ys) s t (e.1, back)

ring-Back : (l : Links) (s : ℕ) (xs : List ℕ) → Seg l s xs s → Back l s (onto xs []) s
unfolding Back onto Seg
ring-Back l s [] e = e.1
ring-Back l s (x ∷ xs) (e, t) = Back-onto l x xs s [] s t e.1

has-onto : (p : ℕ) (xs ys : List ℕ) → has p (onto xs ys) ≡ (has p xs || has p ys)
unfolding has onto
has-onto p [] ys = refl
has-onto p (x ∷ xs) ys = ground (arith, has-onto p xs (x ∷ ys))

length-onto : (xs ys : List ℕ) → length (onto xs ys) ≡ length xs + length ys
unfolding onto
length-onto [] ys = omega arith
length-onto (x ∷ xs) ys = omega (arith, length-onto xs (x ∷ ys))

-- The chunk v, or none for 0, fits and is the smallest of the chunks xs that do.
pub record IsBest (nb : ℕ) (m : Chunks) (xs : List ℕ) (v : ℕ) : Type 0 where
  pub member : (v ≡ 0) ⊎ ((has v xs ≡ true) × (nb ≤ chunk_size (m v)))
  pub least :
      (x : ℕ)
      → has x xs ≡ true
      → nb ≤ chunk_size (m x)
      → (v ≢ 0) × (chunk_size (m v) ≤ chunk_size (m x))

-- The same of the chunks xs still ahead, with the best so far.
record Goes (nb : ℕ) (m : Chunks) (so_far : ℕ) (xs : List ℕ) (v : ℕ) : Type 0 where
  member : (v ≡ so_far) ⊎ ((has v xs ≡ true) × (nb ≤ chunk_size (m v)))
  kept : so_far ≢ 0 → (v ≢ 0) × (chunk_size (m v) ≤ chunk_size (m so_far))
  least :
      (x : ℕ)
      → has x xs ≡ true
      → nb ≤ chunk_size (m x)
      → (v ≢ 0) × (chunk_size (m v) ≤ chunk_size (m x))

module _ (nb : ℕ) (m : Chunks) (so_far p : ℕ) (ys : List ℕ) (pos : p ≢ 0) where
  abbrev Better : Type 0
  Better = (so_far ≢ 0 → chunk_size (m p) < chunk_size (m so_far))

  -- A smaller chunk that fits takes the place of the best so far.
  Goes-better :
      (v : ℕ) → nb ≤ chunk_size (m p) → Better → Goes nb m p ys v → Goes nb m so_far (p ∷ ys) v
  unfolding has
  Goes-better v fits smaller rest = record {
    member = elim rest.member [
      | inl e ↦ inr (ground (arith, e), subst (λ y. nb ≤ chunk_size (m y)) (sym e) fits)
      | inr (isin, fit) ↦ inr (ground (arith, isin), fit)
    ];
    kept = λ ne. ((rest.kept pos).0, omega (arith, (rest.kept pos).1, smaller ne));
    least = λ x isin fit. elim (Bool-cases (p == x)) [
      | inl e ↦
          subst (λ y. (v ≢ 0) × (chunk_size (m v) ≤ chunk_size (m y))) (eq_of e) (rest.kept pos)
      | inr ne ↦ rest.least x (ground arith) fit
    ];
  }

  Goes-exact : nb ≡ chunk_size (m p) → Better → Goes nb m so_far (p ∷ ys) p
  Goes-exact exact smaller = Goes-better p (omega (arith, exact)) smaller (record {
    member = inl refl;
    kept = λ ne. (ne, omega arith);
    least = λ x isin fit. (pos, omega (arith, exact, fit));
  })

  Goes-worse :
      (v : ℕ)
      → (nb ≤ chunk_size (m p) → (so_far ≢ 0) × (chunk_size (m so_far) ≤ chunk_size (m p)))
      → Goes nb m so_far ys v
      → Goes nb m so_far (p ∷ ys) v
  unfolding has
  Goes-worse v larger rest = record {
    member = elim rest.member [ inl e ↦ inl e | inr (isin, fit) ↦ inr (ground (arith, isin), fit) ];
    kept = rest.kept;
    least = λ x isin fit. elim (Bool-cases (p == x)) [
      | inl e ↦
          let fit' = subst (λ y. nb ≤ chunk_size (m y)) (sym (eq_of e)) fit in
          let (ne, le) = larger fit' in
          let (some, le') = rest.kept ne in
          subst (λ y. (v ≢ 0) × (chunk_size (m v) ≤ chunk_size (m y))) (eq_of e)
            (some, omega (arith, le, le'))
      | inr ne ↦ rest.least x (ground arith) fit
    ];
  }

module _ (l : Links) (s nb : ℕ) (m : Chunks) where
  abbrev Finds : (so_far : ℕ) (xs : List ℕ) → Outcome ℕ → Type 0
  Finds so_far xs o = (v : ℕ) × (o ≡ ok v) × Goes nb m so_far xs v

  Finds-step :
      (so_far p : ℕ) (ys : List ℕ) (pos : p ≢ 0) (better exact : Bool) (rest : ℕ → Outcome ℕ)
      → (better ≡ true → (nb ≤ chunk_size (m p)) × Better nb m so_far p ys pos)
      → (exact ≡ true → chunk_size (m p) ≡ nb)
      → (better ≡ false
          → nb ≤ chunk_size (m p)
          → (so_far ≢ 0) × (chunk_size (m so_far) ≤ chunk_size (m p)))
      → ((so_far : ℕ) → Finds so_far ys (rest so_far))
      → Finds so_far
          (p ∷ ys)
          (if better && exact then ok p else rest (if better then p else so_far))
  Finds-step so_far p ys pos true true rest good same bad goes =
      (p, refl, Goes-exact nb m so_far p ys pos (sym (same refl)) (good refl).1)
  Finds-step so_far p ys pos true false rest good same bad goes =
      let (v, e, found) = goes p in
      (v, e, Goes-better nb m so_far p ys pos v (good refl).0 (good refl).1 found)
  Finds-step so_far p ys pos false exact rest good same bad goes =
      let (v, e, found) = goes so_far in (v, e, Goes-worse nb m so_far p ys pos v (bad refl) found)

  best-Goes :
      (fuel b : ℕ) (ys : List ℕ) (so_far : ℕ)
      → Back l b ys s
      → has 0 ys ≡ false
      → has s ys ≡ false
      → length ys < fuel
      → Finds so_far ys (best fuel s nb (l.bk b) so_far l m)
  unfolding Back best has
  best-Goes zero b ys so_far back pos out lt = absurd (omega (arith, lt))
  best-Goes (suc fuel) b [] so_far back pos out lt = (
    so_far,
    rw (==_of back) refl,
    record {
      member = inl refl;
      kept = λ ne. (ne, omega arith);
      least = λ x isin fit. absurd (ground arith);
    },
  )
  best-Goes (suc fuel) b (y ∷ ys) so_far (e, back) pos out lt =
      let size = chunk_size (m y) in
      let ny : y ≢ 0 = ne_from (ground arith) in
      let off : (y == s) ≡ false = ground arith in
      subst (λ p. Finds so_far (y ∷ ys) (best (suc fuel) s nb p so_far l m)) (sym e)
        (rw (ne_of ny, off)
          (Finds-step so_far y ys ny
            (leb nb size && ((so_far == 0) || ltb size (chunk_size (m so_far)))) (size == nb)
            (λ so_far. best fuel s nb (l.bk y) so_far l m)
            (λ better. (ground arith, λ ne. ground arith)) (λ exact. ground arith)
            (λ worse fit. (ground arith, ground arith))
            λ so_far.
              best-Goes fuel y ys so_far back (ground arith) (ground arith) (omega (arith, lt))))

-- From the last chunk of a bin on, with more fuel than chunks, the walk meets no null pointer and finds
-- the best fit of the bin.
pub best-IsBest :
    (fuel s nb : ℕ) (l : Links) (m : Chunks) (xs : List ℕ)
    → IsRing l s xs
    → length xs < fuel
    → (v : ℕ) × (best fuel s nb (l.bk s) 0 l m ≡ ok v) × IsBest nb m xs v
unfolding has distinct
best-IsBest fuel s nb l m xs ring lt =
    let (v, e, goes) =
      best-Goes l s nb m fuel s (onto xs []) 0 (ring-Back l s xs ring.seg)
        (has-onto 0 xs [] ∙ ground (arith, ring.nonzero))
        (has-onto s xs [] ∙ ground (arith, ring.apart)) (omega (arith, lt, length-onto xs [])) in
    let isin : (x : ℕ) → has x (onto xs []) ≡ (has x xs || false) = λ x. has-onto x xs [] in
    (
      v,
      e,
      record {
        member = elim goes.member [
          | inl none ↦ inl none
          | inr (isin', fit) ↦ inr (ground (arith, isin', isin v), fit)
        ];
        least = λ x among fit. goes.least x (ground (arith, isin x)) fit;
      },
    )
