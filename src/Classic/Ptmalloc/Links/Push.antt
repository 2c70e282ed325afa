-- ===== src/Classic/Ptmalloc/Links/Push.antt =====
-- BinList::push_front and push_back of classic/ptmalloc/bins.cpp on a circular list.
use my_malloc.Prelude.{
  ℕ, ◌≡◌, ◌≢◌, refl, subst, sym, ◌∙◌, ap, arith, true, false, ◌||◌, List, [], ◌∷◌, ◌++◌, ◌==◌,
  ne_from, if_false, put,
}
use my_malloc.Classic.Ptmalloc.Links.{Links, set_fd, set_bk, push_front, push_back}
use my_malloc.Classic.Ptmalloc.Links.Ring.{
  has, distinct, Edge, Seg, IsRing, Seg-first, put_at, put_off,
}

-- The words after p has been put before the first chunk, and after the last one.
abbrev fronted : (s p : ℕ) → Links → Links
fronted s p l = set_bk (l.fd s) p (set_fd s p (set_bk p s (set_fd p (l.fd s) l)))

abbrev backed : (s p : ℕ) → Links → Links
backed s p l = set_fd (l.bk s) p (set_bk s p (set_bk p (l.bk s) (set_fd p s l)))

module _ (l : Links) (s p : ℕ) (ns : s ≢ p) where
  Edge-fronted :
      (a b : ℕ) → l.bk (l.fd s) ≡ s → a ≢ s → a ≢ p → b ≢ p → Edge l a b → Edge (fronted s p l) a b
  Edge-fronted a b back nas na nb (f, k) = (
    put_off (put l.fd p (l.fd s)) s p a nas ∙ put_off l.fd p (l.fd s) a na ∙ f,
    put_off (put l.bk p s) (l.fd s) p b (λ e. nas (sym k ∙ ap l.bk e ∙ back))
        ∙ put_off l.bk p s b nb
        ∙ k,
  )

  Seg-fronted :
      (a : ℕ) (xs : List ℕ)
      → l.bk (l.fd s) ≡ s
      → a ≢ s
      → a ≢ p
      → has p xs ≡ false
      → has s xs ≡ false
      → Seg l a xs s
      → Seg (fronted s p l) a xs s
  unfolding Seg has
  Seg-fronted a [] back nas na out outs e = Edge-fronted a s back nas na ns e
  Seg-fronted a (x ∷ xs) back nas na out outs (e, t) =
      let nx : x ≢ p = ne_from (ground arith) in
      (
        Edge-fronted a x back nas na nx e,
        Seg-fronted x xs back (ne_from (ground arith)) nx (ground arith) (ground arith) t,
      )

  -- The two new edges at the front.
  Edge-front : (b : ℕ) → l.fd s ≡ b → b ≢ p → Edge (fronted s p l) s p × Edge (fronted s p l) p b
  Edge-front b f nb = (
    (
      put_at (put l.fd p (l.fd s)) s p s refl,
      put_off (put l.bk p s) (l.fd s) p p (λ e. nb (sym f ∙ sym e)) ∙ put_at l.bk p s p refl,
    ),
    (
      put_off (put l.fd p (l.fd s)) s p p (λ e. ns (sym e)) ∙ put_at l.fd p (l.fd s) p refl ∙ f,
      put_at (put l.bk p s) (l.fd s) p b (sym f),
    ),
  )

  Seg-front :
      (xs : List ℕ)
      → has p xs ≡ false
      → has s xs ≡ false
      → Seg l s xs s
      → Seg (fronted s p l) s (p ∷ xs) s
  unfolding Seg has
  Seg-front [] out outs e = Edge-front s e.0 ns
  Seg-front (x ∷ xs) out outs (e, t) =
      let nx : x ≢ p = ne_from (ground arith) in
      let (first, second) = Edge-front x e.0 nx in
      let back = Seg-first l s (x ∷ xs) s (e, t) in
      (
        first,
        (second, Seg-fronted x xs back (ne_from (ground arith)) nx (ground arith) (ground arith) t),
      )

  Edge-backed :
      (a b : ℕ) → l.fd (l.bk s) ≡ s → a ≢ p → b ≢ p → b ≢ s → Edge l a b → Edge (backed s p l) a b
  Edge-backed a b there na nb nbs (f, k) = (
    put_off (put l.fd p s) (l.bk s) p a (λ e. nbs (sym f ∙ ap l.fd e ∙ there))
        ∙ put_off l.fd p s a na
        ∙ f,
    put_off (put l.bk p (l.bk s)) s p b nbs ∙ put_off l.bk p (l.bk s) b nb ∙ k,
  )

  Seg-back :
      (a : ℕ) (xs : List ℕ)
      → l.fd (l.bk s) ≡ s
      → a ≢ p
      → has p xs ≡ false
      → has s xs ≡ false
      → Seg l a xs s
      → Seg (backed s p l) a (xs ++ p ∷ []) s
  unfolding Seg has
  Seg-back a [] there na out outs (f, k) = (
    (
      put_at (put l.fd p s) (l.bk s) p a (sym k),
      put_off (put l.bk p (l.bk s)) s p p (λ e. ns (sym e)) ∙ put_at l.bk p (l.bk s) p refl ∙ k,
    ),
    (
      put_off (put l.fd p s) (l.bk s) p p (λ e. na (sym k ∙ sym e)) ∙ put_at l.fd p s p refl,
      put_at (put l.bk p (l.bk s)) s p s refl,
    ),
  )
  Seg-back a (x ∷ xs) there na out outs (e, t) =
      let nx : x ≢ p = ne_from (ground arith) in
      (
        Edge-backed a x there na nx (ne_from (ground arith)) e,
        Seg-back x xs there nx (ground arith) (ground arith) t,
      )

-- What the sentinel of a circular list leads to.
Seg-last :
    (l : Links) (a : ℕ) (xs : List ℕ) (b : ℕ)
    → has 0 (a ∷ xs) ≡ false
    → Seg l a xs b
    → (l.fd (l.bk b) ≡ b) × ((l.bk b == 0) ≡ false)
unfolding Seg has
Seg-last l a [] b pos (f, k) = (ap l.fd k ∙ f, ap (λ y. y == 0) k ∙ ground arith)
Seg-last l a (x ∷ xs) b pos (e, t) = Seg-last l x xs b (ground arith) t

first_nonzero :
    (l : Links) (a : ℕ) (xs : List ℕ) (b : ℕ)
    → has 0 (b ∷ xs) ≡ false
    → Seg l a xs b
    → (l.fd a == 0) ≡ false
unfolding Seg has
first_nonzero l a [] b pos e = ap (λ y. y == 0) e.0 ∙ ground arith
first_nonzero l a (x ∷ xs) b pos (e, t) = ap (λ y. y == 0) e.0 ∙ ground arith

has-append : (a : ℕ) (xs ys : List ℕ) → has a (xs ++ ys) ≡ (has a xs || has a ys)
unfolding has
has-append a [] ys = refl
has-append a (x ∷ xs) ys = ground (arith, has-append a xs ys)

distinct-snoc :
    (p : ℕ) (xs : List ℕ) → has p xs ≡ false → distinct xs ≡ true → distinct (xs ++ p ∷ []) ≡ true
unfolding distinct has
distinct-snoc p [] out apart = refl
distinct-snoc p (x ∷ xs) out apart = ground (arith, has-append x xs (p ∷ []), distinct-snoc p xs)

-- A new chunk in front of a circular list is its first one.
pub push_front-IsRing :
    (l : Links) (s p : ℕ) (xs : List ℕ)
    → IsRing l s xs
    → has p (0 ∷ s ∷ xs) ≡ false
    → IsRing (push_front s p l) s (p ∷ xs)
unfolding push_front has distinct
push_front-IsRing l s p xs ring new =
    let ns : s ≢ p = ne_from (ground arith) in
    let out : has s xs ≡ false = ground (arith, ring.apart) in
    let some = first_nonzero l s xs s ring.nonzero ring.seg in
    subst (λ m. IsRing m s (p ∷ xs))
      (sym (if_false (set_fd s p (set_bk p s (set_fd p (l.fd s) l))) (fronted s p l) some))
      (record {
        seg = Seg-front l s p ns xs (ground arith) out ring.seg;
        nonzero = ground (arith, ring.nonzero);
        apart = ground (arith, ring.apart);
      })

-- A new chunk behind a circular list is its last one.
pub push_back-IsRing :
    (l : Links) (s p : ℕ) (xs : List ℕ)
    → IsRing l s xs
    → has p (0 ∷ s ∷ xs) ≡ false
    → IsRing (push_back s p l) s (xs ++ p ∷ [])
unfolding push_back has distinct
push_back-IsRing l s p xs ring new =
    let ns : s ≢ p = ne_from (ground arith) in
    let out : has s xs ≡ false = ground (arith, ring.apart) in
    let (there, some) = Seg-last l s xs s ring.nonzero ring.seg in
    subst (λ m. IsRing m s (xs ++ p ∷ []))
      (sym (if_false (set_bk s p (set_bk p (l.bk s) (set_fd p s l))) (backed s p l) some))
      (record {
        seg = Seg-back l s p ns s xs there ns (ground arith) out ring.seg;
        nonzero = ground (arith, ring.nonzero, has-append 0 xs (p ∷ []));
        apart = ground (arith, ring.apart, has-append s xs (p ∷ []), distinct-snoc p xs);
      })
