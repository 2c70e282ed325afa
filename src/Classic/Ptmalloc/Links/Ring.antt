-- ===== src/Classic/Ptmalloc/Links/Ring.antt =====
-- The operations of BinList of classic/ptmalloc/bins.cpp on a circular list of chunks.
use my_malloc.Prelude.{
  ℕ, ◌≡◌, ◌≢◌, subst, sym, ◌∙◌, ap, inl, inr, arith, Bool, true, false, not, ◌&&◌, ◌||◌, List, [],
  ◌∷◌, ◌==◌, if◌then◌else◌, Bool-cases, eq_of, ne_of, ==_of, ne_from, if_true, if_false, put,
}
use my_malloc.Classic.Ptmalloc.Links.{Links, set_fd, set_bk}

unfoldable pub has : ℕ → List ℕ → Bool
has a [] = false
has a (x ∷ xs) = (x == a) || has a xs

unfoldable pub distinct : List ℕ → Bool
distinct [] = true
distinct (x ∷ xs) = not (has x xs) && distinct xs

-- A list without the first place where p stands.
unfoldable pub without : ℕ → List ℕ → List ℕ
without p [] = []
without p (x ∷ xs) = if x == p then xs else x ∷ without p xs

-- The words fd and bk of two neighbours.
abbrev pub Edge : Links → ℕ → ℕ → Type 0
Edge l a b = (l.fd a ≡ b) × (l.bk b ≡ a)

-- From a through the chunks xs to b.
unfoldable pub Seg : Links → ℕ → List ℕ → ℕ → Type 0
Seg l a [] b = Edge l a b
Seg l a (x ∷ xs) b = Edge l a x × Seg l x xs b

-- The bin of a sentinel holds the chunks xs, from front to back.
pub record IsRing (l : Links) (sentinel : ℕ) (xs : List ℕ) : Type 0 where
  pub seg : Seg l sentinel xs sentinel
  pub nonzero : has 0 (sentinel ∷ xs) ≡ false
  pub apart : distinct (sentinel ∷ xs) ≡ true

-- The words after p has been taken out.
abbrev pub joined : (p : ℕ) → Links → Links
joined p l = set_fd (l.bk p) (l.fd p) (set_bk (l.fd p) (l.bk p) l)

pub put_at : (f : ℕ → ℕ) (i v j : ℕ) → j ≡ i → put f i v j ≡ v
put_at f i v j e = if_true v (f j) (==_of (sym e))

pub put_off : (f : ℕ → ℕ) (i v j : ℕ) → j ≢ i → put f i v j ≡ f j
put_off f i v j ne = if_false v (f j) (ne_of λ e. ne (sym e))

pub Seg-first : (l : Links) (a : ℕ) (xs : List ℕ) (b : ℕ) → Seg l a xs b → l.bk (l.fd a) ≡ a
unfolding Seg
Seg-first l a [] b e = ap l.bk e.0 ∙ e.1
Seg-first l a (x ∷ xs) b (e, s) = ap l.bk e.0 ∙ e.1

module _ (l : Links) (p : ℕ) where
  Edge-joined_keep :
      (a b : ℕ)
      → l.fd (l.bk p) ≡ p
      → l.bk (l.fd p) ≡ p
      → a ≢ p
      → b ≢ p
      → Edge l a b
      → Edge (joined p l) a b
  Edge-joined_keep a b there back na nb (f, k) = (
    put_off l.fd (l.bk p) (l.fd p) a (λ e. nb (sym f ∙ ap l.fd e ∙ there)) ∙ f,
    put_off l.bk (l.fd p) (l.bk p) b (λ e. na (sym k ∙ ap l.bk e ∙ back)) ∙ k,
  )

  Edge-joined_new : (a b : ℕ) → Edge l a p → Edge l p b → Edge (joined p l) a b
  Edge-joined_new a b (f, k) (f', k') =
      (put_at l.fd (l.bk p) (l.fd p) a (sym k) ∙ f', put_at l.bk (l.fd p) (l.bk p) b (sym f') ∙ k)

  Seg-joined_keep :
      (a : ℕ) (xs : List ℕ) (b : ℕ)
      → l.fd (l.bk p) ≡ p
      → l.bk (l.fd p) ≡ p
      → a ≢ p
      → has p xs ≡ false
      → b ≢ p
      → Seg l a xs b
      → Seg (joined p l) a xs b
  unfolding Seg has
  Seg-joined_keep a [] b there back na out nb e = Edge-joined_keep a b there back na nb e
  Seg-joined_keep a (x ∷ xs) b there back na out nb (e, s) =
      let nx : x ≢ p = ne_from (ground arith) in
      (
        Edge-joined_keep a x there back na nx e,
        Seg-joined_keep x xs b there back nx (ground arith) nb s,
      )

  -- A segment starts with an edge.
  Seg-joined_drop :
      (a : ℕ) (xs : List ℕ) (b : ℕ)
      → l.fd (l.bk p) ≡ p
      → l.bk (l.fd p) ≡ p
      → has p xs ≡ false
      → b ≢ p
      → Edge l a p
      → Seg l p xs b
      → Seg (joined p l) a xs b
  unfolding Seg has
  Seg-joined_drop a [] b there back out nb e e' = Edge-joined_new a b e e'
  Seg-joined_drop a (x ∷ xs) b there back out nb e (e', s) = (
    Edge-joined_new a x e e',
    Seg-joined_keep x xs b there back (ne_from (ground arith)) (ground arith) nb s,
  )

  pub Seg-joined :
      (a : ℕ) (xs : List ℕ) (b : ℕ)
      → l.fd (l.bk p) ≡ p
      → l.bk (l.fd p) ≡ p
      → a ≢ p
      → has p xs ≡ true
      → distinct xs ≡ true
      → b ≢ p
      → Seg l a xs b
      → Seg (joined p l) a (without p xs) b
  unfolding Seg has distinct without
  Seg-joined a [] b there back na isin dist nb s = absurd (ground arith)
  Seg-joined a (x ∷ xs) b there back na isin dist nb (e, s) = elim (Bool-cases (x == p)) [
    | inl same ↦ rw same (
        Seg-joined_drop a xs b there back
          (subst (λ y. has y xs ≡ false) (eq_of same) (ground arith)) nb
          (subst (λ y. Edge l a y) (eq_of same) e) (subst (λ y. Seg l y xs b) (eq_of same) s))
    | inr other ↦ rw other (
      Edge-joined_keep a x there back na (ne_from other) e,
      Seg-joined x xs b there back (ne_from other) (ground arith) (ground arith) nb s,
    )
  ]

  -- What the neighbours of a chunk of a segment lead to.
  pub Seg-neighbours :
      (a : ℕ) (xs : List ℕ) (b : ℕ)
      → has p xs ≡ true
      → Seg l a xs b
      → (l.fd (l.bk p) ≡ p) × (l.bk (l.fd p) ≡ p)
  unfolding Seg has
  Seg-neighbours a [] b isin s = absurd (ground arith)
  Seg-neighbours a (x ∷ xs) b isin (e, s) = elim (Bool-cases (x == p)) [
    | inl same ↦
        subst (λ y. (l.fd (l.bk y) ≡ y) × (l.bk (l.fd y) ≡ y)) (eq_of same)
          (ap l.fd e.1 ∙ e.0, Seg-first l x xs b s)
    | inr other ↦ Seg-neighbours x xs b (ground arith) s
  ]
