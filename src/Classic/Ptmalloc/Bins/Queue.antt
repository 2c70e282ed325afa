-- ===== src/Classic/Ptmalloc/Bins/Queue.antt =====
-- A small bin of classic/ptmalloc/bins.cpp between push_front, with mark_bin as in pt_malloc, and alloc.
use my_malloc.Prelude.{
  ℕ, ◌+◌, ◌*◌, ◌/◌, ◌%◌, ◌≡◌, refl, subst, sym, ◌∙◌, ap, inl, inr, arith, true, false, ◌&&◌, List,
  [], ◌∷◌, ◌==◌, Bool-cases, ne_of, if_true, if_false, ltb,
}
use my_malloc.Classic.Ptmalloc.Links.{Links, empty, push_front, unlink}
use my_malloc.Classic.Ptmalloc.Links.Ring.{has, distinct, without, Seg, IsRing}
use my_malloc.Classic.Ptmalloc.Links.Push.{push_front-IsRing}
use my_malloc.Classic.Ptmalloc.Links.Unlink.{unlink-IsRing}
use my_malloc.Classic.Ptmalloc.Bins.{
  Bins, as_chunk, bin_empty, mark_bin, unmark_bin, n_bins, marked,
}
use my_malloc.Classic.Ptmalloc.Bins.Split.{alloc}

pub data Op : Type 0 where
  put_chunk : (p : ℕ) → Op
  take_chunk : Op

-- The chunks that the calls return, and the bins after them.
unfoldable pub run : (idx : ℕ) → List Op → Bins → List ℕ × Bins
run idx [] b = ([], b)
run idx (put_chunk p ∷ ops) b =
    run idx ops
      (mark_bin (2 + idx) (record b { links = push_front (as_chunk (2 + idx) b) p b.links }))
run idx (take_chunk ∷ ops) b =
    let (p, b) = alloc idx b in let (taken, b) = run idx ops b in (p ∷ taken, b)

-- The first chunk put into a queue, 0 for none, and the queue without it.
unfoldable pub oldest : List ℕ → ℕ
oldest [] = 0
oldest (x ∷ []) = x
oldest (x ∷ y ∷ xs) = oldest (y ∷ xs)

unfoldable pub newer : List ℕ → List ℕ
newer [] = []
newer (x ∷ []) = []
newer (x ∷ y ∷ xs) = x ∷ newer (y ∷ xs)

unfoldable pub run_queue : List Op → List ℕ → List ℕ × List ℕ
run_queue [] xs = ([], xs)
run_queue (put_chunk p ∷ ops) xs = run_queue ops (p ∷ xs)
run_queue (take_chunk ∷ ops) xs =
    let (taken, rest) = run_queue ops (newer xs) in (oldest xs ∷ taken, rest)

-- No call puts a chunk that is in the queue, the sentinel or the null pointer.
unfoldable pub AllNew : (sentinel : ℕ) → List Op → List ℕ → Type 0
AllNew s [] xs = Unit {0}
AllNew s (put_chunk p ∷ ops) xs = (has p (0 ∷ s ∷ xs) ≡ false) × AllNew s ops (p ∷ xs)
AllNew s (take_chunk ∷ ops) xs = AllNew s ops (newer xs)

Seg-oldest :
    (l : Links) (a x : ℕ) (xs : List ℕ) (b : ℕ) → Seg l a (x ∷ xs) b → l.bk b ≡ oldest (x ∷ xs)
unfolding Seg oldest
Seg-oldest l a x [] b (e, e') = e'.1
Seg-oldest l a x (y ∷ xs) b (e, s) = Seg-oldest l x y xs b s

has-oldest : (x : ℕ) (xs : List ℕ) → has (oldest (x ∷ xs)) (x ∷ xs) ≡ true
unfolding has oldest
has-oldest x [] = ground arith
has-oldest x (y ∷ xs) = ground (arith, has-oldest y xs)

without-oldest :
    (x : ℕ) (xs : List ℕ)
    → distinct (x ∷ xs) ≡ true
    → without (oldest (x ∷ xs)) (x ∷ xs) ≡ newer (x ∷ xs)
unfolding without oldest newer distinct has
without-oldest x [] apart = ground arith
without-oldest x (y ∷ xs) apart =
    let isin = has-oldest y xs in
    let ne : (x == oldest (y ∷ xs)) ≡ false =
      ne_of λ e. absurd (ground (arith, subst (λ z. has z (y ∷ xs) ≡ true) (sym e) isin)) in
    if_false (y ∷ xs) (x ∷ without (oldest (y ∷ xs)) (y ∷ xs)) ne
    ∙ ap (λ zs. x ∷ zs) (without-oldest y xs (ground arith))

-- The bitmap aside, unmark_bin changes nothing.
unmark_bin-links :
    (i : ℕ) (b : Bins) → ((unmark_bin i b).links ≡ b.links) × ((unmark_bin i b).at ≡ b.at)
unfolding unmark_bin
unmark_bin-links i b = elim (Bool-cases (ltb i n_bins && bin_empty i b)) [
  | inl e ↦ elim (Bool-cases (marked b.binmap (i / 32) (i % 32))) [
    | inl e' ↦ rw (e, e') (refl, refl)
    | inr e' ↦ rw (e, e') (refl, refl)
  ]
  | inr e ↦ rw e (refl, refl)
]

-- alloc takes the oldest chunk of a bin.
abbrev pub Allocated : (idx : ℕ) → Bins → List ℕ → ℕ × Bins → Type 0
Allocated idx b xs (p, b') =
    (p ≡ oldest xs) × (b'.at ≡ b.at) × IsRing b'.links (as_chunk (2 + idx) b) (newer xs)

-- What alloc does where its bin is not empty.
abbrev took : (idx p : ℕ) → Bins → ℕ × Bins
took idx p b = (p, unmark_bin (2 + idx) (record b { links = unlink p b.links }))

took-Allocated :
    (idx x : ℕ) (xs : List ℕ) (b : Bins)
    → IsRing b.links (as_chunk (2 + idx) b) (x ∷ xs)
    → Allocated idx b (x ∷ xs) (took idx (oldest (x ∷ xs)) b)
unfolding distinct
took-Allocated idx x xs b ring =
    let p = oldest (x ∷ xs) in
    let s = as_chunk (2 + idx) b in
    let unlinked = (unlink-IsRing b.links s p (x ∷ xs) ring (has-oldest x xs)).1 in
    let (same, still) = unmark_bin-links (2 + idx) (record b { links = unlink p b.links }) in
    (
      refl,
      still,
      subst (λ l. IsRing l s (newer (x ∷ xs))) (sym same)
          (subst (IsRing (unlink p b.links) s) (without-oldest x xs (ground (arith, ring.apart)))
            unlinked),
    )

pub alloc-IsRing :
    (idx : ℕ) (b : Bins) (xs : List ℕ)
    → IsRing b.links (as_chunk (2 + idx) b) xs
    → Allocated idx b xs (alloc idx b)
unfolding alloc bin_empty empty Seg oldest newer has distinct
alloc-IsRing idx b [] ring =
    let s = as_chunk (2 + idx) b in
    subst (Allocated idx b [])
      (sym (if_true (0, b) (took idx (b.links.bk s) b) (ground (arith, ring.seg))))
      (refl, refl, ring)
alloc-IsRing idx b (x ∷ xs) ring =
    let s = as_chunk (2 + idx) b in
    let last = Seg-oldest b.links s x xs s ring.seg in
    let isin = has-oldest x xs in
    let first : (b.links.fd s == s) ≡ false = ground (arith, ring.seg.0.0, ring.apart) in
    let other : (b.links.bk s == s) ≡ false = ne_of λ e.
      absurd (ground (arith, subst (λ z. has z (x ∷ xs) ≡ true) (sym last ∙ e) isin, ring.apart)) in
    subst (Allocated idx b (x ∷ xs))
      (sym (if_false (0, b) (took idx (b.links.bk s) b) (rw (first, other) refl)))
      (subst (λ p. Allocated idx b (x ∷ xs) (took idx p b)) (sym last)
        (took-Allocated idx x xs b ring))

-- Any calls of push_front with new chunks and of alloc on a small bin give the chunks that a queue gives,
-- the first one put in first, and leave the bin a circular list of what the queue is left with.
pub run-Refines :
    (idx : ℕ) (ops : List Op) (b : Bins) (xs : List ℕ)
    → IsRing b.links (as_chunk (2 + idx) b) xs
    → AllNew (as_chunk (2 + idx) b) ops xs
    → ((run idx ops b).0 ≡ (run_queue ops xs).0)
      × IsRing (run idx ops b).1.links (as_chunk (2 + idx) b) (run_queue ops xs).1
unfolding run run_queue AllNew mark_bin
run-Refines idx [] b xs ring new = (refl, ring)
run-Refines idx (put_chunk p ∷ ops) b xs ring (new, later) =
    run-Refines idx ops
      (mark_bin (2 + idx) (record b { links = push_front (as_chunk (2 + idx) b) p b.links }))
      (p ∷ xs) (push_front-IsRing b.links (as_chunk (2 + idx) b) p xs ring new) later
run-Refines idx (take_chunk ∷ ops) b xs ring new =
    let (got, still, ring') = alloc-IsRing idx b xs ring in
    let b' = (alloc idx b).1 in
    let same : as_chunk (2 + idx) b ≡ as_chunk (2 + idx) b' =
      ap (λ at. at + 64 + 16 * (2 + idx)) (sym still) in
    let (taken, left) =
      run-Refines idx ops b' (newer xs) (subst (λ s. IsRing b'.links s (newer xs)) same ring')
        (subst (λ s. AllNew s ops (newer xs)) same new) in
    (
      rw (got, taken) refl,
      subst (λ s. IsRing (run idx ops b').1.links s (run_queue ops (newer xs)).1) (sym same) left,
    )
