-- ===== src/Classic/Ptmalloc/Bins/PastEnd.antt =====
-- alloc_split of classic/ptmalloc/bins.cpp where no large bin holds a chunk.
use my_malloc.Prelude.{
  ℕ, zero, suc, ◌<◌, ◌≡◌, ◌≢◌, refl, subst, sym, ◌∙◌, inl, inr, arith, [], ◌==◌, Bool-cases, eq_of,
  ne_of, eq_refl, if_true, if_false,
}
use my_malloc.Classic.Ptmalloc.Chunk.{Chunks}
use my_malloc.Classic.Ptmalloc.Links.{Links, init, empty}
use my_malloc.Classic.Ptmalloc.Links.Ring.{has, distinct, Seg, IsRing}
use my_malloc.Classic.Ptmalloc.Bins.{Bins, as_chunk, init_bins, init_all}
use my_malloc.Classic.Ptmalloc.Bins.LargeIndex.{large_bin}
use my_malloc.Classic.Ptmalloc.Bins.Split.{
  fault, best, past_bins, large_links, after_walk, split_from, alloc_split,
}
use my_malloc.Classic.Ptmalloc.Bins.Choice.{alloc_split-Chooses}

-- The words of a sentinel that init has been called on.
abbrev Looped : Links → ℕ → Type 0
Looped l s = (l.fd s ≡ s) × (l.bk s ≡ s)

init-Looped : (l : Links) (s s' : ℕ) → s ≢ s' → Looped l s' → Looped (init s l) s'
unfolding init
init-Looped l s s' ne (f, k) =
    (if_false s (l.fd s') (ne_of ne) ∙ f, if_false s (l.bk s') (ne_of ne) ∙ k)

init-Looped_self : (l : Links) (s : ℕ) → Looped (init s l) s
unfolding init
init-Looped_self l s = (if_true s (l.fd s) (eq_refl s), if_true s (l.bk s) (eq_refl s))

init_bins-Looped :
    (left i : ℕ) (b : Bins) (l : Links) → i < left → Looped (init_bins left b l) (as_chunk i b)
unfolding init_bins
init_bins-Looped zero i b l lt = absurd (omega (arith, lt))
init_bins-Looped (suc left) i b l lt = elim (Bool-cases (i == left)) [
  | inl e ↦
      subst (λ k. Looped (init (as_chunk left b) (init_bins left b l)) (as_chunk k b))
        (sym (eq_of e)) (init-Looped_self (init_bins left b l) (as_chunk left b))
  | inr ne ↦
      init-Looped (init_bins left b l) (as_chunk left b) (as_chunk i b)
        (λ e. absurd (ground (arith, e))) (init_bins-Looped left i b l (ground arith))
]

Looped-IsRing : (l : Links) (s : ℕ) → s ≢ 0 → Looped l s → IsRing l s []
unfolding Seg has distinct
Looped-IsRing l s pos loop = record { seg = loop; nonzero = ground arith; apart = refl }

-- Each of the 128 bins is an empty circular list after init.
pub init_all-IsRing :
    (i : ℕ) (b : Bins) → i < 128 → IsRing (init_all b).links (as_chunk i (init_all b)) []
unfolding init_all
init_all-IsRing i b lt =
    Looped-IsRing (init_all b).links (as_chunk i b) (omega arith)
      (init_bins-Looped 128 i b b.links lt)

-- With an empty bitmap, the words past the bins are no sentinel and lead to a null pointer.
split_from-fault :
    (fuel nb unsorted : ℕ) (b : Bins) (m : Chunks)
    → split_from 1 (suc fuel) nb unsorted (init_all b) m ≡ fault
unfolding split_from large_links past_bins init_all best after_walk empty
split_from-fault fuel nb unsorted b m = ground arith

-- On bins that init has just set up, alloc_split reads through a null pointer, for every size: no large
-- bin has a chunk, and the words behind bins_[127] are taken for one that has.
pub alloc_split-fault :
    (fuel nb unsorted : ℕ) (b : Bins) (m : Chunks)
    → alloc_split (suc fuel) nb unsorted (init_all b) m ≡ fault
unfolding has
alloc_split-fault fuel nb unsorted b m =
    elim (alloc_split-Chooses (suc fuel) nb unsorted (init_all b) m (λ i. []) rings) [
      | inl t ↦ absurd (ground (arith, t.isin))
      | inr (small, e) ↦ e ∙ split_from-fault fuel nb unsorted b m
    ]
  where
    rings :
        (i : ℕ)
        → i < 62
        → IsRing (init_all b).links (as_chunk (large_bin i) (init_all b)) [] × (0 < suc fuel)
    rings i lt = (init_all-IsRing (large_bin i) b (omega (arith, lt)), omega arith)
