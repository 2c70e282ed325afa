-- ===== src/Classic/Tcmalloc/Central/Removal.antt =====
-- remove_range of classic/tcmalloc/central_freelist.cpp ends and takes the first nodes.
use my_malloc.Prelude.{
  List-cases, ℕ, zero, suc, ◌+◌, ◌-◌, ◌<◌, ◌≤◌, ◌≡◌, refl, sym, ◌∙◌, ap, inl, inr, Bool, true,
  false, ◌||◌, arith, some, List, [], ◌∷◌, ◌++◌, length, take, drop, ◌==◌, Bool-cases, ==_of, ne_of,
  eq_of,
}
use my_malloc.Classic.Tcmalloc.Central.{Store, remove_loop, remove_range, move_to_empty, take_nodes}
use my_malloc.Classic.Tcmalloc.Central.Chain.{all_nodes, take-append_short, all_nodes-outside}
use my_malloc.Classic.Tcmalloc.Central.Range.{
  IsList, Removed, take-nil, round_kept, round_moved, kept-Removed, both-outside, moved-IsList,
}

or_true : (a : Bool) → (a || true) ≡ true
or_true true = refl
or_true false = refl

-- Where no node is wanted, or no span has one.
stop-Removed :
    (rounds n p : ℕ) (xs : List ℕ) (c : Store)
    → IsList c xs
    → (take n (all_nodes c.heap xs) ≡ []) × (drop n (all_nodes c.heap xs) ≡ all_nodes c.heap xs)
    → (p == 0 || n == 0) ≡ true
    → (taken : List ℕ) × (c' : Store) × (remove_loop (suc rounds) p n c ≡ some (taken, c'))
      × Removed n xs c taken c'
unfolding remove_loop
stop-Removed rounds n p xs c list (first, rest) stop = (
  [],
  c,
  rw (stop, remove_loop) refl,
  record { taken_first = sym first; left_spans = xs; list = list; left_nodes = sym rest },
)

pub remove_loop-Removed :
    (rounds n : ℕ) (xs : List ℕ) (c : Store)
    → IsList c xs
    → length xs < rounds
    → (taken : List ℕ) × (c' : Store) × (remove_loop rounds c.central.nonempty n c
        ≡ some (taken, c'))
      × Removed n xs c taken c'
remove_loop-Removed zero n xs c list few = absurd (omega arith)
remove_loop-Removed (suc rounds) n [] c list few =
    stop-Removed rounds n c.central.nonempty [] c list (take-nil n) (rw (==_of list.chain) refl)
remove_loop-Removed (suc rounds) n (x ∷ xs) c list few = elim (Bool-cases (n == 0)) [
  | inl e ↦
      stop-Removed rounds n c.central.nonempty (x ∷ xs) c list
        (rw (eq_of e) refl, rw (eq_of e) refl) (rw e (or_true _))
  | inr wanted ↦
      let f = (c.heap.spans x).freelist in
      let (at, pos, fresh, rest) = list.chain in
      elim (List-cases (drop n f)) [
        | inr (z, zs, e) ↦ (
          take n f,
          _,
          ap (λ (p : ℕ). remove_loop (suc rounds) p n c) at
              ∙ round_kept rounds n c x at pos wanted z zs e,
          kept-Removed rounds n c x at pos wanted xs z zs list e,
        )
        | inl e ↦
            let n' = n - length (take n f) in
            let c1 = take_nodes x (take n f) [] c in
            let c2 = move_to_empty x c1 in
            let (more, c3, ran, rest_removed) =
              remove_loop-Removed rounds n' xs c2 (moved-IsList rounds n c x at pos wanted xs list)
                (omega arith) in
            let same =
              all_nodes-outside x c.heap c2.heap xs
                (both-outside rounds n c x at pos wanted xs list) fresh in
            let split = take-append_short n f (all_nodes c.heap xs) e in
            (
              take n f ++ more,
              c3,
              ap (λ (p : ℕ). remove_loop (suc rounds) p n c) at
                  ∙ round_moved rounds n c x at pos wanted e more c3 ran,
              record {
                taken_first =
                    ap (λ (zs : List ℕ). take n f ++ zs)
                      (rest_removed.taken_first ∙ ap (take n') same)
                    ∙ sym split.0;
                left_spans = rest_removed.left_spans;
                list = rest_removed.list;
                left_nodes = rest_removed.left_nodes ∙ ap (drop n') same ∙ sym split.1;
              },
            )
      ]
]

-- Where the spans with nodes are on a list without repetitions, apart from the head of the list of the
-- others, and are no more than the objects of the heap, remove_range n ends; it takes the first n nodes
-- of the chains in their order, all of them where there are fewer; and the nodes that it leaves are the
-- others, in order, on a list of the same kind.
pub remove_range-Removed :
    (n : ℕ) (xs : List ℕ) (c : Store)
    → IsList c xs
    → length xs ≤ c.heap.next_span
    → (taken : List ℕ) × (c' : Store) × (remove_range n c ≡ some (taken, c'))
      × Removed n xs c taken c'
unfolding remove_range
remove_range-Removed n [] c list few = (
  [],
  c,
  rw (==_of list.chain, remove_range) refl,
  record {
    taken_first = sym (take-nil n).0;
    left_spans = [];
    list = list;
    left_nodes = sym (take-nil n).1;
  },
)
remove_range-Removed n (x ∷ xs) c list few =
    let (at, pos, fresh, rest) = list.chain in
    let (taken, c', ran, removed) =
      remove_loop-Removed (c.heap.next_span + 1) n (x ∷ xs) c list (omega arith) in
    (
      taken,
      c',
      rw (ne_of (λ (z : c.central.nonempty ≡ 0). pos (sym at ∙ z)), remove_range) ran,
      removed,
    )
