-- ===== src/Classic/Tcmalloc/ThreadCache/Alloc.antt =====
-- alloc of classic/tcmalloc/thread_cache.cpp hands out the first node at hand.
use my_malloc.Prelude.{
  List-cases, ℕ, zero, suc, ◌<◌, ◌≤◌, ◌≡◌, refl, ◌∙◌, ap, inl, inr, true, false, arith, Option,
  none, some, List, [], ◌∷◌, ◌++◌, length, length-take, take, leb, ◌==◌, eq_of, all_below,
  all_below_at,
}
use my_malloc.Classic.Tcmalloc.SizeClasses.{num_to_move}
use my_malloc.Classic.Tcmalloc.PageHeap.Valid.{put_same}
use my_malloc.Classic.Tcmalloc.Central.{Store, remove_range}
use my_malloc.Classic.Tcmalloc.Central.Chain.{all_nodes}
use my_malloc.Classic.Tcmalloc.Central.Range.{IsList}
use my_malloc.Classic.Tcmalloc.Central.Removal.{remove_range-Removed}
use my_malloc.Classic.Tcmalloc.ThreadCache.{
  ThreadCache, Local, store_of, with_store, batch, received, refill, prepend, pop_list, alloc,
  update_capacity,
}
use my_malloc.Classic.Tcmalloc.ThreadCache.Counts.{ClassFits, pop-Fits, prepend-Fits}
use my_malloc.Classic.Tcmalloc.ThreadCache.Valid.{IsValid}

abbrev pub first : List ℕ → Option ℕ
first [] = none
first (x ∷ xs) = some x

moves_32 : all_below (λ i. num_to_move i == 32) 86 ≡ true
unfolding all_below num_to_move
moves_32 = refl

batch_bounds :
    (i : ℕ) (t : ThreadCache) → i < 86 → ClassFits t i → (1 ≤ batch i t) × (batch i t ≤ 8192)
batch_bounds i t lt at =
    let moves : num_to_move i ≡ 32 = eq_of (all_below_at _ 86 i moves_32 lt) in
    ground (arith, moves)

prepend-list :
    (i : ℕ) (nodes : List ℕ) (t : ThreadCache) → (prepend i nodes t).list i ≡ nodes ++ t.list i
unfolding prepend update_capacity
prepend-list i nodes t = put_same t.list i (nodes ++ t.list i)

append_nil : (xs : List ℕ) → xs ++ [] ≡ xs
append_nil [] = refl
append_nil (x ∷ xs) = ap (λ (ys : List ℕ). x ∷ ys) (append_nil xs)

first-take : (n : ℕ) (xs : List ℕ) → 1 ≤ n → first (take n xs) ≡ first xs
first-take zero xs le = absurd (omega arith)
first-take (suc n) [] le = refl
first-take (suc n) (x ∷ xs) le = refl

-- After a refill of an empty list.
received-IsValid :
    (i : ℕ) (t : ThreadCache) (nodes : List ℕ)
    → IsValid t
    → i < 86
    → t.list i ≡ []
    → length nodes ≤ 8192
    → IsValid (received i nodes t) × ((received i nodes t).list i ≡ nodes)
received-IsValid i t [] valid lt empty few = (valid, empty)
received-IsValid i t (node ∷ nodes) valid lt empty few =
    let none_yet : t.count i ≡ 0 = (valid i lt).counted ∙ ap length empty in
    (
      λ j below. prepend-Fits i j t (node ∷ nodes) (valid j below) (omega (arith, none_yet)),
      prepend-list i (node ∷ nodes) t
          ∙ ap (λ (zs : List ℕ). (node ∷ nodes) ++ zs) empty
          ∙ append_nil (node ∷ nodes),
    )

pop_list-IsValid :
    (i : ℕ) (nodes : List ℕ) (l : Local)
    → IsValid l.cache
    → l.cache.list i ≡ nodes
    → IsValid (pop_list i nodes l).1.cache × ((pop_list i nodes l).0 ≡ first nodes)
pop_list-IsValid i [] l valid e = (valid, refl)
pop_list-IsValid i (node ∷ rest) l valid e =
    (λ j below. pop-Fits i j l.cache (valid j below) node rest e, refl)

refilled :
    (i : ℕ) (l : Local) (taken : List ℕ) (c : Store)
    → remove_range (batch i l.cache) (store_of i l) ≡ some (taken, c)
    → refill i l ≡ some (with_store i c (record l { cache = received i taken l.cache }))
unfolding refill
refilled i l taken c ran = rw (ran, refill) refl

-- With the spans of the class on a list, alloc ends; it hands out the first node of the thread's list,
-- or where that is empty the first one in the chains of the central list, and nothing only where these
-- are empty too. The cache is valid afterwards.
pub alloc-IsValid :
    (i : ℕ) (xs : List ℕ) (l : Local)
    → i < 86
    → IsValid l.cache
    → IsList (store_of i l) xs
    → length xs ≤ l.heap.next_span
    → (r : Option ℕ) × (l' : Local) × (alloc i l ≡ some (r, l'))
      × IsValid l'.cache
      × (r ≡ first (l.cache.list i ++ all_nodes l.heap xs))
unfolding alloc
alloc-IsValid i xs l lt valid list few =
    let inside : leb 86 i ≡ false = ground arith in
    elim (List-cases (l.cache.list i)) [
      | inr (node, rest, e) ↦
          let popped = pop_list-IsValid i (node ∷ rest) l valid e in
          (
            some node,
            (pop_list i (node ∷ rest) l).1,
            rw (inside, alloc, e) refl,
            popped.0,
            rw e refl,
          )
      | inl e ↦
          let n = batch i l.cache in
          let (taken, c, ran, removed) = remove_range-Removed n xs (store_of i l) list few in
          let (above, below) = batch_bounds i l.cache lt (valid i lt) in
          let short : length taken ≤ 8192 =
            omega (arith, ap length removed.taken_first, length-take n (all_nodes l.heap xs)) in
          let l1 : Local = with_store i c (record l { cache = received i taken l.cache }) in
          let (valid1, list1) = received-IsValid i l.cache taken valid lt e short in
          let (valid2, given) = pop_list-IsValid i taken l1 valid1 list1 in
          (
            first taken,
            (pop_list i taken l1).1,
            rw (inside, alloc, e)
                (rw (refilled i l taken c ran) (
                  ap (λ (zs : List ℕ). some (pop_list i zs l1)) list1
                  ∙ ap (λ (r : Option ℕ). some (r, (pop_list i taken l1).1)) given)),
            valid2,
            rw e (ap first removed.taken_first ∙ first-take n (all_nodes l.heap xs) above),
          )
    ]
