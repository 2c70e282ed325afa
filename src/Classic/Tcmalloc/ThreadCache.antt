-- ===== src/Classic/Tcmalloc/ThreadCache.antt =====
-- classic/tcmalloc/thread_cache.cpp: the free objects that a thread keeps, by size class.
pub mod Counts
pub mod Valid
pub mod Alloc
pub mod Reuse
mod Tests
use my_malloc.Prelude.{
  put, ℕ, zero, suc, ◌+◌, ◌-◌, ◌*◌, ◌/◌, ◌%◌, ◌^◌, ◌≡◌, Bool, true, false, Option, none, some, List,
  [], ◌∷◌, ◌++◌, length, take, drop, ltb, leb, ◌==◌, if◌then◌else◌, word,
}
use my_malloc.Classic.Tcmalloc.SizeClasses.{k_num_classes, class_to_size, num_to_move}
use my_malloc.Classic.Tcmalloc.PageHeap.{PageHeap}
use my_malloc.Classic.Tcmalloc.Central.{CentralFreeList, Store, remove_range, insert_range}

pub record ThreadCache : Type 0 where
  pub list : ℕ → List ℕ
  pub count : ℕ → ℕ
  pub max_count : ℕ → ℕ
  pub low_water : ℕ → ℕ
  pub allocated : ℕ
  pub max_allocated : ℕ

abbrev pub new_cache : ThreadCache
new_cache = record {
  list = λ i. [];
  count = λ i. 0;
  max_count = λ i. 2;
  low_water = λ i. 0;
  allocated = 0;
  max_allocated = 4 * 1024 * 1024;
}

-- A thread's cache with what all threads share: g_central and the heap of its spans.
pub record Local : Type 0 where
  pub cache : ThreadCache
  pub central : ℕ → CentralFreeList
  pub heap : PageHeap

-- The part that a call of the list of class i works on, and its result put back.
abbrev pub store_of : (i : ℕ) → Local → Store
store_of i l = record { central = l.central i; heap = l.heap }

abbrev pub with_store : (i : ℕ) → Store → Local → Local
with_store i c l = record l { central = put l.central i c.central; heap = c.heap }

unfoldable pub update_capacity : (class_idx : ℕ) → ThreadCache → ThreadCache
update_capacity i t =
    let doubled = t.max_count i * 2 % word in
    let max =
      if leb (t.max_count i * 3 % word / 4) (t.count i)
      then if ltb 8192 doubled then 8192 else doubled
      else t.max_count i in
    record t { max_count = put t.max_count i max; low_water = put t.low_water i (max / 4) }

-- The nodes that came from the central list go before those of the cache.
unfoldable pub prepend : (class_idx : ℕ) → (nodes : List ℕ) → ThreadCache → ThreadCache
unfolding update_capacity
prepend i nodes t = update_capacity i (record t {
  list = put t.list i (nodes ++ t.list i);
  count = put t.count i ((t.count i + length nodes) % word);
})

abbrev pub batch : (class_idx : ℕ) → ThreadCache → ℕ
batch i t = if ltb (t.max_count i) (num_to_move i) then num_to_move i else t.max_count i

-- What refill makes of the nodes.
abbrev pub received : (class_idx : ℕ) → (nodes : List ℕ) → ThreadCache → ThreadCache
received i [] t = t
received i (node ∷ nodes) t = prepend i (node ∷ nodes) t

-- `none` where remove_range does not end.
unfoldable pub refill : (class_idx : ℕ) → Local → Option Local
refill i l = elim (remove_range (batch i l.cache) (store_of i l)) [
  | none ↦ none
  | some (nodes, c) ↦ some (with_store i c (record l { cache = received i nodes l.cache }))
]

-- The first node of the list leaves it.
unfoldable pub pop : (class_idx : ℕ) → (rest : List ℕ) → ThreadCache → ThreadCache
pop i rest t = record t {
  list = put t.list i rest;
  count = put t.count i ((t.count i + (word - 1)) % word);
  allocated = (t.allocated + (word - class_to_size i)) % word;
}

-- The node that is handed out, if there is one.
abbrev pub pop_list : (class_idx : ℕ) → (nodes : List ℕ) → Local → Option ℕ × Local
pop_list i [] l = (none, l)
pop_list i (node ∷ rest) l = (some node, record l { cache = pop i rest l.cache })

unfoldable pub alloc : (class_idx : ℕ) → Local → Option (Option ℕ × Local)
alloc i l = elim (leb k_num_classes i) [
  | true ↦ some (none, l)
  | false ↦ elim (l.cache.list i) [
    | node ∷ rest ↦ some (some node, record l { cache = pop i rest l.cache })
    | [] ↦ elim (refill i l) [ none ↦ none | some l1 ↦ some (pop_list i (l1.cache.list i) l1) ]
  ]
]

-- The round of scavenge for the class i: the first nodes above the low water go back.
unfoldable pub scavenge_class : (i : ℕ) → Local → Local
scavenge_class i l =
    let t = l.cache in
    let to_return = t.count i - t.low_water i in
    let c = insert_range (take to_return (t.list i)) (store_of i l) in
    if ltb (t.low_water i) (t.count i)
    then with_store i c (record l {
      cache = record t {
        list = put t.list i (drop to_return (t.list i));
        count = put t.count i (t.count i - to_return);
      };
    })
    else l

-- The rounds from the class i on, with the classes that are left.
pub scavenge_from : (i left : ℕ) → Local → Local
scavenge_from i zero l = l
scavenge_from i (suc left) l = scavenge_from (i + 1) left (scavenge_class i l)

unfoldable pub scavenge : Local → Local
scavenge l =
    let l1 = scavenge_from 0 k_num_classes l in
    record l1 { cache = record l1.cache { allocated = 0 } }

unfoldable pub push : (class_idx ptr : ℕ) → ThreadCache → ThreadCache
push i ptr t = record t {
  list = put t.list i (ptr ∷ t.list i);
  count = put t.count i ((t.count i + 1) % word);
  allocated = (t.allocated + class_to_size i) % word;
}

abbrev pub relieved : (class_idx : ℕ) → Local → Local
relieved i l = if leb (l.cache.max_count i) (l.cache.count i) then scavenge l else l

unfoldable pub free : (class_idx ptr : ℕ) → Local → Bool × Local
free i ptr l =
    let l1 = relieved i l in
    let l2 : Local = record l1 { cache = push i ptr l1.cache } in
    if leb k_num_classes i
    then (false, l)
    else (true, if ltb l2.cache.max_allocated l2.cache.allocated then scavenge l2 else l2)
