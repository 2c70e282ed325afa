-- ===== src/Classic/Tcmalloc/ThreadCache/Tests.antt =====
-- A cache with three nodes of the class of 16 bytes, above its low water, and a span of that class.
use my_malloc.Prelude.{
  put, ℕ, ◌≡◌, refl, Option, some, [], ◌∷◌, arith, subst, Bool-cases, inl, inr, ◌==◌, if◌then◌else◌,
  eq_of,
}
use my_malloc.Classic.Tcmalloc.Span.{zero_span}
use my_malloc.Classic.Tcmalloc.PageHeap.{initial_heap}
use my_malloc.Classic.Tcmalloc.Central.{initial_central}
use my_malloc.Classic.Tcmalloc.Central.Lost.{SameNodes}
use my_malloc.Classic.Tcmalloc.Central.Range.{IsList}
use my_malloc.Classic.Tcmalloc.ThreadCache.{Local, new_cache, store_of, scavenge, alloc, free}
use my_malloc.Classic.Tcmalloc.ThreadCache.Counts.{ClassFits, Fits}
use my_malloc.Classic.Tcmalloc.ThreadCache.Valid.{IsValid, free-IsValid}
use my_malloc.Classic.Tcmalloc.ThreadCache.Alloc.{alloc-IsValid}
use my_malloc.Classic.Tcmalloc.ThreadCache.Reuse.{scavenge-list}

abbrev three_nodes : Local
three_nodes = record {
  cache = record new_cache {
    list = put new_cache.list 1 (0x6030 ∷ 0x6020 ∷ 0x6010 ∷ []);
    count = put new_cache.count 1 3;
    max_count = put new_cache.max_count 1 4;
    low_water = put new_cache.low_water 1 1;
    allocated = 48;
  };
  central =
      λ i. if i == 1 then record { nonempty = 1; empty = 0; tc_length = 1 } else initial_central;
  heap = record initial_heap {
    next_span = 2;
    spans = put initial_heap.spans 1 (record zero_span { size_class = 1; freelist = 0x6000 ∷ [] });
  };
}

abbrev empty_list : Local
empty_list = record three_nodes { cache = new_cache }

empty_list-IsList : IsList (store_of 1 empty_list) (1 ∷ [])
empty_list-IsList = record {
  chain = (refl, omega arith, tt, refl);
  head = λ ne. refl;
  apart = (omega arith, tt);
}

new_cache-ClassFits : Fits [] 0 2 0
new_cache-ClassFits = record {
  counted = refl;
  few = omega arith;
  low_bound = omega arith;
  some_room = omega arith;
  max_bound = omega arith;
}

empty_list-IsValid : IsValid empty_list.cache
empty_list-IsValid i lt = new_cache-ClassFits

three_nodes-IsValid : IsValid three_nodes.cache
three_nodes-IsValid i lt = elim (Bool-cases (1 == i)) [
  | inl same ↦ subst (ClassFits three_nodes.cache) (eq_of same) (record {
    counted = refl;
    few = omega arith;
    low_bound = omega arith;
    some_room = omega arith;
    max_bound = omega arith;
  })
  | inr other ↦ rw other new_cache-ClassFits
]

free-IsValid_example : IsValid (free 1 0x6040 three_nodes).1.cache
free-IsValid_example = free-IsValid 1 0x6040 three_nodes three_nodes-IsValid

scavenge-list_example :
    ((scavenge three_nodes).cache.list 1 ≡ 0x6010 ∷ [])
    × SameNodes three_nodes.heap (scavenge three_nodes).heap
scavenge-list_example = scavenge-list 1 three_nodes (omega arith)

alloc-IsValid_example :
    (r : Option ℕ) × (l' : Local) × (alloc 1 empty_list ≡ some (r, l'))
    × IsValid l'.cache
    × (r ≡ some 0x6000)
alloc-IsValid_example =
    alloc-IsValid 1 (1 ∷ []) empty_list (omega arith) empty_list-IsValid empty_list-IsList
      (omega arith)
