-- ===== src/Classic/Tcmalloc/Central/Tests.antt =====
-- A list of one span with two nodes.
use my_malloc.Prelude.{put, ℕ, ◌≡◌, refl, some, List, [], ◌∷◌, arith}
use my_malloc.Classic.Tcmalloc.Span.{zero_span}
use my_malloc.Classic.Tcmalloc.PageHeap.{initial_heap}
use my_malloc.Classic.Tcmalloc.Central.{Store, remove_range}
use my_malloc.Classic.Tcmalloc.Central.Range.{IsList, Removed}
use my_malloc.Classic.Tcmalloc.Central.Removal.{remove_range-Removed}

abbrev one_span : Store
one_span = record {
  central = record { nonempty = 1; empty = 0; tc_length = 1 };
  heap = record initial_heap {
    next_span = 2;
    spans = put initial_heap.spans 1 (record zero_span { freelist = 0x6010 ∷ 0x6000 ∷ [] });
  };
}

one_span-IsList : IsList one_span (1 ∷ [])
one_span-IsList = record {
  chain = (refl, omega arith, tt, refl);
  head = λ ne. refl;
  apart = (omega arith, tt);
}

remove_range-Removed_example :
    (taken : List ℕ) × (c' : Store) × (remove_range 1 one_span ≡ some (taken, c'))
    × Removed 1 (1 ∷ []) one_span taken c'
remove_range-Removed_example =
    remove_range-Removed 1 (1 ∷ []) one_span one_span-IsList (omega arith)
