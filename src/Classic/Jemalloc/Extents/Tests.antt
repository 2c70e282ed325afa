-- ===== src/Classic/Jemalloc/Extents/Tests.antt =====
-- An extent of three pages at 1 MiB, and the page before it.
use my_malloc.Prelude.{ℕ, ◌≡◌, refl, Option, some, List, arith}
use my_malloc.Classic.Tcmalloc.PageHeap.{Mapping}
use my_malloc.Classic.Jemalloc.Extents.{Extents, no_extents, rtree_get, extent_alloc, extent_free}
use my_malloc.Classic.Jemalloc.Extents.Pages.{extent_free-extent_alloc}

abbrev first_mib : List Mapping → (size : ℕ) → Option ℕ
first_mib ms size = some 0x100000

extent_free-extent_alloc_example :
    (e1 : Extents) × (extent_alloc first_mib 3 no_extents ≡ some (1, e1))
    × (rtree_get 0x102000 e1.slots ≡ 1)
    × (rtree_get 0x102000 (extent_free 1 e1).slots ≡ 0)
    × (rtree_get 0xff000 e1.slots ≡ rtree_get 0xff000 no_extents.slots)
    × (rtree_get 0xff000 (extent_free 1 e1).slots ≡ rtree_get 0xff000 no_extents.slots)
extent_free-extent_alloc_example =
    extent_free-extent_alloc first_mib 3 0x100000 2 0xff000 no_extents refl refl (omega arith)
      (omega arith) (omega arith) (λ k lt e. absurd (omega (arith, e)))
