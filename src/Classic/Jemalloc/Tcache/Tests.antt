-- ===== src/Classic/Jemalloc/Tcache/Tests.antt =====
-- A cache with one entry and a total of 4097.
use my_malloc.Prelude.{
  ℕ, ◌<◌, ◌≡◌, refl, none, List, [], ◌∷◌, arith, put, Bool-cases, ◌==◌, inl, inr,
}
use my_malloc.Classic.Jemalloc.Tcache.{JeTcache, je_tcache_new, je_tcache_alloc, gc}
use my_malloc.Classic.Jemalloc.Tcache.Stuck.{Call, alloc, free, calls, IsStuck, calls-gc}

abbrev busy : JeTcache
busy = record (je_tcache_new 0) {
  bins = put (je_tcache_new 0).bins 2 (record { stack = λ k. 4096; count = 1; low_water = 0 });
  total_count = 4097;
}

abbrev two_calls : List Call
two_calls = free 2 8192 ∷ alloc 2 ∷ []

busy_low : (i : ℕ) → i < 36 → (busy.bins i).low_water ≡ 0
busy_low i lt = elim (Bool-cases (2 == i)) [ inl same ↦ rw same refl | inr other ↦ rw other refl ]

calls-gc_example :
    IsStuck (calls two_calls (gc busy))
    × (je_tcache_alloc 2 (calls two_calls (gc busy)) ≡ (none, calls two_calls (gc busy)))
calls-gc_example = calls-gc two_calls busy 2 busy_low (omega arith) (omega arith)
