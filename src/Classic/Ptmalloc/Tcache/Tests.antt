-- ===== src/Classic/Ptmalloc/Tcache/Tests.antt =====
-- A chunk of 48 bytes at 4096, whose user writes 7 into the second word of the block.
use my_malloc.Prelude.{ℕ, ◌≡◌, refl, arith, some, ◌==◌, if◌then◌else◌}
use my_malloc.Classic.Ptmalloc.Chunk.{Chunks}
use my_malloc.Classic.Ptmalloc.Tcache.{
  Tcache, new_tcache, tcache_alloc, pt_free_cached, cached, double_free,
}
use my_malloc.Classic.Ptmalloc.Tcache.FalseDouble.{IsCached, write_word, pt_free_cached_lem}

abbrev one_chunk : Chunks
one_chunk p = record { prev_size = 0; size = if p == 4096 then 49 else 0 }

abbrev no_entries : Tcache
no_entries = new_tcache (λ a. 0)

pt_free_cached_lem_example :
    (t1 : Tcache) × (t2 : Tcache) × (pt_free_cached 4144 one_chunk (some no_entries) ≡ cached t1)
    × IsCached 1 4144 no_entries t1
    × (pt_free_cached 4144 one_chunk (some t1) ≡ double_free)
    × (tcache_alloc 1 t1 ≡ (some 4144, t2))
    × ((i : ℕ) → t2.bins i ≡ no_entries.bins i)
    × (pt_free_cached 4144 one_chunk (some (write_word 4144 7 t2)) ≡ double_free)
pt_free_cached_lem_example =
    pt_free_cached_lem 4096 48 7 one_chunk no_entries (omega arith) refl refl (omega arith)
      (omega arith) refl (omega arith) refl (λ e. omega (arith, e)) (λ e. omega (arith, e))
