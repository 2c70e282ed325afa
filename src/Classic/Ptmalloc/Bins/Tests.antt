-- ===== src/Classic/Ptmalloc/Bins/Tests.antt =====
-- The bins of classic/ptmalloc/bins.cpp on concrete chunks.
use my_malloc.Prelude.{
  ℕ, ◌+◌, ◌<◌, ◌≡◌, ◌↔◌, refl, inl, inr, arith, not, ◌&&◌, ◌||◌, List, [], ◌∷◌, ◌==◌, if◌then◌else◌,
  Bool-cases,
}
use my_malloc.Classic.Ptmalloc.Chunk.{Chunks}
use my_malloc.Classic.Ptmalloc.Links.{init}
use my_malloc.Classic.Ptmalloc.Links.Ring.{has, IsRing}
use my_malloc.Classic.Ptmalloc.Bins.{Bins, as_chunk, init_bins, init_all}
use my_malloc.Classic.Ptmalloc.Bins.LargeIndex.{n_bins, max_sizes, large_bin, largebin_index}
use my_malloc.Classic.Ptmalloc.Bins.Ranges.{Scanned, largebin_index_lem}
use my_malloc.Classic.Ptmalloc.Bins.Queue.{
  Op, put_chunk, take_chunk, run, run_queue, AllNew, newer, oldest, run-Refines,
}
use my_malloc.Classic.Ptmalloc.Bins.Search.{contains_free_chunk, free_chunk_count}
use my_malloc.Classic.Ptmalloc.Bins.Lists.{Chain, Holds, in_lists, total, contains_free_chunk_lem}
use my_malloc.Classic.Ptmalloc.Bins.Split.{fault, alloc_split}
use my_malloc.Classic.Ptmalloc.Bins.PastEnd.{init_all-IsRing, alloc_split-fault}

abbrev start : Bins
start = record {
  at = 4096;
  fast = λ i. 0;
  links = record { fd = λ a. 0; bk = λ a. 0 };
  binmap = λ i. 0;
}

abbrev memory : Chunks
memory = λ a. record { prev_size = 0; size = 1041 }

largebin_index_example :
    Scanned 2000 0 max_sizes (largebin_index 2000)
    × ((large_bin (largebin_index 2000) < n_bins) ↔ (2000 < 458752))
largebin_index_example = largebin_index_lem 2000

fault_example : alloc_split 5 2000 1 (init_all start) memory ≡ fault
fault_example = alloc_split-fault 4 2000 1 start memory

-- Two chunks go into the small bin 0, and three are asked for.
abbrev ops : List Op
ops = put_chunk 1000 ∷ put_chunk 2000 ∷ take_chunk ∷ take_chunk ∷ take_chunk ∷ []

ops-AllNew : AllNew (as_chunk 2 (init_all start)) ops []
unfolding AllNew has newer init_all
ops-AllNew = (refl, (refl, tt))

queue_taken : (run_queue ops []).0 ≡ 1000 ∷ 2000 ∷ 0 ∷ []
unfolding run_queue newer oldest
queue_taken = refl

queue_example :
    ((run 0 ops (init_all start)).0 ≡ (run_queue ops []).0)
    × IsRing (run 0 ops (init_all start)).1.links (as_chunk 2 (init_all start)) (run_queue ops []).1
queue_example =
    run-Refines 0 ops (init_all start) [] (init_all-IsRing 2 start (omega arith)) ops-AllNew

-- The chunk 1000 alone in the first large bin.
abbrev swap : ℕ → ℕ
swap a = if a == 5216 then 1000 else if a == 1000 then 5216 else a

abbrev large : Bins
large = record start { links = record { fd = swap; bk = swap } }

abbrev one : ℕ → List ℕ
one i = if i == 0 then 1000 ∷ [] else []

-- The chunk 1000 alone in the first fastbin.
abbrev fast_one : ℕ → List ℕ
fast_one i = if i == 0 then 1000 ∷ [] else []

abbrev fast_bins : Bins
fast_bins = record (init_all start) { fast = λ i. if i == 0 then 1000 else 0 }

null_end : fast_bins.links.fd 1000 ≡ 0
unfolding init_all init_bins init
null_end = refl

fast_bins-Holds : Holds 2 fast_bins fast_one (λ i. [])
unfolding init_all Chain has
fast_bins-Holds = record {
  chain =
      λ i lt. elim (Bool-cases (i == 0)) [ inl e ↦ rw e (refl, null_end) | inr ne ↦ rw ne refl ];
  nonzero = λ i lt. ground arith;
  fast_fuel = λ i lt. ground arith;
  ring = λ i lt. init_all-IsRing i start lt;
  fuel_left = λ i lt. omega arith;
}

search_example :
    ((p : ℕ)
      → contains_free_chunk 2 p fast_bins
        ≡ (not (p == 0) && (in_lists 10 9 p fast_one || in_lists 127 127 p (λ i. []))))
    × (free_chunk_count 2 fast_bins ≡ total 10 9 fast_one + total 127 127 (λ i. []))
search_example = contains_free_chunk_lem 2 fast_bins fast_one (λ i. []) fast_bins-Holds
