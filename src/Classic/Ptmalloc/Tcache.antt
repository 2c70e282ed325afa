-- ===== src/Classic/Ptmalloc/Tcache.antt =====
-- classic/ptmalloc/tcache.cpp and tcache.h: the free chunks that a thread keeps, by size, and what pt_free
-- of classic/ptmalloc/ptmalloc.cpp does with them. A bin is the list of its entries, which are the user
-- addresses of chunks; the key of an entry is the second word of the user's bytes.
pub mod Bins
pub mod FalseDouble
mod Tests
use my_malloc.Prelude.{
  ℕ, zero, suc, ◌+◌, ◌-◌, ◌%◌, ◌^◌, Bool, true, false, not, Option, none, some, List, [], ◌∷◌, ltb,
  leb, ◌==◌, if◌then◌else◌, put,
}
use my_malloc.Classic.Ptmalloc.Chunk.{
  Chunks, minsize, tcache_max_bins, chunk_size, is_mmapped, user_data, from_user_ptr, csize2tidx,
  in_tcache_range,
}

abbrev pub tcache_fill_count : ℕ
tcache_fill_count = 7

-- The bins of a thread, with the words at chunk_key.
pub record Tcache : Type 0 where
  pub bins : ℕ → List ℕ
  pub count : ℕ → ℕ
  pub chunk_key : ℕ → ℕ

abbrev pub new_tcache : (memory : ℕ → ℕ) → Tcache
new_tcache memory = record { bins = λ i. []; count = λ i. 0; chunk_key = memory }

-- Memory for the bins comes from aligned_alloc, if it gives any.
abbrev pub tcache_init : (aligned_alloc : Bool) (memory : ℕ → ℕ) → Option Tcache → Option Tcache
tcache_init aligned_alloc memory (some t) = some t
tcache_init true memory none = some (new_tcache memory)
tcache_init false memory none = none

-- The first entry leaves its bin.
unfoldable pub take_entry : (idx e : ℕ) → (rest : List ℕ) → Tcache → Tcache
take_entry idx e rest t = record {
  bins = put t.bins idx rest;
  count = put t.count idx ((t.count idx + (2 ^ 32 - 1)) % 2 ^ 32);
  chunk_key = put t.chunk_key e 0;
}

unfoldable pub tcache_alloc : (idx : ℕ) → Tcache → Option ℕ × Tcache
unfolding take_entry
tcache_alloc idx t = elim (leb tcache_max_bins idx) [
  | true ↦ (none, t)
  | false ↦ elim (t.bins idx) [
    | [] ↦ (none, t)
    | e ∷ rest ↦ (some (user_data (from_user_ptr e)), take_entry idx e rest t)
  ]
]

unfoldable pub put_entry : (idx chunk : ℕ) → Tcache → Tcache
put_entry idx chunk t = record {
  bins = put t.bins idx (user_data chunk ∷ t.bins idx);
  count = put t.count idx ((t.count idx + 1) % 2 ^ 32);
  chunk_key = put t.chunk_key (user_data chunk) chunk;
}

unfoldable pub tcache_free : (idx chunk : ℕ) → Tcache → Bool × Tcache
unfolding put_entry
tcache_free idx chunk t =
    if leb tcache_max_bins idx
    then (false, t)
    else if leb tcache_fill_count (t.count idx)
    then (false, t)
    else (true, put_entry idx chunk t)

-- The loop that clears the keys of a list.
pub clear_keys : List ℕ → (ℕ → ℕ) → ℕ → ℕ
clear_keys [] keys = keys
clear_keys (e ∷ rest) keys = clear_keys rest (put keys e 0)

unfoldable pub flush : (idx : ℕ) → Tcache → List ℕ × Tcache
unfolding clear_keys
flush idx t = if leb tcache_max_bins idx then ([], t) else (
  t.bins idx,
  record {
    bins = put t.bins idx [];
    count = put t.count idx 0;
    chunk_key = clear_keys (t.bins idx) t.chunk_key;
  },
)

abbrev pub is_double_free : (e : ℕ) → Tcache → Bool
is_double_free e t = not (t.chunk_key e == 0)

-- The sum over the bins from i on, with the bins that are left.
pub sum_counts : (i left : ℕ) → Tcache → ℕ
sum_counts i zero t = 0
sum_counts i (suc left) t = t.count i + sum_counts (i + 1) left t

unfoldable pub total_count : Tcache → ℕ
unfolding sum_counts
total_count t = sum_counts 0 tcache_max_bins t

-- What the first part of pt_free does: the call ends, or goes on with the bins of the arena. An mmapped
-- chunk is handed to the system. A thread without bins has `none`.
pub data Freed : Type 0 where
  ignored : Freed
  corrupt : Freed
  unmapped : Freed
  double_free : Freed
  cached : Tcache → Freed
  arena : Freed

-- The part that tries the bins of the thread, for the chunk p of `size` bytes.
unfoldable pub free_to_tcache : (p size : ℕ) → Option Tcache → Freed
unfolding tcache_free
free_to_tcache p size none = arena
free_to_tcache p size (some t) =
    let tidx = csize2tidx size in
    let r = tcache_free tidx p t in
    if not (in_tcache_range size)
    then arena
    else if not (ltb tidx tcache_max_bins)
    then arena
    else if is_double_free (user_data p) t
    then double_free
    else if r.0
    then cached r.1
    else arena

unfoldable pub pt_free_cached : (ptr : ℕ) → Chunks → Option Tcache → Freed
unfolding free_to_tcache
pt_free_cached ptr m t =
    let p = from_user_ptr ptr in
    let size = chunk_size (m p) in
    if ptr == 0
    then ignored
    else if ltb size minsize
    then corrupt
    else if not (size % 16 == 0)
    then corrupt
    else if is_mmapped (m p)
    then unmapped
    else free_to_tcache p size t
