-- ===== src/Classic/Ptmalloc/Coalesce.antt =====
-- classic/ptmalloc/coalesce.cpp, with the arena of arena.h and arena.cpp and SysMemory::trim of
-- sys_memory.cpp: free chunks are merged with their neighbours. Locks are left out; a walk along a list
-- has fuel; `ps` is the page size of the system.
pub mod Extent
pub mod Tags
mod Tests
use my_malloc.Prelude.{
  ℕ, zero, suc, ◌+◌, ◌-◌, ◌*◌, ◌/◌, ◌%◌, Bool, true, false, not, ◌&&◌, ◌||◌, Option, none, some,
  ltb, leb, ◌==◌, if◌then◌else◌, word, bit_or, put,
}
use my_malloc.Classic.Ptmalloc.Chunk.{
  Chunks, minsize, nfastbins, prev_inuse_bit, non_main_arena_bit, chunk_size, prev_inuse,
  is_main_arena, set_head, set_foot, clear_previnuse, next_chunk,
}
use my_malloc.Classic.Ptmalloc.Links.{push_front}
use my_malloc.Classic.Ptmalloc.Bins.{
  Bins, as_chunk, unsorted_bin_idx, init_all, fast_pop_all, mark_bin,
}
use my_malloc.Classic.Ptmalloc.Bins.Search.{contains_free_chunk, unlink_free_chunk}

pub record Arena : Type 0 where
  pub bins : Bins
  pub chunks : Chunks
  pub top : ℕ
  pub last_remainder : ℕ
  pub attached_threads : ℕ
  pub system_mem : ℕ
  pub max_system_mem : ℕ
  pub is_main : Bool

unfoldable pub init_arena : (is_main : Bool) → Arena → Arena
init_arena is_main a = record {
  bins = init_all a.bins;
  chunks = a.chunks;
  top = 0;
  last_remainder = 0;
  attached_threads = if is_main then 1 else 0;
  system_mem = 0;
  max_system_mem = 0;
  is_main = is_main;
}

unfoldable pub update_system_mem : (added : ℕ) → Arena → Arena
update_system_mem added a =
    let sum = (a.system_mem + added) % word in
    record a {
      system_mem = sum;
      max_system_mem = if ltb a.max_system_mem sum then sum else a.max_system_mem;
    }

unfoldable pub chunk_is_free : (fuel p : ℕ) → Arena → Bool
chunk_is_free fuel p a =
    if (p == 0) || (p == a.top) then false else contains_free_chunk fuel p a.bins

-- A neighbour that has left its bin is the last remainder no more.
unfoldable pub absorbed : (neighbour : ℕ) → Bins → Arena → Arena
absorbed neighbour bins a = record a {
  bins = bins;
  last_remainder = if a.last_remainder == neighbour then 0 else a.last_remainder;
}

-- The size of the chunk p with the next one, if that can be taken out of its bin; else the arena with
-- the bit of the next chunk cleared.
unfoldable pub take_next : (p psize : ℕ) → Arena → Option Bins → ℕ × Arena
take_next p psize a none = (psize, record a { chunks = clear_previnuse p a.chunks })
take_next p psize a (some bins) =
    let next = next_chunk p a.chunks in
    ((psize + chunk_size (a.chunks next)) % word, absorbed next bins a)

-- The forward merge of consolidate_and_free.
unfoldable pub forward : (fuel p psize : ℕ) → Arena → ℕ × Arena
forward fuel p psize a =
    let next = next_chunk p a.chunks in
    if chunk_is_free fuel next a
    then take_next p psize a (unlink_free_chunk fuel next a.bins)
    else (psize, a)

-- The forward merge of malloc_consolidate, which looks at the bit of the next chunk.
unfoldable pub forward_fast : (fuel p psize : ℕ) → Arena → ℕ × Arena
forward_fast fuel p psize a =
    let next = next_chunk p a.chunks in
    if not (next == a.top) && not (prev_inuse (a.chunks next))
    then take_next p psize a (unlink_free_chunk fuel next a.bins)
    else (psize, a)

-- The address and the size of a chunk, and the arena.
pub record Merged : Type 0 where
  pub chunk : ℕ
  pub size : ℕ
  pub arena : Arena

unfoldable pub take_prev : (p psize : ℕ) → Arena → Option Bins → Merged
take_prev p psize a none = record { chunk = p; size = psize; arena = a }
take_prev p psize a (some bins) =
    let prev_sz = (a.chunks p).prev_size in
    record {
      chunk = p - prev_sz;
      size = (psize + prev_sz) % word;
      arena = absorbed (p - prev_sz) bins a;
    }

-- The boundary tag before p is that of a chunk.
unfoldable pub prev_is_sane : (p : ℕ) → Chunks → Bool
prev_is_sane p m =
    let prev_sz = (m p).prev_size in
    leb minsize prev_sz
    && (prev_sz % 16 == 0)
    && leb prev_sz p
    && (chunk_size (m (p - prev_sz)) == prev_sz)

unfoldable pub backward : (fuel p psize : ℕ) → Arena → Merged
backward fuel p psize a =
    if not (prev_inuse (a.chunks p)) && prev_is_sane p a.chunks
    then take_prev p psize a (unlink_free_chunk fuel (p - (a.chunks p).prev_size) a.bins)
    else record { chunk = p; size = psize; arena = a }

-- The headers of a free chunk, with the bit of the next one cleared.
unfoldable pub free_tags : (p psize flags : ℕ) → Chunks → Chunks
free_tags p psize flags m =
    let next = (p + psize) % word in
    let m = set_foot p psize (set_head p psize flags m) in
    if next == p then m else put m next (record (m next) { size = (m next).size / 2 * 2 })

-- A free chunk goes to the front of the unsorted bin.
unfoldable pub to_unsorted : (p psize flags : ℕ) → Arena → Arena
to_unsorted p psize flags a = record a {
  chunks = free_tags p psize flags a.chunks;
  bins =
      mark_bin unsorted_bin_idx
        (record a.bins { links = push_front (as_chunk 1 a.bins) p a.bins.links });
}

-- A chunk before the top chunk becomes the top.
unfoldable pub to_top : (p psize flags : ℕ) → Arena → Arena
to_top p psize flags a = record a {
  chunks = set_head p ((psize + chunk_size (a.chunks a.top)) % word) flags a.chunks;
  top = p;
}

abbrev pub default_trim_threshold : ℕ
default_trim_threshold = 131072

-- SysMemory::trim returns true whether madvise succeeds or munmap has to release the pages.
unfoldable pub trim : (ps start current_size target_size extra_pad : ℕ) → Bool
trim ps start current_size target_size extra_pad =
    let keep_size = (target_size + extra_pad) % word in
    let cur_end = (start + current_size) % word in
    let release_start = ((start + keep_size) % word + (ps - 1)) % word / ps * ps in
    not (leb current_size keep_size)
    && not (leb cur_end release_start)
    && not (ltb (cur_end - release_start) ps)

unfoldable pub systrim : (ps pad : ℕ) → Arena → Bool × Arena
systrim ps pad a =
    let top_size = chunk_size (a.chunks a.top) in
    let wanted = (pad + default_trim_threshold) % word in
    let keep = if ltb top_size wanted then top_size else wanted in
    let new_top_size = if ltb keep minsize then minsize else keep in
    if (a.top == 0) || leb top_size wanted
    then (false, a)
    else if trim ps a.top top_size keep 0
    then (true, record a { chunks = set_head a.top new_top_size prev_inuse_bit a.chunks })
    else (false, a)

unfoldable pub free_merged : (ps : ℕ) (non_main : Bool) → Merged → Arena
free_merged ps non_main r =
    let flags = if non_main then bit_or prev_inuse_bit non_main_arena_bit else prev_inuse_bit in
    if r.arena.top == (r.chunk + r.size) % word
    then (systrim ps 0 (to_top r.chunk r.size flags r.arena)).1
    else if ltb r.size minsize || not (r.size % 16 == 0)
    then r.arena
    else to_unsorted r.chunk r.size flags r.arena

-- Both merges of consolidate_and_free.
unfoldable pub merge : (fuel p : ℕ) → Arena → Merged
merge fuel p a =
    let (psize, a) = forward fuel p (chunk_size (a.chunks p)) a in backward fuel p psize a

unfoldable pub consolidate_and_free : (fuel ps p : ℕ) → Arena → Arena
consolidate_and_free fuel ps p a =
    free_merged ps (not (is_main_arena (a.chunks p))) (merge fuel p a)

unfoldable pub consolidated : Merged → Arena
consolidated r =
    if r.arena.top == (r.chunk + r.size) % word
    then to_top r.chunk r.size prev_inuse_bit r.arena
    else to_unsorted r.chunk r.size prev_inuse_bit r.arena

unfoldable pub consolidate_chunk : (fuel p : ℕ) → Arena → Arena
consolidate_chunk fuel p a =
    let (psize, a) = forward_fast fuel p (chunk_size (a.chunks p)) a in
    consolidated (backward fuel p psize a)

-- The chunks of one fastbin, from p on.
unfoldable pub consolidate_list : (fuel p : ℕ) → Arena → Arena
consolidate_list zero p a = a
consolidate_list (suc fuel) p a =
    if p == 0 then a else consolidate_list fuel (a.bins.links.fd p) (consolidate_chunk fuel p a)

unfoldable pub consolidate_from : (left fuel : ℕ) → Arena → Arena
consolidate_from zero fuel a = a
consolidate_from (suc left) fuel a =
    let (p, bins) = fast_pop_all (9 - left) a.bins in
    consolidate_from left fuel (consolidate_list fuel p (record a { bins = bins }))

unfoldable pub malloc_consolidate : (fuel : ℕ) → Arena → Arena
malloc_consolidate fuel a = consolidate_from nfastbins fuel a
