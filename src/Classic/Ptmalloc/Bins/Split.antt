-- ===== src/Classic/Ptmalloc/Bins/Split.antt =====
-- BinManager::alloc and alloc_split of classic/ptmalloc/bins.cpp: a chunk from a small bin, and the best
-- fit among the large ones. Behind bins_[127] stand the words of the bitmap, which large(62) reads as a bin.
use my_malloc.Prelude.{
  ℕ, zero, suc, ◌+◌, ◌-◌, ◌*◌, ◌/◌, ◌%◌, ◌^◌, ◌&&◌, ◌||◌, ltb, leb, ◌==◌, if◌then◌else◌, word,
  bit_or, put,
}
use my_malloc.Classic.Ptmalloc.Chunk.{
  Chunks, chunk_size, flags, set_head, set_foot, minsize, prev_inuse_bit,
}
use my_malloc.Classic.Ptmalloc.Links.{Links, set_fd, set_bk, empty, push_front, unlink}
use my_malloc.Classic.Ptmalloc.Bins.LargeIndex.{large_bin, largebin_index}
use my_malloc.Classic.Ptmalloc.Bins.{
  Bins, as_chunk, unsorted_bin_idx, bin_empty, mark_bin, unmark_bin,
}

-- bins_[i] of small(idx) is bins_[2 + idx].
unfoldable pub alloc : (idx : ℕ) → Bins → ℕ × Bins
alloc idx b =
    let sentinel = as_chunk (2 + idx) b in
    let p = b.links.bk sentinel in
    if bin_empty (2 + idx) b || (p == sentinel)
    then (0, b)
    else (p, unmark_bin (2 + idx) (record b { links = unlink p b.links }))

-- A result, a read through a null pointer, or no fuel left.
pub data Outcome (A : Type 0) : Type 0 where
  ok : A → Outcome A
  fault : Outcome A
  out_of_fuel : Outcome A

-- The walk over a large bin from its last chunk; `victim` is the best so far, 0 at the start.
unfoldable pub best : (fuel sentinel nb p victim : ℕ) → Links → Chunks → Outcome ℕ
best zero sentinel nb p victim l m = out_of_fuel
best (suc fuel) sentinel nb p victim l m =
    let psize = chunk_size (m p) in
    let better = leb nb psize && ((victim == 0) || ltb psize (chunk_size (m victim))) in
    let rest = best fuel sentinel nb (l.bk p) (if better then p else victim) l m in
    if p == sentinel
    then ok victim
    else if p == 0
    then fault
    else if better && (psize == nb)
    then ok p
    else rest

-- The words of the bitmap, read as those of a bin.
unfoldable pub past_bins : Bins → Links
past_bins b =
    let sentinel = as_chunk 128 b in
    set_fd sentinel (b.binmap 0 + 2 ^ 32 * b.binmap 1)
      (set_bk sentinel (b.binmap 2 + 2 ^ 32 * b.binmap 3) b.links)

unfoldable pub large_links : (li : ℕ) → Bins → Links
large_links li b = if li == 62 then past_bins b else b.links

-- The words are stored where they were read.
unfoldable pub store_past : Links → Bins → Bins
store_past l b =
    let fd = l.fd (as_chunk 128 b) in
    let bk = l.bk (as_chunk 128 b) in
    record b {
      links = l;
      binmap =
          put (put (put (put b.binmap 0 (fd % 2 ^ 32)) 1 (fd / 2 ^ 32)) 2 (bk % 2 ^ 32)) 3
            (bk / 2 ^ 32);
    }

unfoldable pub store_large : (li : ℕ) → Links → Bins → Bins
store_large li l b = if li == 62 then store_past l b else record b { links = l }

pub record SplitResult : Type 0 where
  pub victim : ℕ
  pub remainder : ℕ
  pub bins : Bins
  pub chunks : Chunks

-- The headers of a chunk cut at nb bytes and of what is left of it.
unfoldable pub cut : (p nb remainder_size head_flags rest_flags : ℕ) → Chunks → Chunks
cut p nb remainder_size head_flags rest_flags m =
    let remainder = (p + nb) % word in
    let m = set_head p nb head_flags m in
    let m = put m remainder (record (m remainder) { prev_size = nb }) in
    set_foot remainder remainder_size (set_head remainder remainder_size rest_flags m)

-- The victim leaves its bin, and is split if what is left of it can be a chunk.
unfoldable pub take_victim : (li victim nb unsorted : ℕ) → Bins → Chunks → SplitResult
take_victim li victim nb unsorted b m =
    let v_size = chunk_size (m victim) in
    let orig_flags = flags (m victim) in
    let b = store_large li (unlink victim (large_links li b)) b in
    let l = large_links li b in
    let b = if empty (as_chunk (large_bin li) b) l then unmark_bin (large_bin li) b else b in
    let remainder = (victim + nb) % word in
    if leb minsize (v_size - nb)
    then record {
      victim = victim;
      remainder = remainder;
      bins = mark_bin unsorted_bin_idx (record b { links = push_front unsorted remainder b.links });
      chunks = cut victim nb (v_size - nb) orig_flags (bit_or prev_inuse_bit orig_flags) m;
    }
    else record { victim = victim; remainder = 0; bins = b; chunks = m }

-- What the walk over large(li) found, 0 for none.
unfoldable pub after_walk :
    (li nb unsorted : ℕ) → Bins → Chunks → Outcome SplitResult → Outcome ℕ → Outcome SplitResult
after_walk li nb unsorted b m rest fault = fault
after_walk li nb unsorted b m rest out_of_fuel = out_of_fuel
after_walk li nb unsorted b m rest (ok victim) =
    if victim == 0 then rest else ok (take_victim li victim nb unsorted b m)

-- The loop over the large bins, from large(63 - left) on.
unfoldable pub split_from : (left fuel nb unsorted : ℕ) → Bins → Chunks → Outcome SplitResult
split_from zero fuel nb unsorted b m =
    ok (record { victim = 0; remainder = 0; bins = b; chunks = m })
split_from (suc left) fuel nb unsorted b m =
    let rest = split_from left fuel nb unsorted b m in
    let li = 62 - left in
    let l = large_links li b in
    let sentinel = as_chunk (large_bin li) b in
    if empty sentinel l
    then rest
    else after_walk li nb unsorted b m rest (best fuel sentinel nb (l.bk sentinel) 0 l m)

unfoldable pub alloc_split : (fuel nb unsorted : ℕ) → Bins → Chunks → Outcome SplitResult
alloc_split fuel nb unsorted b m = split_from (63 - largebin_index nb) fuel nb unsorted b m
