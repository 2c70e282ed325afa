-- ===== src/Classic/Jemalloc/Tcache.antt =====
-- The cache of a thread in classic/jemalloc/jemalloc.cpp (je_tcache_t), without flush.
pub mod Stuck
mod Tests
use my_malloc.Prelude.{
  ℕ, zero, suc, ◌+◌, ◌-◌, ◌*◌, ◌%◌, ◌≡◌, Bool, true, false, Option, none, some, ltb, leb, ◌==◌,
  if◌then◌else◌, word, put,
}
use my_malloc.Classic.Jemalloc.SizeClasses.{je_nsmall_classes}

abbrev pub je_tcache_max : ℕ
je_tcache_max = 4096

abbrev pub je_tcache_gc_thresh : ℕ
je_tcache_gc_thresh = 4096

-- The stack is a map from places to pointers.
pub record JeTcacheBin : Type 0 where
  pub stack : ℕ → ℕ
  pub count : ℕ
  pub low_water : ℕ

pub record JeTcache : Type 0 where
  pub bins : ℕ → JeTcacheBin
  pub arena_idx : ℕ
  pub total_count : ℕ

-- Where aligned_alloc gives each bin its stack.
abbrev pub je_tcache_new : (arena : ℕ) → JeTcache
je_tcache_new arena = record {
  bins = λ i. record { stack = λ k. 0; count = 0; low_water = 0 };
  arena_idx = arena;
  total_count = 0;
}

unfoldable pub je_tcache_alloc : (class_idx : ℕ) → JeTcache → Option ℕ × JeTcache
je_tcache_alloc i t =
    let bin = t.bins i in
    if leb je_nsmall_classes i
    then (none, t)
    else if ltb bin.low_water bin.count
    then (
      some (bin.stack (bin.count - 1)),
      record t {
        bins = put t.bins i (record bin { count = bin.count - 1 });
        total_count = (t.total_count + (word - 1)) % word;
      },
    )
    else (none, t)

-- The round of gc for one bin: the count is set first, and the difference is taken after that.
unfoldable pub gc_bin : (i : ℕ) → JeTcache → JeTcache
gc_bin i t =
    let bin = t.bins i in
    let cut = record bin { count = bin.low_water } in
    if ltb (bin.low_water * 2 % word) bin.count
    then record t {
      bins = put t.bins i cut;
      total_count = (t.total_count + (word - (cut.count - cut.low_water))) % word;
    }
    else t

-- The rounds from the bin i on, with the bins that are left.
pub gc_from : (i left : ℕ) → JeTcache → JeTcache
gc_from i zero t = t
gc_from i (suc left) t = gc_from (i + 1) left (gc_bin i t)

unfoldable pub gc : JeTcache → JeTcache
unfolding gc_from
gc t = gc_from 0 je_nsmall_classes t

-- A pointer goes on top of the stack.
unfoldable pub push_pointer : (class_idx ptr : ℕ) → JeTcache → JeTcache
push_pointer i ptr t =
    let bin = t.bins i in
    record t {
      bins =
          put t.bins i (record bin { stack = put bin.stack bin.count ptr; count = bin.count + 1 });
      total_count = (t.total_count + 1) % word;
    }

unfoldable pub je_tcache_free : (class_idx ptr : ℕ) → JeTcache → Bool × JeTcache
je_tcache_free i ptr t =
    let t1 = push_pointer i ptr t in
    if leb je_nsmall_classes i
    then (false, t)
    else if ltb (t.bins i).count je_tcache_max
    then (true, if ltb je_tcache_gc_thresh t1.total_count then gc t1 else t1)
    else (false, t)
