-- ===== src/Adaptive/Telemetry.antt =====
-- src/adaptive_telemetry.cpp: the counters, and the events that change them. Atomic counters are
-- 64-bit words with wrap-around; the int64_t ones are held as two's complement. mode_switches is a
-- field of Runtime, since the activation of a mode is what counts it.
pub mod Window
pub mod Balance
mod Tests
use my_malloc.Prelude.{
  ℕ, zero, suc, ◌+◌, ◌-◌, ◌*◌, ◌%◌, ◌^◌, ◌≡◌, Bool, true, false, leb, ◌==◌, if◌then◌else◌, word,
}
use my_malloc.Adaptive.Types.{
  ModeId, StorageId, no_storage, size_class, span, direct_map, unnamed_storage, AdaptiveHeader,
  AllocationResult,
}
use my_malloc.Adaptive.Runtime.{adaptive_mode_index}

pub record AdaptiveStorageStats : Type 0 where
  pub alloc_count : ℕ
  pub free_count : ℕ
  pub requested_bytes : ℕ
  pub usable_bytes : ℕ
  pub pool_hits : ℕ
  pub pool_misses : ℕ

pub record ModeStats : Type 0 where
  pub alloc_count : ℕ
  pub free_count : ℕ
  pub live_bytes : ℕ
  pub mapped_bytes : ℕ

-- g_stats and the two histograms.
pub record AdaptiveStats : Type 0 where
  pub malloc_calls : ℕ
  pub free_calls : ℕ
  pub realloc_calls : ℕ
  pub failure_count : ℕ
  pub empty_pages : ℕ
  pub empty_spans : ℕ
  pub released_pages : ℕ
  pub released_spans : ℕ
  pub release_unmapped_bytes : ℕ
  pub remote_free_count : ℕ
  pub same_thread_free_count : ℕ
  pub invalid_free_count : ℕ
  pub double_free_count : ℕ
  pub header_corruption_count : ℕ
  pub slow_path_count : ℕ
  pub mmap_count : ℕ
  pub munmap_count : ℕ
  pub storage : ℕ → AdaptiveStorageStats
  pub live_bytes : ℕ
  pub mapped_bytes : ℕ
  pub mode : ℕ → ModeStats
  pub size_histogram : ℕ → ℕ
  pub size_bytes_histogram : ℕ → ℕ

abbrev pub zero_storage : AdaptiveStorageStats
zero_storage = record {
  alloc_count = 0;
  free_count = 0;
  requested_bytes = 0;
  usable_bytes = 0;
  pool_hits = 0;
  pool_misses = 0;
}

abbrev pub zero_mode : ModeStats
zero_mode = record { alloc_count = 0; free_count = 0; live_bytes = 0; mapped_bytes = 0 }

-- The initial values, which adaptive_stats_reset stores again.
abbrev pub zero_stats : AdaptiveStats
zero_stats = record {
  malloc_calls = 0;
  free_calls = 0;
  realloc_calls = 0;
  failure_count = 0;
  empty_pages = 0;
  empty_spans = 0;
  released_pages = 0;
  released_spans = 0;
  release_unmapped_bytes = 0;
  remote_free_count = 0;
  same_thread_free_count = 0;
  invalid_free_count = 0;
  double_free_count = 0;
  header_corruption_count = 0;
  slow_path_count = 0;
  mmap_count = 0;
  munmap_count = 0;
  storage = λ i. zero_storage;
  live_bytes = 0;
  mapped_bytes = 0;
  mode = λ i. zero_mode;
  size_histogram = λ i. 0;
  size_bytes_histogram = λ i. 0;
}

-- fetch_add and fetch_sub.
abbrev pub wrap_add : ℕ → ℕ → ℕ
wrap_add a b = (a + b) % word

abbrev pub wrap_sub : ℕ → ℕ → ℕ
wrap_sub a b = (a + (word - b % word)) % word

abbrev pub update {ℓ} : {A : Type ℓ} → (ℕ → A) → ℕ → (A → A) → ℕ → A
update f i g j = if i == j then g (f j) else f j

unfoldable pub storage_index : StorageId → ℕ
storage_index no_storage = 0
storage_index size_class = 0
storage_index span = 1
storage_index direct_map = 2
storage_index (unnamed_storage k) = 0

pub size_histogram_index : ℕ → ℕ
size_histogram_index size =
    if leb size 32
    then 0
    else if leb size 64
    then 1
    else if leb size 128
    then 2
    else if leb size 256
    then 3
    else if leb size 1024
    then 4
    else if leb size 4096
    then 5
    else if leb size (64 * 1024)
    then 6
    else if leb size (256 * 1024)
    then 7
    else if leb size (1024 * 1024)
    then 8
    else 9

unfoldable pub adaptive_telemetry_on_malloc_call : AdaptiveStats → AdaptiveStats
adaptive_telemetry_on_malloc_call s = record s { malloc_calls = wrap_add s.malloc_calls 1 }

-- `mode_id` is the mode of the result's header.
unfoldable pub adaptive_telemetry_on_alloc :
    AllocationResult → (mode_id : ModeId) → AdaptiveStats → AdaptiveStats
unfolding storage_index size_histogram_index
adaptive_telemetry_on_alloc result mode_id s = record s {
  storage = update s.storage (storage_index result.storage) (λ t. record t {
    alloc_count = wrap_add t.alloc_count 1;
    requested_bytes = wrap_add t.requested_bytes result.requested;
    usable_bytes = wrap_add t.usable_bytes result.usable;
    pool_hits = (if result.from_cache then wrap_add t.pool_hits 1 else t.pool_hits);
    pool_misses = (if result.from_cache then t.pool_misses else wrap_add t.pool_misses 1);
  });
  mmap_count = (if result.used_mmap then wrap_add s.mmap_count 1 else s.mmap_count);
  slow_path_count = (if result.slow_path then wrap_add s.slow_path_count 1 else s.slow_path_count);
  size_histogram =
      update s.size_histogram (size_histogram_index result.requested) (λ n. wrap_add n 1);
  size_bytes_histogram =
      update s.size_bytes_histogram (size_histogram_index result.requested)
        (λ n. wrap_add n result.requested);
  live_bytes = wrap_add s.live_bytes result.usable;
  mode = update s.mode (adaptive_mode_index mode_id) (λ m. record m {
    alloc_count = wrap_add m.alloc_count 1;
    live_bytes = wrap_add m.live_bytes result.usable;
  });
}

unfoldable pub adaptive_telemetry_on_alloc_failure : AdaptiveStats → AdaptiveStats
adaptive_telemetry_on_alloc_failure s = record s { failure_count = wrap_add s.failure_count 1 }

unfoldable pub adaptive_telemetry_on_free_call : AdaptiveStats → AdaptiveStats
adaptive_telemetry_on_free_call s = record s { free_calls = wrap_add s.free_calls 1 }

-- `token` is the calling thread's; the header is not null.
unfoldable pub adaptive_telemetry_on_free_begin :
    (token : ℕ) → AdaptiveHeader → AdaptiveStats → AdaptiveStats
unfolding storage_index
adaptive_telemetry_on_free_begin token hdr s =
    let same = hdr.owner_thread == token in
    record s {
      same_thread_free_count =
          (if same then wrap_add s.same_thread_free_count 1 else s.same_thread_free_count);
      remote_free_count = (if same then s.remote_free_count else wrap_add s.remote_free_count 1);
      storage =
          update s.storage (storage_index hdr.storage)
            (λ t. record t { free_count = wrap_add t.free_count 1 });
      live_bytes = wrap_sub s.live_bytes hdr.usable;
      mode = update s.mode (adaptive_mode_index hdr.mode_id) (λ m. record m {
        free_count = wrap_add m.free_count 1;
        live_bytes = wrap_sub m.live_bytes hdr.usable;
      });
    }

unfoldable pub adaptive_telemetry_on_invalid_free : AdaptiveStats → AdaptiveStats
adaptive_telemetry_on_invalid_free s = record s {
  invalid_free_count = wrap_add s.invalid_free_count 1;
}

unfoldable pub adaptive_telemetry_on_realloc : AdaptiveStats → AdaptiveStats
adaptive_telemetry_on_realloc s = record s { realloc_calls = wrap_add s.realloc_calls 1 }

unfoldable pub adaptive_telemetry_on_mapped : ModeId → (bytes : ℕ) → AdaptiveStats → AdaptiveStats
adaptive_telemetry_on_mapped mode bytes s = record s {
  mapped_bytes = wrap_add s.mapped_bytes bytes;
  mode =
      update s.mode (adaptive_mode_index mode)
        (λ m. record m { mapped_bytes = wrap_add m.mapped_bytes bytes });
}

unfoldable pub adaptive_telemetry_on_unmapped : ModeId → (bytes : ℕ) → AdaptiveStats → AdaptiveStats
adaptive_telemetry_on_unmapped mode bytes s = record s {
  mapped_bytes = wrap_sub s.mapped_bytes bytes;
  mode =
      update s.mode (adaptive_mode_index mode)
        (λ m. record m { mapped_bytes = wrap_sub m.mapped_bytes bytes });
}

unfoldable pub adaptive_telemetry_on_empty_counts :
    StorageId → (count : ℕ) → AdaptiveStats → AdaptiveStats
adaptive_telemetry_on_empty_counts size_class count s = record s { empty_pages = count }
adaptive_telemetry_on_empty_counts span count s = record s { empty_spans = count }
adaptive_telemetry_on_empty_counts _ count s = s

unfoldable pub adaptive_telemetry_on_release :
    StorageId → (bytes : ℕ) → AdaptiveStats → AdaptiveStats
adaptive_telemetry_on_release storage bytes s = record s {
  release_unmapped_bytes = wrap_add s.release_unmapped_bytes bytes;
  released_pages = elim storage [ size_class ↦ wrap_add s.released_pages 1 | _ ↦ s.released_pages ];
  released_spans = elim storage [ span ↦ wrap_add s.released_spans 1 | _ ↦ s.released_spans ];
}

unfoldable pub adaptive_telemetry_on_munmap : AdaptiveStats → AdaptiveStats
adaptive_telemetry_on_munmap s = record s { munmap_count = wrap_add s.munmap_count 1 }

unfoldable pub adaptive_telemetry_on_header_corruption : AdaptiveStats → AdaptiveStats
adaptive_telemetry_on_header_corruption s = record s {
  header_corruption_count = wrap_add s.header_corruption_count 1;
}

unfoldable pub adaptive_telemetry_on_double_free : AdaptiveStats → AdaptiveStats
adaptive_telemetry_on_double_free s = record s {
  double_free_count = wrap_add s.double_free_count 1;
}

unfoldable pub adaptive_telemetry_on_pool_hit : StorageId → AdaptiveStats → AdaptiveStats
adaptive_telemetry_on_pool_hit storage s = record s {
  storage =
      update s.storage (storage_index storage)
        (λ t. record t { pool_hits = wrap_add t.pool_hits 1 });
}

unfoldable pub adaptive_telemetry_on_pool_miss : StorageId → AdaptiveStats → AdaptiveStats
adaptive_telemetry_on_pool_miss storage s = record s {
  storage =
      update s.storage (storage_index storage)
        (λ t. record t { pool_misses = wrap_add t.pool_misses 1 });
}

unfoldable pub adaptive_telemetry_on_mmap : AdaptiveStats → AdaptiveStats
adaptive_telemetry_on_mmap s = record s { mmap_count = wrap_add s.mmap_count 1 }
