-- ===== src/Adaptive/Telemetry/Window.antt =====
-- src/adaptive_telemetry.cpp: the features of a window, from the counters and those at its start.
use my_malloc.Prelude.{ℕ, zero, suc, ◌+◌, ◌-◌, ◌^◌, ltb, leb, ◌==◌, if◌then◌else◌}
use my_malloc.Adaptive.Doubles.{Double, decimal, WorkloadFeatures}
use my_malloc.Adaptive.Telemetry.{AdaptiveStats, zero_stats, wrap_add}

pub record TelemetryCounters : Type 0 where
  pub malloc_calls : ℕ
  pub free_calls : ℕ
  pub invalid_free_count : ℕ
  pub double_free_count : ℕ
  pub header_corruption_count : ℕ
  pub slow_path_count : ℕ
  pub mmap_count : ℕ
  pub remote_free_count : ℕ
  pub same_thread_free_count : ℕ
  pub storage_alloc_count : ℕ → ℕ
  pub storage_requested_bytes : ℕ → ℕ
  pub storage_usable_bytes : ℕ → ℕ
  pub storage_pool_hits : ℕ → ℕ
  pub storage_pool_misses : ℕ → ℕ
  pub size_histogram : ℕ → ℕ
  pub size_bytes_histogram : ℕ → ℕ
  pub mapped_bytes : ℕ
  pub live_bytes : ℕ

-- The counters and g_window_base.
pub record Telemetry : Type 0 where
  pub stats : AdaptiveStats
  pub window_base : TelemetryCounters

-- An int64_t in two's complement, 0 where it is negative.
unfoldable pub nonnegative_i64 : ℕ → ℕ
nonnegative_i64 value = if leb (2 ^ 63) value then 0 else value

unfoldable pub delta_u64 : ℕ → ℕ → ℕ
delta_u64 current base = if leb base current then current - base else current

unfoldable pub read_counters : AdaptiveStats → TelemetryCounters
unfolding nonnegative_i64
read_counters s = record {
  malloc_calls = s.malloc_calls;
  free_calls = s.free_calls;
  invalid_free_count = s.invalid_free_count;
  double_free_count = s.double_free_count;
  header_corruption_count = s.header_corruption_count;
  slow_path_count = s.slow_path_count;
  mmap_count = s.mmap_count;
  remote_free_count = s.remote_free_count;
  same_thread_free_count = s.same_thread_free_count;
  storage_alloc_count = λ i. (s.storage i).alloc_count;
  storage_requested_bytes = λ i. (s.storage i).requested_bytes;
  storage_usable_bytes = λ i. (s.storage i).usable_bytes;
  storage_pool_hits = λ i. (s.storage i).pool_hits;
  storage_pool_misses = λ i. (s.storage i).pool_misses;
  size_histogram = s.size_histogram;
  size_bytes_histogram = s.size_bytes_histogram;
  mapped_bytes = nonnegative_i64 s.mapped_bytes;
  live_bytes = nonnegative_i64 s.live_bytes;
}

unfoldable pub zero_counters : TelemetryCounters
unfolding read_counters
zero_counters = read_counters zero_stats

unfoldable pub delta_counters : (current base : TelemetryCounters) → TelemetryCounters
unfolding delta_u64
delta_counters current base = record {
  malloc_calls = delta_u64 current.malloc_calls base.malloc_calls;
  free_calls = delta_u64 current.free_calls base.free_calls;
  invalid_free_count = delta_u64 current.invalid_free_count base.invalid_free_count;
  double_free_count = delta_u64 current.double_free_count base.double_free_count;
  header_corruption_count = delta_u64 current.header_corruption_count base.header_corruption_count;
  slow_path_count = delta_u64 current.slow_path_count base.slow_path_count;
  mmap_count = delta_u64 current.mmap_count base.mmap_count;
  remote_free_count = delta_u64 current.remote_free_count base.remote_free_count;
  same_thread_free_count = delta_u64 current.same_thread_free_count base.same_thread_free_count;
  storage_alloc_count = λ i. delta_u64 (current.storage_alloc_count i) (base.storage_alloc_count i);
  storage_requested_bytes =
      λ i. delta_u64 (current.storage_requested_bytes i) (base.storage_requested_bytes i);
  storage_usable_bytes =
      λ i. delta_u64 (current.storage_usable_bytes i) (base.storage_usable_bytes i);
  storage_pool_hits = λ i. delta_u64 (current.storage_pool_hits i) (base.storage_pool_hits i);
  storage_pool_misses = λ i. delta_u64 (current.storage_pool_misses i) (base.storage_pool_misses i);
  size_histogram = λ i. delta_u64 (current.size_histogram i) (base.size_histogram i);
  size_bytes_histogram =
      λ i. delta_u64 (current.size_bytes_histogram i) (base.size_bytes_histogram i);
  mapped_bytes = current.mapped_bytes;
  live_bytes = current.live_bytes;
}

-- The loops that add the entries of an array from an index on, with wrap-around.
abbrev pub sum_from : (ℕ → ℕ) → (first count : ℕ) → ℕ
sum_from f first zero = 0
sum_from f first (suc n) = wrap_add (sum_from f first n) (f (first + n))

module _ (d : Double) where
  open d use {F, lt, add, sub, mul, div, log, of_literal, of_uint}

  ratio_u64 : ℕ → ℕ → F
  ratio_u64 num den = if den == 0 then of_literal (decimal 0 0) else div (of_uint num) (of_uint den)

  -- The loop over the first n buckets.
  entropy_below : (ℕ → ℕ) → (hist_total : ℕ) → ℕ → F
  entropy_below histogram hist_total zero = of_literal (decimal 0 0)
  entropy_below histogram hist_total (suc i) =
      let rest = entropy_below histogram hist_total i in
      let p = div (of_uint (histogram i)) (of_uint hist_total) in
      if histogram i == 0
      then rest
      else sub rest (mul p (div (log p) (log (of_literal (decimal 2 0)))))

  unfoldable pub features_from_counters : TelemetryCounters → WorkloadFeatures F
  unfolding ratio_u64 entropy_below
  features_from_counters c =
      let hits = sum_from c.storage_pool_hits 0 3 in
      let misses = sum_from c.storage_pool_misses 0 3 in
      let usable = sum_from c.storage_usable_bytes 0 3 in
      let by_storage = sum_from c.storage_requested_bytes 0 3 in
      let by_size = sum_from c.size_bytes_histogram 0 10 in
      let requested = if ltb 0 by_size then by_size else by_storage in
      let small_count = sum_from c.size_histogram 0 5 in
      let medium_count = sum_from c.size_histogram 5 3 in
      let large_count = sum_from c.size_histogram 8 2 in
      let large_bytes = sum_from c.size_bytes_histogram 8 2 in
      let count_total = wrap_add (wrap_add small_count medium_count) large_count in
      let thread_frees = wrap_add c.remote_free_count c.same_thread_free_count in
      let safety =
        wrap_add (wrap_add c.invalid_free_count c.double_free_count) c.header_corruption_count in
      let slow = wrap_add (wrap_add c.slow_path_count c.mmap_count) misses in
      let hit_rate = ratio_u64 hits (wrap_add hits misses) in
      let mapped_live = ratio_u64 c.mapped_bytes c.live_bytes in
      let one = of_literal (decimal 1 0) in
      let zero_double = of_literal (decimal 0 0) in
      let hist_total = sum_from c.size_histogram 0 10 in
      record {
        small_object_ratio = ratio_u64 small_count count_total;
        medium_object_ratio = ratio_u64 medium_count count_total;
        large_object_ratio = ratio_u64 large_count count_total;
        large_bytes_ratio = ratio_u64 large_bytes requested;
        size_entropy =
            if ltb 0 hist_total then entropy_below c.size_histogram hist_total 10 else zero_double;
        cache_hit_rate = hit_rate;
        reuse_rate = hit_rate;
        remote_free_ratio = ratio_u64 c.remote_free_count thread_frees;
        mapped_live_ratio = mapped_live;
        retained_ratio = mapped_live;
        internal_frag_ratio =
            if ltb requested usable then ratio_u64 (usable - requested) requested else zero_double;
        external_frag_score = if lt one mapped_live then sub mapped_live one else zero_double;
        slow_path_ratio = ratio_u64 slow c.malloc_calls;
        safety_error_rate = ratio_u64 safety (wrap_add c.free_calls c.malloc_calls);
        alloc_calls = c.malloc_calls;
        free_calls = c.free_calls;
        requested_bytes = requested;
        usable_bytes = usable;
        mapped_bytes = c.mapped_bytes;
        live_bytes = c.live_bytes;
        remote_free_count = c.remote_free_count;
        same_thread_free_count = c.same_thread_free_count;
      }

  unfoldable pub adaptive_extract_window_features : Telemetry → Telemetry × WorkloadFeatures F
  unfolding read_counters delta_counters features_from_counters
  adaptive_extract_window_features t =
      let current = read_counters t.stats in
      (
        record t { window_base = current },
        features_from_counters (delta_counters current t.window_base),
      )

-- adaptive_stats_reset, without the counter of mode switches.
unfoldable pub adaptive_stats_reset : Telemetry → Telemetry
unfolding zero_counters
adaptive_stats_reset t = record { stats = zero_stats; window_base = zero_counters }
