-- ===== src/Adaptive/Modes.antt =====
-- src/adaptive_modes.cpp: the policy of each mode. `keep` stands for
-- adaptive_runtime_config().empty_cache_limit, which the balanced mode reads.
pub mod Policy
mod Tests
use my_malloc.Prelude.{
  ℕ, ◌-◌, ◌*◌, Bool, true, false, ◌&&◌, ◌||◌, Option, none, some, ltb, leb, if◌then◌else◌, align_up,
}
use my_malloc.Adaptive.Types.{
  ModeId, StorageId, StoragePreference, ReleaseAction, AdaptiveHeader, ReleaseDecision,
  AllocationPlan, prefer_auto, prefer_size_class, prefer_span, prefer_direct, cache,
  return_to_central_pool, purge, unmap, quarantine, direct_map, balanced, throughput_cache,
  deterministic_latency, compact_rss, fragmentation_stable, cross_thread_message,
  large_object_streaming, hardened_debug, unnamed_mode,
}

abbrev make_plan :
    StoragePreference
    → (thread_cache reuse low_rss redzone guarded direct drain_remote occupancy_pack : Bool)
    → (batch keep tcache_small tcache_medium direct_threshold : ℕ) → AllocationPlan
make_plan storage thread_cache reuse low_rss redzone guarded direct drain_remote occupancy_pack
      batch keep tcache_small tcache_medium direct_threshold =
    record {
      storage = storage;
      use_thread_cache = thread_cache;
      prefer_reuse = reuse;
      prefer_low_rss = low_rss;
      debug_redzone = redzone;
      debug_quarantine = guarded;
      prefer_direct_map = direct;
      drain_remote_queue = drain_remote;
      prefer_occupancy_packing = occupancy_pack;
      batch_size = batch;
      empty_keep_limit = keep;
      tcache_small_limit = tcache_small;
      tcache_medium_limit = tcache_medium;
      direct_map_threshold = direct_threshold;
    }

abbrev make_release :
    ReleaseAction
    → (poison redzone guarded remote_queue : Bool) → (keep tcache_small tcache_medium : ℕ)
    → ReleaseDecision
make_release action poison redzone guarded remote_queue keep tcache_small tcache_medium = record {
  action = action;
  poison = poison;
  check_redzone = redzone;
  quarantined = guarded;
  use_remote_queue = remote_queue;
  empty_keep_limit = keep;
  tcache_small_limit = tcache_small;
  tcache_medium_limit = tcache_medium;
}

-- alignment > 16 ? DirectMap : Auto
abbrev direct_if_aligned : ℕ → StoragePreference
direct_if_aligned alignment = if ltb 16 alignment then prefer_direct else prefer_auto

abbrev is_prefer_direct : StoragePreference → Bool
is_prefer_direct prefer_direct = true
is_prefer_direct _ = false

abbrev is_direct_map : StorageId → Bool
is_direct_map direct_map = true
is_direct_map _ = false

balanced_allocate : ℕ → ℕ → ℕ → AllocationPlan
balanced_allocate keep size alignment =
    make_plan (direct_if_aligned alignment) false true false false false false false false 16 keep 0
      0 (64 * 1024)

balanced_free : ℕ → ReleaseDecision
balanced_free keep = make_release return_to_central_pool false false false false keep 0 0

throughput_allocate : ℕ → ℕ → AllocationPlan
throughput_allocate size alignment =
    let storage =
      if ltb 16 alignment
      then prefer_direct
      else if leb size 1024
      then prefer_size_class
      else if leb size (64 * 1024)
      then prefer_span
      else prefer_auto in
    make_plan storage true true false false false false false false 96 32 192 48 (256 * 1024)

throughput_free : ReleaseDecision
throughput_free = make_release cache false false false false 32 192 48

latency_allocate : ℕ → ℕ → AllocationPlan
latency_allocate size alignment =
    make_plan (direct_if_aligned alignment) true true false false false false false false 8 6 16 6
      (256 * 1024)

latency_free : ReleaseDecision
latency_free = make_release cache false false false false 6 16 6

compact_allocate : ℕ → ℕ → AllocationPlan
compact_allocate size alignment =
    let storage = if ltb 16 alignment || ltb (96 * 1024) size then prefer_direct else prefer_auto in
    make_plan storage false false true false false (is_prefer_direct storage) false true 4 0 0 0
      (96 * 1024)

-- The argument of a plan_free is a pointer: `none` is null.
compact_free : Option AdaptiveHeader → ReleaseDecision
compact_free none = make_release unmap false false false false 0 0 0
compact_free (some hdr) =
    if is_direct_map hdr.storage
    then make_release unmap false false false false 0 0 0
    else make_release purge false false false false 0 0 0

pub fragmentation_prefers_direct : ℕ → ℕ → Bool
fragmentation_prefers_direct size alignment =
    let rounded = align_up size 1024 in
    let waste = rounded - size in
    if ltb 16 alignment || leb (96 * 1024) size
    then true
    else if leb size 1024 || ltb (64 * 1024) size
    then false
    else if leb rounded size
    then false
    else leb (16 * 1024) size && leb (size * 20) (waste * 100)

fragmentation_allocate : ℕ → ℕ → AllocationPlan
unfolding fragmentation_prefers_direct align_up
fragmentation_allocate size alignment =
    let storage =
      if fragmentation_prefers_direct size alignment then prefer_direct else prefer_auto in
    make_plan storage false true false false false (is_prefer_direct storage) false true 8 1 0 0
      (96 * 1024)

fragmentation_free : Option AdaptiveHeader → ReleaseDecision
fragmentation_free none = make_release return_to_central_pool false false false false 1 0 0
fragmentation_free (some hdr) =
    if is_direct_map hdr.storage
    then make_release unmap false false false false 0 0 0
    else make_release return_to_central_pool false false false false 1 0 0

cross_thread_allocate : ℕ → ℕ → AllocationPlan
cross_thread_allocate size alignment =
    make_plan (direct_if_aligned alignment) true true false false false false true false 64 8 96 24
      (256 * 1024)

cross_thread_free : ReleaseDecision
cross_thread_free = make_release cache false false false true 8 96 24

large_stream_allocate : ℕ → ℕ → AllocationPlan
large_stream_allocate size alignment =
    let storage =
      if ltb 16 alignment || leb (4 * 1024) size then prefer_direct else prefer_size_class in
    make_plan storage false false true false false (is_prefer_direct storage) false false 1 0 0 0
      (4 * 1024)

large_stream_free : Option AdaptiveHeader → ReleaseDecision
large_stream_free none = make_release purge false false false false 0 0 0
large_stream_free (some hdr) =
    if is_direct_map hdr.storage
    then make_release unmap false false false false 0 0 0
    else make_release purge false false false false 0 0 0

hardened_allocate : ℕ → ℕ → AllocationPlan
hardened_allocate size alignment =
    make_plan prefer_direct false false false true true true false false 1 0 0 0 0

hardened_free : ReleaseDecision
hardened_free = make_release quarantine true true true false 0 0 0

-- g_modes[adaptive_mode_index(id)].plan_allocate; a byte that names no mode has index 0.
unfoldable pub plan_allocate : ℕ → ModeId → ℕ → ℕ → AllocationPlan
unfolding balanced_allocate throughput_allocate latency_allocate compact_allocate
    fragmentation_allocate cross_thread_allocate large_stream_allocate hardened_allocate
plan_allocate keep balanced = balanced_allocate keep
plan_allocate keep throughput_cache = throughput_allocate
plan_allocate keep deterministic_latency = latency_allocate
plan_allocate keep compact_rss = compact_allocate
plan_allocate keep fragmentation_stable = fragmentation_allocate
plan_allocate keep cross_thread_message = cross_thread_allocate
plan_allocate keep large_object_streaming = large_stream_allocate
plan_allocate keep hardened_debug = hardened_allocate
plan_allocate keep (unnamed_mode _) = balanced_allocate keep

-- g_modes[adaptive_mode_index(id)].plan_free
unfoldable pub plan_free : ℕ → ModeId → Option AdaptiveHeader → ReleaseDecision
unfolding balanced_free throughput_free latency_free compact_free fragmentation_free
    cross_thread_free large_stream_free hardened_free
plan_free keep balanced hdr = balanced_free keep
plan_free keep throughput_cache hdr = throughput_free
plan_free keep deterministic_latency hdr = latency_free
plan_free keep compact_rss hdr = compact_free hdr
plan_free keep fragmentation_stable hdr = fragmentation_free hdr
plan_free keep cross_thread_message hdr = cross_thread_free
plan_free keep large_object_streaming hdr = large_stream_free hdr
plan_free keep hardened_debug hdr = hardened_free
plan_free keep (unnamed_mode _) hdr = balanced_free keep
