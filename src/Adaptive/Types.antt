-- ===== src/Adaptive/Types.antt =====
-- include/my_ptmalloc/adaptive_types.h, adaptive_services.h and adaptive_mode.h: the records and
-- enumerations that the layers share. An enumeration over uint8_t can hold any byte, so each one has a
-- constructor for the bytes that it does not name.
use my_malloc.Prelude.{ℕ, zero, suc, ◌+◌, Bool}

pub data ModeId : Type 0 where
  balanced : ModeId
  throughput_cache : ModeId
  deterministic_latency : ModeId
  compact_rss : ModeId
  fragmentation_stable : ModeId
  cross_thread_message : ModeId
  large_object_streaming : ModeId
  hardened_debug : ModeId
  -- the byte 8 + k
  unnamed_mode : ℕ → ModeId

abbrev pub adaptive_mode_count : ℕ
adaptive_mode_count = 8

-- static_cast to and from the byte.
abbrev pub mode_value : ModeId → ℕ
mode_value balanced = 0
mode_value throughput_cache = 1
mode_value deterministic_latency = 2
mode_value compact_rss = 3
mode_value fragmentation_stable = 4
mode_value cross_thread_message = 5
mode_value large_object_streaming = 6
mode_value hardened_debug = 7
mode_value (unnamed_mode k) = 8 + k

abbrev pub mode_of_value : ℕ → ModeId
mode_of_value zero = balanced
mode_of_value (suc zero) = throughput_cache
mode_of_value (suc (suc zero)) = deterministic_latency
mode_of_value (suc (suc (suc zero))) = compact_rss
mode_of_value (suc (suc (suc (suc zero)))) = fragmentation_stable
mode_of_value (suc (suc (suc (suc (suc zero))))) = cross_thread_message
mode_of_value (suc (suc (suc (suc (suc (suc zero)))))) = large_object_streaming
mode_of_value (suc (suc (suc (suc (suc (suc (suc zero))))))) = hardened_debug
mode_of_value (suc (suc (suc (suc (suc (suc (suc (suc k)))))))) = unnamed_mode k

pub data StorageId : Type 0 where
  -- the byte 0, which a zeroed AllocationResult holds
  no_storage : StorageId
  size_class : StorageId
  span : StorageId
  direct_map : StorageId
  -- the byte 4 + k
  unnamed_storage : ℕ → StorageId

pub data StoragePreference : Type 0 where
  prefer_auto prefer_size_class prefer_span prefer_extent prefer_direct : StoragePreference

pub data ReleaseAction : Type 0 where
  cache return_to_central_pool purge unmap quarantine : ReleaseAction

abbrev pub adaptive_magic : ℕ
adaptive_magic = 0xADA9_B10C

abbrev pub hdr_offset : ℕ
hdr_offset = 112

-- Addresses are numbers and 0 is the null pointer. The links registry_prev and registry_next are
-- the order of the list that holds the header (Services.State), and `_pad` is left out.
pub record AdaptiveHeader : Type 0 where
  pub magic : ℕ
  pub storage : StorageId
  pub mode_id : ModeId
  pub flags : ℕ
  pub config_version : ℕ
  pub requested : ℕ
  pub usable : ℕ
  pub mapped_size : ℕ
  pub region_base : ℕ
  pub owner_page : ℕ
  pub owner_thread : ℕ
  pub alloc_epoch : ℕ
  pub debug_cookie : ℕ

pub record AllocationRequest : Type 0 where
  pub size : ℕ
  pub alignment : ℕ
  pub mode : ModeId
  pub thread_id : ℕ
  pub zero_fill : Bool
  pub prefer_thread_cache : Bool
  pub prefer_direct_map : Bool
  pub prefer_reuse : Bool
  pub prefer_low_rss : Bool
  pub debug_redzone : Bool
  pub debug_quarantine : Bool
  pub drain_remote_queue : Bool
  pub prefer_occupancy_packing : Bool
  pub batch_size : ℕ
  pub empty_keep_limit : ℕ
  pub tcache_small_limit : ℕ
  pub tcache_medium_limit : ℕ
  pub direct_map_threshold : ℕ

pub record AllocationResult : Type 0 where
  pub user_ptr : ℕ
  pub header : ℕ
  pub storage : StorageId
  pub requested : ℕ
  pub usable : ℕ
  pub mapped_size : ℕ
  pub newly_mapped_size : ℕ
  pub from_cache : Bool
  pub used_mmap : Bool
  pub slow_path : Bool

pub record ReleaseDecision : Type 0 where
  pub action : ReleaseAction
  pub poison : Bool
  pub check_redzone : Bool
  pub quarantined : Bool
  pub use_remote_queue : Bool
  pub empty_keep_limit : ℕ
  pub tcache_small_limit : ℕ
  pub tcache_medium_limit : ℕ

pub record AllocationPlan : Type 0 where
  pub storage : StoragePreference
  pub use_thread_cache : Bool
  pub prefer_reuse : Bool
  pub prefer_low_rss : Bool
  pub debug_redzone : Bool
  pub debug_quarantine : Bool
  pub prefer_direct_map : Bool
  pub drain_remote_queue : Bool
  pub prefer_occupancy_packing : Bool
  pub batch_size : ℕ
  pub empty_keep_limit : ℕ
  pub tcache_small_limit : ℕ
  pub tcache_medium_limit : ℕ
  pub direct_map_threshold : ℕ
