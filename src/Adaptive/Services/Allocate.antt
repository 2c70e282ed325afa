-- ===== src/Adaptive/Services/Allocate.antt =====
-- src/adaptive_services.cpp: the allocations. `mmap` is the operating system's, `token` the calling
-- thread's.
pub mod DirectMap
pub mod Lookup
mod Tests
use my_malloc.Prelude.{
  ℕ, ◌+◌, ◌-◌, ◌%◌, ◌^◌, Bool, true, false, not, ◌&&◌, ◌||◌, Option, none, some, List, [], ◌∷◌, ltb,
  leb, if◌then◌else◌, word, align_up,
}
use my_malloc.Adaptive.Types.{
  ModeId, large_object_streaming, StorageId, no_storage, size_class, span, direct_map,
  unnamed_storage, AllocationRequest, AllocationResult, hdr_offset, adaptive_magic,
}
use my_malloc.Adaptive.Runtime.{adaptive_next_alloc_epoch}
use my_malloc.Adaptive.Telemetry.{adaptive_telemetry_on_mapped}
use my_malloc.Adaptive.Services.Sizes.{
  SizeClass, small_class, medium_class, round_usable, auto_storage_for, adaptive_small_max,
  adaptive_medium_max,
}
use my_malloc.Adaptive.Services.PageTable.{register_region}
use my_malloc.Adaptive.Services.State.{
  Services, Region, set_header, set_page, flag_memalign, flag_redzone, fail_result,
}
use my_malloc.Adaptive.Services.Headers.{
  user_from_header, write_debug_guards, registry_insert, adaptive_debug_redzone_size,
}
use my_malloc.Adaptive.Services.Caches.{
  pop_tcache, refill_tcache_locked, drain_remote_frees_for, pop_large_extent_cache,
}
use my_malloc.Adaptive.Services.Pages.{
  pool_head_for, set_pool, create_pool_page, finalize_pooled_header, select_pool_page_locked,
}

abbrev pooled_result :
    (hdr : ℕ)
    → StorageId
    → (requested usable mapped_size newly_mapped : ℕ) → (from_cache slow_path : Bool)
    → AllocationResult
pooled_result hdr storage requested usable mapped_size newly_mapped from_cache slow_path = record {
  user_ptr = user_from_header hdr;
  header = hdr;
  storage = storage;
  requested = requested;
  usable = usable;
  mapped_size = mapped_size;
  newly_mapped_size = newly_mapped;
  from_cache = from_cache;
  used_mmap = false;
  slow_path = slow_path;
}

abbrev drain : (token : ℕ) → AllocationRequest → Services → Services
drain token req s =
    drain_remote_frees_for token req.thread_id req.tcache_small_limit req.tcache_medium_limit s

-- A hit of the thread cache is finished; a miss is left.
finish_cached :
    AllocationRequest → StorageId → (usable : ℕ) → ℕ × Services → Services × AllocationResult
finish_cached req storage usable (hdr, s) =
    let h = s.headers hdr in
    (
      registry_insert hdr
          (finalize_pooled_header hdr req storage usable h.mapped_size h.owner_page s),
      pooled_result hdr storage req.size usable h.mapped_size 0 true false,
    )

-- The block that is tried from the thread cache, before and after the remote frees are drained, or
-- the state after both failed.
try_cache :
    (token : ℕ)
    → AllocationRequest
    → StorageId
    → (class_index : ℕ) → Services
    → Services × Option (ℕ × Services)
try_cache token req storage c s =
    let s1 = if req.drain_remote_queue && ltb 0 s.remote_pending then drain token req s else s in
    let s2 = if req.drain_remote_queue then drain token req s1 else s1 in
    if not req.prefer_thread_cache then (s, none) else elim (pop_tcache token storage c s1) [
      | some hit ↦ (s1, some hit)
      | none ↦ if req.drain_remote_queue then (s2, pop_tcache token storage c s2) else (s1, none)
    ]

-- The block at the head of the page's free chain, and the state without it.
take_block : (page : ℕ) → (free_list : List ℕ) → Services → Option (ℕ × Services)
take_block page [] s = none
take_block page (hdr ∷ rest) s =
    let p = s.pages page in
    some (
      hdr,
      set_page page (record p { free_list = rest; live_count = (p.live_count + 1) % 2 ^ 32 }) s,
    )

-- The block of a page with a free one. A page with none would be a null pointer of the source.
take_from_page :
    (token page : ℕ)
    → AllocationRequest
    → StorageId
    → (class_index usable newly_mapped : ℕ) → (from_cache : Bool) → Services
    → Services × AllocationResult
unfolding take_block
take_from_page token page req storage c usable newly_mapped from_cache s =
    elim (take_block page (s.pages page).free_list s) [
      | none ↦ (s, fail_result)
      | some (hdr, s1) ↦
          let s2 = refill_tcache_locked token page storage c req s1 in
          let mapped = (s2.pages page).mapped_size in
          (
            registry_insert hdr (finalize_pooled_header hdr req storage usable mapped page s2),
            pooled_result hdr storage req.size usable mapped newly_mapped from_cache
                (not from_cache),
          )
    ]

module _ (mmap : List Region → ℕ → Option ℕ) (token : ℕ) where
  -- From the page that is selected, or from a new one of the configured size.
  take_pooled :
      AllocationRequest
      → StorageId
      → (class_index usable page_size : ℕ) → Services
      → Services × AllocationResult
  unfolding take_from_page
  take_pooled req storage c usable page_size s = elim (pool_head_for storage c s) [
    | none ↦ (s, fail_result)
    | some head ↦ elim (select_pool_page_locked head req s) [
      | some page ↦ take_from_page token page req storage c usable 0 true s
      | none ↦ elim (create_pool_page mmap req storage c usable page_size s) [
        | none ↦ (s, fail_result)
        | some (page, s1) ↦
            take_from_page token page req storage c usable page_size false
              (set_pool storage c (page ∷ head) s1)
      ]
    ]
  ]

  -- The part of allocate_size_class and of allocate_span behind the class.
  allocate_class :
      AllocationRequest
      → StorageId
      → (page_size : ℕ) → Option SizeClass
      → Services
      → Services × AllocationResult
  unfolding take_pooled try_cache finish_cached
  allocate_class req kind page_size none s = (s, fail_result)
  allocate_class req kind page_size (some c) s =
      let (s1, cached) = try_cache token req kind c.class_index s in
      elim cached [
        | some hit ↦ finish_cached req kind c.usable hit
        | none ↦ take_pooled req kind c.class_index c.usable page_size s1
      ]

  -- allocate_size_class and allocate_span behind their guards.
  small_allocation : AllocationRequest → Services → Services × AllocationResult
  unfolding allocate_class
  small_allocation req s =
      allocate_class req size_class s.runtime.small_page_size (small_class req.size) s

  span_allocation : AllocationRequest → Services → Services × AllocationResult
  unfolding allocate_class
  span_allocation req s =
      allocate_class req span s.runtime.medium_span_size (medium_class req.size) s

-- The bytes of a direct mapping, rounded to pages, or none where a sum would not fit 64 bits.
pub total_size : (usable redzone align_slack : ℕ) → Option ℕ
total_size usable redzone align_slack =
    if ltb (word - 1 - hdr_offset) usable
    then none
    else if ltb (word - 1 - (hdr_offset + usable)) redzone
    then none
    else if ltb (word - 1 - (hdr_offset + usable + redzone)) align_slack
    then none
    else if ltb (word - 1 - 4095) (hdr_offset + usable + redzone + align_slack)
    then none
    else some (align_up (hdr_offset + usable + redzone + align_slack) 4096)

abbrev is_streaming : ModeId → Bool
is_streaming large_object_streaming = true
is_streaming _ = false

-- A cached extent for a request.
reuse_extent : AllocationRequest → (usable : ℕ) → ℕ × Services → Services × AllocationResult
reuse_extent req usable (hdr, s) =
    let (runtime, epoch) = adaptive_next_alloc_epoch s.runtime in
    let h = s.headers hdr in
    (
      registry_insert hdr (
          set_header hdr
            (record h {
              magic = adaptive_magic;
              storage = direct_map;
              mode_id = req.mode;
              flags = 0;
              config_version = s.runtime.config_version;
              requested = req.size;
              usable = usable;
              owner_page = 0;
              owner_thread = req.thread_id;
              alloc_epoch = epoch;
              debug_cookie = 0;
            })
            (record s { runtime = runtime })),
      pooled_result hdr direct_map req.size usable h.mapped_size 0 true false,
    )

abbrev effective_alignment : AllocationRequest → ℕ
effective_alignment req = if ltb req.alignment 16 then 16 else req.alignment

-- A new mapping for a request, at the base that mmap returned.
unfoldable pub place_mapping :
    AllocationRequest → (usable mapped region : ℕ) → Services → Services × AllocationResult
place_mapping req usable mapped region s =
    let alignment = effective_alignment req in
    let base_user = region + hdr_offset in
    let aligned_user = if ltb 16 alignment then align_up base_user alignment else base_user in
    let hdr = aligned_user - hdr_offset in
    let (runtime, epoch) = adaptive_next_alloc_epoch s.runtime in
    let s1 =
      set_header hdr
        (record {
          magic = adaptive_magic;
          storage = direct_map;
          mode_id = req.mode;
          flags =
              (if ltb 16 alignment then flag_memalign else 0)
              + (if req.debug_redzone then flag_redzone else 0);
          config_version = s.runtime.config_version;
          requested = req.size;
          usable = usable;
          mapped_size = mapped;
          region_base = region;
          owner_page = 0;
          owner_thread = req.thread_id;
          alloc_epoch = epoch;
          debug_cookie = 0;
        })
        (record s {
          runtime = runtime;
          regions = record { base = region; size = mapped } ∷ s.regions;
          page_table = register_region region mapped s.page_table;
          stats = adaptive_telemetry_on_mapped req.mode mapped s.stats;
        }) in
    (
      registry_insert hdr (write_debug_guards hdr s1),
      record {
        user_ptr = aligned_user;
        header = hdr;
        storage = direct_map;
        requested = req.size;
        usable = usable;
        mapped_size = mapped;
        newly_mapped_size = mapped;
        from_cache = false;
        used_mmap = true;
        slow_path = true;
      },
    )

module _ (mmap : List Region → ℕ → Option ℕ) (token : ℕ) where
  map_or_fail : AllocationRequest → (usable mapped : ℕ) → Services → Services × AllocationResult
  map_or_fail req usable mapped s = elim (mmap s.regions mapped) [
    | none ↦ (s, fail_result)
    | some region ↦ place_mapping req usable mapped region s
  ]

  unfoldable pub allocate_direct_map : AllocationRequest → Services → Services × AllocationResult
  unfolding total_size reuse_extent map_or_fail
  allocate_direct_map req s =
      let alignment = effective_alignment req in
      let redzone = if req.debug_redzone then adaptive_debug_redzone_size else 0 in
      let align_slack = if ltb 16 alignment then alignment else 0 in
      elim (round_usable req.size) [
        | none ↦ (s, fail_result)
        | some usable ↦ elim (total_size usable redzone align_slack) [
          | none ↦ (s, fail_result)
          | some mapped ↦
              if is_streaming req.mode && leb alignment 16
              then elim (pop_large_extent_cache mapped s) [
                | some hit ↦ reuse_extent req usable hit
                | none ↦ map_or_fail req usable mapped s
              ]
              else map_or_fail req usable mapped s
        ]
      ]

  -- The guards of the functions that this one calls do not hold where it calls them.
  unfoldable pub allocate_auto : AllocationRequest → Services → Services × AllocationResult
  unfolding small_allocation span_allocation
  allocate_auto req s = elim (auto_storage_for req) [
    | size_class ↦ small_allocation mmap token req s
    | span ↦ span_allocation mmap token req s
    | direct_map ↦ allocate_direct_map req s
    | no_storage ↦ (s, fail_result)
    | unnamed_storage k ↦ (s, fail_result)
  ]

  unfoldable pub allocate_size_class : AllocationRequest → Services → Services × AllocationResult
  unfolding small_allocation
  allocate_size_class req s =
      if ltb 16 req.alignment || ltb adaptive_small_max req.size
      then allocate_auto req s
      else small_allocation mmap token req s

  unfoldable pub allocate_span : AllocationRequest → Services → Services × AllocationResult
  unfolding span_allocation
  allocate_span req s =
      if ltb 16 req.alignment || leb req.size adaptive_small_max || ltb adaptive_medium_max req.size
      then allocate_auto req s
      else span_allocation mmap token req s

  unfoldable pub allocate_extent : AllocationRequest → Services → Services × AllocationResult
  allocate_extent req s = allocate_direct_map req s
