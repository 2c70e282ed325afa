-- ===== src/Adaptive/Services/Release.antt =====
-- src/adaptive_services.cpp: the release of a block, and reallocate.
pub mod DoubleFree
pub mod Examples
mod Tests
use my_malloc.Prelude.{
  ℕ, ◌+◌, ◌-◌, Bool, true, false, not, ◌&&◌, ◌||◌, Option, none, some, List, ◌∷◌, ltb, leb, ◌==◌,
  if◌then◌else◌,
}
use my_malloc.Adaptive.Types.{
  ModeId, large_object_streaming, StorageId, AllocationRequest, AllocationResult, AllocationPlan,
  ReleaseDecision, ReleaseAction, cache, purge, unmap, quarantine, StoragePreference, prefer_auto,
  prefer_size_class, prefer_span, prefer_extent, prefer_direct,
}
use my_malloc.Adaptive.Modes.{plan_allocate, plan_free}
use my_malloc.Adaptive.Telemetry.{
  adaptive_telemetry_on_unmapped, adaptive_telemetry_on_munmap,
  adaptive_telemetry_on_header_corruption, adaptive_telemetry_on_alloc,
  adaptive_telemetry_on_free_begin,
}
use my_malloc.Adaptive.Services.PageTable.{unregister_region}
use my_malloc.Adaptive.Services.State.{
  Services, Region, set_header, set_page, count_event, has_flag, flag_pooled, retired_header,
}
use my_malloc.Adaptive.Services.Headers.{user_from_header, validate_debug_guards, registry_remove}
use my_malloc.Adaptive.Services.Caches.{push_tcache, enqueue_remote_free, push_large_extent_cache}
use my_malloc.Adaptive.Services.Pages.{
  pool_head_for, release_target_empty_locked, release_empty_locked, munmap,
}
use my_malloc.Adaptive.Services.Allocate.{
  allocate_size_class, allocate_span, allocate_extent, allocate_direct_map, allocate_auto,
}

abbrev is_cache : ReleaseAction → Bool
is_cache cache = true
is_cache _ = false

abbrev is_quarantine : ReleaseAction → Bool
is_quarantine quarantine = true
is_quarantine _ = false

-- Purge or Unmap
abbrev is_eager : ReleaseAction → Bool
is_eager purge = true
is_eager unmap = true
is_eager _ = false

abbrev is_streaming : ModeId → Bool
is_streaming large_object_streaming = true
is_streaming _ = false

-- memset(user, value, n) and memcpy(to, from, n).
abbrev fill : (user value n : ℕ) → (ℕ → ℕ) → ℕ → ℕ
fill user value n bytes a = if leb user a && ltb a (user + n) then value else bytes a

abbrev copy : (to from n : ℕ) → (ℕ → ℕ) → ℕ → ℕ
copy to from n bytes a = if leb to a && ltb a (to + n) then bytes (from + (a - to)) else bytes a

-- The guards are checked and the block is poisoned.
unfoldable pub check_and_poison : (hdr : ℕ) → ReleaseDecision → Services → Services
check_and_poison hdr decision s =
    let h = s.headers hdr in
    let s1 =
      if decision.check_redzone && not (validate_debug_guards hdr s)
      then count_event adaptive_telemetry_on_header_corruption s
      else s in
    if decision.poison && ltb 0 h.usable
    then record s1 { bytes = fill (user_from_header hdr) 0xDD h.usable s1.bytes }
    else s1

-- The state after an attempt, or the fallback where it was refused.
abbrev pub or_else : Option Services → Services → Services
or_else none fallback = fallback
or_else (some s) fallback = s

-- The block goes back to the free chain of its page, and empty pages go back to the system.
unfoldable pub return_to_page :
    (hdr page : ℕ) → StorageId → (class_index : ℕ) → ReleaseDecision → Services → Services
return_to_page hdr page storage c decision s =
    let p = s.pages page in
    let s1 =
      set_page page (record p { free_list = hdr ∷ p.free_list; live_count = p.live_count - 1 })
        (set_header hdr (retired_header 0 (s.headers hdr)) s) in
    let keep = if is_eager decision.action then 0 else decision.empty_keep_limit in
    let released =
      if is_eager decision.action && (s1.pages page).live_count == 0
      then release_target_empty_locked storage c page s1
      else none in
    or_else released (release_empty_locked storage c keep s1)

-- The places for a pooled block, in the order in which they are tried.
unfoldable pub release_pooled :
    (token hdr page : ℕ) → StorageId → (class_index : ℕ) → ReleaseDecision → Services → Services
release_pooled token hdr page storage c decision s =
    let remote_free = not ((s.headers hdr).owner_thread == token) in
    let s1 = check_and_poison hdr decision (registry_remove hdr s) in
    let queued =
      if decision.use_remote_queue && remote_free then enqueue_remote_free hdr s1 else none in
    let cached =
      if is_cache decision.action && not remote_free
      then push_tcache token hdr decision.tcache_small_limit decision.tcache_medium_limit s1
      else none in
    or_else queued (or_else cached (return_to_page hdr page storage c decision s1))

-- A direct mapping is quarantined, kept in the extent cache or unmapped.
unfoldable pub release_mapping : (hdr : ℕ) → ReleaseDecision → Services → Services
release_mapping hdr decision s =
    let h = s.headers hdr in
    let s1 = check_and_poison hdr decision (registry_remove hdr s) in
    let kept =
      if is_cache decision.action && is_streaming h.mode_id
      then push_large_extent_cache hdr s1
      else none in
    if decision.quarantined || is_quarantine decision.action
    then set_header hdr (record (s1.headers hdr) { magic = 0 }) s1
    else elim kept [
      | some s2 ↦ s2
      | none ↦ record s1 {
        stats =
            adaptive_telemetry_on_munmap
              (adaptive_telemetry_on_unmapped h.mode_id h.mapped_size s1.stats);
        page_table = unregister_region h.region_base h.mapped_size s1.page_table;
        regions = munmap h.region_base s1.regions;
      }
    ]

unfoldable pub deallocate : (token hdr : ℕ) → ReleaseDecision → Services → Services
deallocate token hdr decision s =
    let h = s.headers hdr in
    let p = s.pages h.owner_page in
    if hdr == 0
    then s
    else if not (has_flag h.flags flag_pooled)
    then release_mapping hdr decision s
    else if h.owner_page == 0
    then s
    else elim (pool_head_for p.storage p.class_index s) [
      | none ↦ s
      | some head ↦ release_pooled token hdr h.owner_page p.storage p.class_index decision s
    ]

-- The request of a plan.
abbrev pub request_of_plan :
    (size alignment : ℕ) → ModeId → (token : ℕ) → AllocationPlan → AllocationRequest
request_of_plan size alignment mode token plan = record {
  size = size;
  alignment = alignment;
  mode = mode;
  thread_id = token;
  zero_fill = false;
  prefer_thread_cache = plan.use_thread_cache;
  prefer_direct_map = plan.prefer_direct_map;
  prefer_reuse = plan.prefer_reuse;
  prefer_low_rss = plan.prefer_low_rss;
  debug_redzone = plan.debug_redzone;
  debug_quarantine = plan.debug_quarantine;
  drain_remote_queue = plan.drain_remote_queue;
  prefer_occupancy_packing = plan.prefer_occupancy_packing;
  batch_size = plan.batch_size;
  empty_keep_limit = plan.empty_keep_limit;
  tcache_small_limit = plan.tcache_small_limit;
  tcache_medium_limit = plan.tcache_medium_limit;
  direct_map_threshold = plan.direct_map_threshold;
}

module _ (mmap : List Region → ℕ → Option ℕ) (token : ℕ) where
  unfoldable pub allocate_by_plan :
      StoragePreference → AllocationRequest → Services → Services × AllocationResult
  allocate_by_plan prefer_size_class req s = allocate_size_class mmap token req s
  allocate_by_plan prefer_span req s = allocate_span mmap token req s
  allocate_by_plan prefer_extent req s = allocate_extent mmap token req s
  allocate_by_plan prefer_direct req s = allocate_direct_map mmap token req s
  allocate_by_plan prefer_auto req s = allocate_auto mmap token req s

  -- The new user pointer, 0 where the allocation fails.
  unfoldable pub reallocate : (hdr new_size : ℕ) → Services → Services × ℕ
  reallocate hdr new_size s =
      let h = s.headers hdr in
      let keep = s.runtime.empty_cache_limit in
      let old_user = user_from_header hdr in
      let plan = plan_allocate keep h.mode_id new_size 16 in
      if hdr == 0
      then (s, 0)
      else if leb new_size h.usable
      then (s, old_user)
      else let (s1, result) =
          allocate_by_plan plan.storage (request_of_plan new_size 16 h.mode_id token plan) s in
        if result.user_ptr == 0
        then (s1, 0)
        else let s2 =
            count_event (adaptive_telemetry_on_alloc result (s1.headers result.header).mode_id)
              s1 in
          let h2 = s2.headers hdr in
          let size = if ltb h2.usable new_size then h2.usable else new_size in
          let s3 = record s2 { bytes = copy result.user_ptr old_user size s2.bytes } in
          let s4 = count_event (adaptive_telemetry_on_free_begin token h2) s3 in
          (deallocate token hdr (plan_free keep h.mode_id (some h2)) s4, result.user_ptr)
