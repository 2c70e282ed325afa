-- ===== src/Adaptive/Services/Pages.antt =====
-- src/adaptive_services.cpp: the pages of the pools. `mmap` answers with the base of a new mapping of a
-- size, given the mappings in force, or with none for MAP_FAILED.
pub mod Layout
pub mod Release
pub mod Retention
mod Tests
use my_malloc.Prelude.{
  put, ℕ, zero, suc, ◌+◌, ◌-◌, ◌*◌, ◌/◌, ◌%◌, ◌^◌, Bool, true, false, not, ◌&&◌, ◌||◌, Option, none,
  some, List, [], ◌∷◌, ltb, leb, ◌==◌, if◌then◌else◌, align_up,
}
use my_malloc.Adaptive.Types.{
  StorageId, size_class, span, AdaptiveHeader, AllocationRequest, hdr_offset, adaptive_magic,
}
use my_malloc.Adaptive.Runtime.{adaptive_next_alloc_epoch}
use my_malloc.Adaptive.Telemetry.{
  adaptive_telemetry_on_mapped, adaptive_telemetry_on_unmapped, adaptive_telemetry_on_release,
  adaptive_telemetry_on_munmap, adaptive_telemetry_on_empty_counts,
}
use my_malloc.Adaptive.Services.Sizes.{adaptive_small_class_count, adaptive_medium_class_count}
use my_malloc.Adaptive.Services.PageTable.{register_region, unregister_region}
use my_malloc.Adaptive.Services.State.{
  Services, Region, set_header, count_event, flag_pooled, unlink,
}

-- sizeof(AdaptivePage) of the 64-bit ABI.
abbrev pub size_of_page : ℕ
size_of_page = 64

-- The chain of pages of a class.
unfoldable pub pool_head_for : StorageId → (class_index : ℕ) → Services → Option (List ℕ)
pool_head_for size_class c s =
    if ltb c adaptive_small_class_count then some (s.small_pages c) else none
pool_head_for span c s = if ltb c adaptive_medium_class_count then some (s.medium_pages c) else none
pool_head_for _ c s = none

-- The write to the head that pool_head_for returns.
unfoldable pub set_pool : StorageId → (class_index : ℕ) → List ℕ → Services → Services
set_pool size_class c pages s = record s { small_pages = put s.small_pages c pages }
set_pool span c pages s = record s { medium_pages = put s.medium_pages c pages }
set_pool _ c pages s = s

unfoldable pub finalize_pooled_header :
    (hdr : ℕ) → AllocationRequest → StorageId → (usable mapped_size page : ℕ) → Services → Services
finalize_pooled_header hdr req storage usable mapped_size page s =
    let (runtime, epoch) = adaptive_next_alloc_epoch s.runtime in
    set_header hdr
      (record {
        magic = adaptive_magic;
        storage = storage;
        mode_id = req.mode;
        flags = flag_pooled;
        config_version = (s.pages page).config_version;
        requested = req.size;
        usable = usable;
        mapped_size = mapped_size;
        region_base = page;
        owner_page = page;
        owner_thread = req.thread_id;
        alloc_epoch = epoch;
        debug_cookie = 0;
      })
      (record s { runtime = runtime })

-- The addresses of the first n blocks, last first, which is the order of the free chain.
pub blocks : (first stride n : ℕ) → List ℕ
blocks first stride zero = []
blocks first stride (suc i) = (first + i * stride) ∷ blocks first stride i

-- The header of a free block.
abbrev pub free_header :
    AllocationRequest → StorageId → (version usable mapped_size page : ℕ) → AdaptiveHeader
free_header req storage version usable mapped_size page = record {
  magic = 0;
  storage = storage;
  mode_id = req.mode;
  flags = flag_pooled;
  config_version = version;
  requested = 0;
  usable = usable;
  mapped_size = mapped_size;
  region_base = page;
  owner_page = page;
  owner_thread = 0;
  alloc_epoch = 0;
  debug_cookie = 0;
}

pub write_headers : List ℕ → AdaptiveHeader → (ℕ → AdaptiveHeader) → ℕ → AdaptiveHeader
write_headers [] h headers a = headers a
write_headers (x ∷ xs) h headers a = if x == a then h else write_headers xs h headers a

pub page_stride : ℕ → ℕ
page_stride usable = align_up (hdr_offset + usable) 16

pub page_capacity : (usable mapped_size : ℕ) → ℕ
unfolding page_stride
page_capacity usable mapped_size = (mapped_size - align_up size_of_page 16) / page_stride usable

module _ (mmap : List Region → ℕ → Option ℕ) where
  -- With the stride, the offset of the first block and the capacity.
  pub cut_page :
      AllocationRequest
      → StorageId
      → (class_index usable mapped_size stride first_block capacity : ℕ) → Services
      → Option (ℕ × Services)
  unfolding blocks write_headers
  cut_page req storage class_index usable mapped_size stride first_block capacity s =
      if stride == 0 || leb mapped_size first_block
      then none
      else if capacity == 0 || ltb (2 ^ 32 - 1) capacity
      then none
      else elim (mmap s.regions mapped_size) [
        | none ↦ none
        | some region ↦
            let free = blocks (region + first_block) stride capacity in
            let version = s.runtime.config_version in
            some (
              region,
              record s {
                regions = record { base = region; size = mapped_size } ∷ s.regions;
                page_table = register_region region mapped_size s.page_table;
                stats = adaptive_telemetry_on_mapped req.mode mapped_size s.stats;
                pages = put s.pages region (record {
                  storage = storage;
                  mode_id = req.mode;
                  config_version = version;
                  class_index = class_index % 2 ^ 16;
                  block_usable = usable;
                  block_stride = stride;
                  mapped_size = mapped_size;
                  capacity = capacity;
                  live_count = 0;
                  free_list = free;
                });
                headers =
                    write_headers free (free_header req storage version usable mapped_size region)
                      s.headers;
              },
            )
      ]

  unfoldable pub create_pool_page :
      AllocationRequest
      → StorageId
      → (class_index usable mapped_size : ℕ) → Services
      → Option (ℕ × Services)
  unfolding cut_page page_stride page_capacity
  create_pool_page req storage class_index usable mapped_size s =
      cut_page req storage class_index usable mapped_size (page_stride usable)
        (align_up size_of_page 16) (page_capacity usable mapped_size) s

pub count_empty_locked : List ℕ → Services → ℕ
count_empty_locked [] s = 0
count_empty_locked (page ∷ rest) s =
    (if (s.pages page).live_count == 0 then 1 else 0) + count_empty_locked rest s

-- munmap of a mapping in force.
unfoldable pub munmap : (base : ℕ) → List Region → List Region
munmap base [] = []
munmap base (r ∷ rs) = if r.base == base then rs else r ∷ munmap base rs

-- The target is on the chain of the class, which loses it.
unfoldable pub release_page_locked :
    StorageId → (class_index : ℕ) → (head : List ℕ) → (target : ℕ) → Services → Services
release_page_locked storage c head target s =
    let p = s.pages target in
    let s' = set_pool storage c (unlink target head) s in
    if not (p.live_count == 0) then s else record s' {
      stats = adaptive_telemetry_on_munmap (
          adaptive_telemetry_on_unmapped p.mode_id p.mapped_size
            (adaptive_telemetry_on_release p.storage p.mapped_size s'.stats));
      page_table = unregister_region target p.mapped_size s'.page_table;
      regions = munmap target s'.regions;
    }

pub on_chain : ℕ → List ℕ → Bool
on_chain target [] = false
on_chain target (page ∷ rest) = page == target || on_chain target rest

-- The chain after the call, for its empty pages.
abbrev pool_or_empty : Option (List ℕ) → List ℕ
pool_or_empty none = []
pool_or_empty (some pages) = pages

unfoldable pub release_target_empty_locked :
    StorageId → (class_index : ℕ) → (target : ℕ) → Services → Option Services
unfolding on_chain count_empty_locked
release_target_empty_locked storage c target s = elim (pool_head_for storage c s) [
  | none ↦ none
  | some head ↦
      if not ((s.pages target).live_count == 0) || not (on_chain target head)
      then none
      else let s' = release_page_locked storage c head target s in
        some (
          count_event
            (adaptive_telemetry_on_empty_counts storage
              (count_empty_locked (pool_or_empty (pool_head_for storage c s')) s'))
            s')
]

-- The first page without live blocks.
pub first_empty : List ℕ → Services → Option ℕ
first_empty [] s = none
first_empty (page ∷ rest) s =
    if (s.pages page).live_count == 0 then some page else first_empty rest s

-- The loop, with the number of pages that it still has to release.
release_loop : StorageId → (class_index : ℕ) → (excess : ℕ) → Services → Services
unfolding first_empty
release_loop id c zero s = s
release_loop id c (suc excess) s =
    let head = pool_or_empty (pool_head_for id c s) in
    elim (first_empty head s) [
      | none ↦ s
      | some page ↦ release_loop id c excess (release_page_locked id c head page s)
    ]

unfoldable pub release_empty_locked : StorageId → (class_index keep : ℕ) → Services → Services
unfolding release_loop count_empty_locked
release_empty_locked storage c keep s = elim (pool_head_for storage c s) [
  | none ↦ s
  | some head ↦
      let empty = count_empty_locked head s in
      release_loop storage c (empty - keep)
        (count_event (adaptive_telemetry_on_empty_counts storage empty) s)
]

abbrev pub has_free : ℕ → Services → Bool
has_free page s = elim (s.pages page).free_list [ [] ↦ false | b ∷ bs ↦ true ]

pub first_with_free : List ℕ → Services → Option ℕ
first_with_free [] s = none
first_with_free (page ∷ rest) s = if has_free page s then some page else first_with_free rest s

abbrev is_better : (selected : Option ℕ) → (best_live live : ℕ) → Bool
is_better none best_live live = true
is_better (some page) best_live live = ltb best_live live

-- The scan for the fullest page with a free block, with the best one so far and its live blocks.
pub fullest : List ℕ → (selected : Option ℕ) → (best_live : ℕ) → Services → Option ℕ
fullest [] selected best_live s = selected
fullest (page ∷ rest) selected best_live s =
    let live = (s.pages page).live_count in
    let take = has_free page s && is_better selected best_live live in
    fullest rest (if take then some page else selected) (if take then live else best_live) s

unfoldable pub select_pool_page_locked : List ℕ → AllocationRequest → Services → Option ℕ
unfolding first_with_free fullest
select_pool_page_locked head req s =
    if req.prefer_occupancy_packing then fullest head none 0 s else first_with_free head s
