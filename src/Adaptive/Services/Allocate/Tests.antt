-- ===== src/Adaptive/Services/Allocate/Tests.antt =====
-- Direct mappings of an operating system that maps up to 1 MiB at one fixed address.
use my_malloc.Prelude.{
  ℕ, ◌^◌, ◌≤◌, ◌≡◌, refl, inr, true, false, Option, none, some, List, arith, leb, if◌then◌else◌,
}
use my_malloc.Adaptive.Types.{AllocationRequest, hardened_debug}
use my_malloc.Adaptive.Runtime.{initial, adaptive_valid_mode_id}
use my_malloc.Adaptive.Services.State.{Services, Region, initial_services}
use my_malloc.Adaptive.Services.PageTable.{page_key, page_count, register_page, register_probe}
use my_malloc.Adaptive.Services.PageTable.Regions.{room_for_all, empty-Represents}
use my_malloc.Adaptive.Services.Headers.{header_from_user}
use my_malloc.Adaptive.Services.Allocate.{place_mapping, allocate_direct_map}
use my_malloc.Adaptive.Services.Allocate.DirectMap.{
  MmapPlaces, Outcome, allocate_direct_map_lem, place_mapping-Placed,
}
use my_malloc.Adaptive.Services.Allocate.Lookup.{header_from_user-place_mapping}

abbrev mmap : List Region → ℕ → Option ℕ
mmap rs n = if leb n (2 ^ 20) then some 0x100000 else none

mmap_base :
    (n b : ℕ)
    → (if leb n (2 ^ 20) then some 0x100000 else none) ≡ some b
    → (0x100000 ≡ b) × (n ≤ 2 ^ 20)
mmap_base n b h = ground arith

mmap-MmapPlaces : MmapPlaces mmap
mmap-MmapPlaces = record {
  above = λ rs n b h. let e = mmap_base n b h in omega (arith, e.0);
  aligned = λ rs n b h. let e = mmap_base n b h in omega (arith, e.0);
  below = λ rs n b h. let e = mmap_base n b h in omega (arith, e.0, e.1);
}

abbrev guarded : AllocationRequest
guarded = record {
  size = 100;
  alignment = 256;
  mode = hardened_debug;
  thread_id = 7;
  zero_fill = false;
  prefer_thread_cache = false;
  prefer_direct_map = true;
  prefer_reuse = false;
  prefer_low_rss = false;
  debug_redzone = true;
  debug_quarantine = true;
  drain_remote_queue = false;
  prefer_occupancy_packing = false;
  batch_size = 1;
  empty_keep_limit = 0;
  tcache_small_limit = 0;
  tcache_medium_limit = 0;
  direct_map_threshold = 0;
}

abbrev start : Services
start = initial_services initial

allocate_direct_map_lem_example :
    Outcome mmap guarded start (allocate_direct_map mmap 7 guarded start)
allocate_direct_map_lem_example =
    allocate_direct_map_lem mmap 7 guarded start mmap-MmapPlaces (inr (8, omega arith, refl)) refl

room : room_for_all (page_key 0x100000) (page_count 0x100000 4096) (λ i. 0) ≡ true
unfolding page_count register_page register_probe
room = refl

header_from_user-place_mapping_example :
    let (s', r) = place_mapping guarded 112 4096 0x100000 start in
    header_from_user r.user_ptr s' ≡ (s', some r.header)
unfolding adaptive_valid_mode_id
header_from_user-place_mapping_example =
    header_from_user-place_mapping guarded 112 4096 0x100000 start (λ q. false)
      (place_mapping-Placed guarded 112 4096 0x100000 start (inr (8, omega arith, refl))
        (omega arith) (omega arith) (omega arith) (omega arith))
      (omega arith) empty-Represents (omega arith) (omega arith) (omega arith) (λ q h. refl) room
      refl
