-- ===== src/Adaptive/Services/Pages/Tests.antt =====
-- A page of 64 KiB for blocks of 112 bytes.
use my_malloc.Prelude.{
  put, ℕ, ◌+◌, ◌^◌, ◌<◌, ◌≡◌, ◌⊎◌, Option, none, some, List, [], ◌∷◌, arith, leb, if◌then◌else◌,
}
use my_malloc.Adaptive.Types.{AllocationRequest, balanced, size_class}
use my_malloc.Adaptive.Runtime.{initial}
use my_malloc.Adaptive.Services.State.{Services, Region, initial_services, unlink}
use my_malloc.Prelude.{refl}
use my_malloc.Adaptive.Services.Pages.{
  set_pool, release_page_locked, create_pool_page, page_stride, pool_head_for, release_empty_locked,
}
use my_malloc.Adaptive.Services.Pages.Retention.{Kept, release_empty_locked_lem}
use my_malloc.Prelude.{false, true}
use my_malloc.Adaptive.Services.Pages.Layout.{Cut, create_pool_page_lem}

abbrev mmap : List Region → ℕ → Option ℕ
mmap rs n = if leb n (2 ^ 20) then some 0x100000 else none

mmap_base : (n b : ℕ) → (if leb n (2 ^ 20) then some 0x100000 else none) ≡ some b → 0x100000 ≡ b
mmap_base n b h = ground arith

abbrev small : AllocationRequest
small = record {
  size = 100;
  alignment = 16;
  mode = balanced;
  thread_id = 7;
  zero_fill = false;
  prefer_thread_cache = false;
  prefer_direct_map = false;
  prefer_reuse = true;
  prefer_low_rss = false;
  debug_redzone = false;
  debug_quarantine = false;
  drain_remote_queue = false;
  prefer_occupancy_packing = false;
  batch_size = 1;
  empty_keep_limit = 2;
  tcache_small_limit = 0;
  tcache_medium_limit = 0;
  direct_map_threshold = 0;
}

abbrev start : Services
start = initial_services initial

create_pool_page_lem_example :
    ((region : ℕ) × (s' : Services) × (create_pool_page mmap small size_class 6 112 65536 start
        ≡ some (region, s'))
      × Cut mmap 112 65536 start region s')
    ⊎ ((create_pool_page mmap small size_class 6 112 65536 start ≡ none)
        × ((mmap start.regions 65536 ≡ none) ⊎ (65536 < 64 + page_stride 112)))
create_pool_page_lem_example =
    create_pool_page_lem mmap small size_class 6 112 65536 start
      (λ rs n b h. omega (arith, mmap_base n b h)) (omega arith) (omega arith)

-- Three pages of one class, of which the middle one has live blocks.
abbrev three_pages : Services
three_pages = record start {
  small_pages = put start.small_pages 6 (0x110000 ∷ 0x120000 ∷ 0x130000 ∷ []);
  pages = put start.pages 0x120000 (record (start.pages 0x120000) { live_count = 5 });
}

release_empty_locked_lem_example :
    ((pool_head_for size_class 6 three_pages ≡ none)
      × (release_empty_locked size_class 6 1 three_pages ≡ three_pages))
    ⊎ ((head : List ℕ) × (pool_head_for size_class 6 three_pages ≡ some head)
        × Kept size_class 6 1 three_pages (release_empty_locked size_class 6 1 three_pages) head)
release_empty_locked_lem_example = release_empty_locked_lem size_class 6 1 three_pages

-- One of the two empty pages goes, the other one and the page with live blocks stay.
keeps_two :
    pool_head_for size_class 6 (release_empty_locked size_class 6 1 three_pages)
    ≡ some (0x120000 ∷ 0x130000 ∷ [])
unfolding pool_head_for release_empty_locked release_page_locked set_pool unlink
keeps_two = refl
