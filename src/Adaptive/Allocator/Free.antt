-- ===== src/Adaptive/Allocator/Free.antt =====
-- What src/adaptive_allocator.cpp does with a block that is freed twice.
use Prim.Native.String.{String}
use my_malloc.Prelude.{
  ℕ, ◌+◌, ◌%◌, ◌≡◌, ◌≢◌, refl, ◌∙◌, ap, Bool, true, false, Option, some, List, ◌==◌, word, arith,
}
use my_malloc.Adaptive.Types.{
  hdr_offset, StorageId, size_class, span, direct_map, no_storage, unnamed_storage,
}
use my_malloc.Adaptive.Doubles.{Double}
use my_malloc.Adaptive.Modes.{plan_free}
use my_malloc.Adaptive.Telemetry.{
  AdaptiveStats, adaptive_telemetry_on_free_call, adaptive_telemetry_on_free_begin,
  adaptive_telemetry_on_invalid_free, adaptive_telemetry_on_double_free,
  adaptive_telemetry_on_header_corruption,
}
use my_malloc.Adaptive.Selector.Cooldown.{adaptive_selector_maybe_switch-stats}
use my_malloc.Adaptive.Services.State.{Services, Region, count_event, has_flag, flag_pooled}
use my_malloc.Adaptive.Services.Headers.{header_from_user, user_from_header}
use my_malloc.Adaptive.Services.Pages.{pool_head_for}
use my_malloc.Adaptive.Services.Release.DoubleFree.{
  Dead, header_from_user-Dead, deallocate-Dead, without_header, header_from_user-without_header,
}
use my_malloc.Adaptive.Allocator.{Allocator, set_services, maybe_switch, free_header, adaptive_free}

-- The same blocks, chains, pages and mappings; the runtime and the counters may differ.
pub record SameMemory (s s' : Services) : Type 0 where
  pub registry : s'.registry ≡ s.registry
  pub small_pages : s'.small_pages ≡ s.small_pages
  pub medium_pages : s'.medium_pages ≡ s.medium_pages
  pub page_table : s'.page_table ≡ s.page_table
  pub remote_pending : s'.remote_pending ≡ s.remote_pending
  pub remote_queues : s'.remote_queues ≡ s.remote_queues
  pub large_extent_cache : s'.large_extent_cache ≡ s.large_extent_cache
  pub thread_cache : s'.thread_cache ≡ s.thread_cache
  pub headers : s'.headers ≡ s.headers
  pub pages : s'.pages ≡ s.pages
  pub bytes : s'.bytes ≡ s.bytes
  pub regions : s'.regions ≡ s.regions

-- What a refused free changes.
pub record Refused (s s' : Services) : Type 0 where
  pub memory : SameMemory s s'
  pub counted : s'.stats.invalid_free_count ≡ (s.stats.invalid_free_count + 1) % word

unchanged : (s : Services) (stats : AdaptiveStats) → SameMemory s (record s { stats = stats })
unchanged s stats = record {
  registry = refl;
  small_pages = refl;
  medium_pages = refl;
  page_table = refl;
  remote_pending = refl;
  remote_queues = refl;
  large_extent_cache = refl;
  thread_cache = refl;
  headers = refl;
  pages = refl;
  bytes = refl;
  regions = refl;
}

pool_head_for-counted :
    (id : StorageId) (c : ℕ) (s : Services) (f : AdaptiveStats → AdaptiveStats)
    → pool_head_for id c (count_event f s) ≡ pool_head_for id c s
unfolding pool_head_for
pool_head_for-counted size_class c s f = refl
pool_head_for-counted span c s f = refl
pool_head_for-counted direct_map c s f = refl
pool_head_for-counted no_storage c s f = refl
pool_head_for-counted (unnamed_storage k) c s f = refl

-- The states of a lookup without a header, where the free call was counted.
answers_counted :
    (s : Services) (a b c : Bool)
    → let t = count_event adaptive_telemetry_on_free_call s in
      Refused s (
        count_event adaptive_telemetry_on_invalid_free
          (without_header a b c
            (count_event adaptive_telemetry_on_double_free t)
            (count_event adaptive_telemetry_on_header_corruption t)
            t).0)
unfolding adaptive_telemetry_on_free_call adaptive_telemetry_on_invalid_free
    adaptive_telemetry_on_double_free adaptive_telemetry_on_header_corruption
answers_counted s true true c = record { memory = unchanged s _; counted = refl }
answers_counted s true false true = record { memory = unchanged s _; counted = refl }
answers_counted s true false false = record { memory = unchanged s _; counted = refl }
answers_counted s false b c = record { memory = unchanged s _; counted = refl }

module _ (getenv : String → Option String) (d : Double) (mmap : List Region → ℕ → Option ℕ)
    (token : ℕ) where
  maybe_switch-Refused :
      (s : Services) (a : Allocator d.F)
      → Refused s a.services
      → Refused s (maybe_switch getenv d mmap token a).services
  unfolding maybe_switch
  maybe_switch-Refused s a r =
      let m = r.memory in
      record {
        memory = record {
          registry = m.registry;
          small_pages = m.small_pages;
          medium_pages = m.medium_pages;
          page_table = m.page_table;
          remote_pending = m.remote_pending;
          remote_queues = m.remote_queues;
          large_extent_cache = m.large_extent_cache;
          thread_cache = m.thread_cache;
          headers = m.headers;
          pages = m.pages;
          bytes = m.bytes;
          regions = m.regions;
        };
        counted =
            ap (λ (stats : AdaptiveStats). stats.invalid_free_count)
              (adaptive_selector_maybe_switch-stats getenv d _)
            ∙ r.counted;
      }

  not_null : (n : ℕ) → (n + hdr_offset == 0) ≡ false
  not_null n = ground arith

  -- A free of a dead block.
  adaptive_free-Refused :
      (hdr : ℕ) (a : Allocator d.F)
      → Dead hdr a.services
      → Refused a.services (adaptive_free getenv d mmap token (user_from_header hdr) a).services
  unfolding adaptive_free free_header
  adaptive_free-Refused hdr a dead =
      let t : Services = count_event adaptive_telemetry_on_free_call a.services in
      let form = header_from_user-without_header hdr t dead in
      let ptr_ne : (user_from_header hdr == 0) ≡ false = not_null hdr in
      let found : Services × Option ℕ = header_from_user (user_from_header hdr) t in
      let none_found = header_from_user-Dead hdr t dead in
      let lost : Refused a.services (count_event adaptive_telemetry_on_invalid_free found.0) =
        rw form.3 (answers_counted a.services form.0 form.1 form.2) in
      let freed : Refused a.services (free_header getenv d mmap token found.0 found.1) =
        rw none_found lost in
      rw ptr_ne (
        maybe_switch-Refused a.services
          (set_services (free_header getenv d mmap token found.0 found.1) a) freed)

  adaptive_free-Dead :
      (hdr : ℕ) (a : Allocator d.F) (s : Services) (head : List ℕ)
      → hdr ≢ 0
      → header_from_user
          (user_from_header hdr)
          (count_event adaptive_telemetry_on_free_call a.services)
        ≡ (s, some hdr)
      → has_flag (s.headers hdr).flags flag_pooled ≡ true
      → (s.headers hdr).owner_page ≢ 0
      → let page = s.pages (s.headers hdr).owner_page in
        pool_head_for page.storage page.class_index s ≡ some head
        → Dead hdr (adaptive_free getenv d mmap token (user_from_header hdr) a).services
  unfolding adaptive_free free_header maybe_switch
  adaptive_free-Dead hdr a s head hdr_ne found pooled page_ne known =
      let h = s.headers hdr in
      let page = s.pages h.owner_page in
      let begun : Services = count_event (adaptive_telemetry_on_free_begin token h) s in
      rw (not_null hdr, found)
        (deallocate-Dead token hdr (plan_free s.runtime.empty_cache_limit h.mode_id (some h)) begun
          head hdr_ne pooled page_ne
          (pool_head_for-counted page.storage page.class_index s
              (adaptive_telemetry_on_free_begin token h)
            ∙ known))

  -- A block that the allocator has accepted in a free and that is freed again is refused: where the
  -- first free finds the header of a pooled block of a known class, the second changes no block, chain,
  -- page, byte or mapping, and counts one invalid free (modulo 2^64), whatever the policy of the
  -- block's mode did with it and whatever the selector switched to in between.
  pub adaptive_free_twice :
      (hdr : ℕ) (a : Allocator d.F) (s : Services) (head : List ℕ)
      → hdr ≢ 0
      → header_from_user
          (user_from_header hdr)
          (count_event adaptive_telemetry_on_free_call a.services)
        ≡ (s, some hdr)
      → has_flag (s.headers hdr).flags flag_pooled ≡ true
      → (s.headers hdr).owner_page ≢ 0
      → let page = s.pages (s.headers hdr).owner_page in
        pool_head_for page.storage page.class_index s ≡ some head
        → let once = adaptive_free getenv d mmap token (user_from_header hdr) a in
          Refused once.services
            (adaptive_free getenv d mmap token (user_from_header hdr) once).services
  adaptive_free_twice hdr a s head hdr_ne found pooled page_ne known =
      adaptive_free-Refused hdr (adaptive_free getenv d mmap token (user_from_header hdr) a)
        (adaptive_free-Dead hdr a s head hdr_ne found pooled page_ne known)
