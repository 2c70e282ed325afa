-- ===== src/Adaptive/Allocator.antt =====
-- src/adaptive_allocator.cpp: the public functions, over the services, the telemetry and the selector.
-- `token` is the calling thread's; `mmap`, `getenv` and `d` stand for the system and for double.
pub mod Free
mod Tests
use Prim.Native.String.{String}
use my_malloc.Prelude.{
  ℕ, zero, suc, ◌+◌, ◌-◌, ◌*◌, ◌/◌, ◌%◌, ◌^◌, ◌≡◌, bit_and, bit_or, Bool, true, false, not, ◌&&◌,
  ◌||◌, Option, none, some, List, [], ◌∷◌, ltb, leb, ◌==◌, if◌then◌else◌, word,
}
use my_malloc.Adaptive.Types.{
  ModeId, mode_value, StoragePreference, prefer_direct, AllocationRequest, AllocationResult,
  AllocationPlan, AdaptiveHeader,
}
use my_malloc.Adaptive.Doubles.{Double}
use my_malloc.Adaptive.Modes.{plan_allocate, plan_free}
use my_malloc.Adaptive.Runtime.{adaptive_runtime_init, adaptive_mode_index}
use my_malloc.Adaptive.Telemetry.{
  adaptive_telemetry_on_malloc_call, adaptive_telemetry_on_alloc,
  adaptive_telemetry_on_alloc_failure, adaptive_telemetry_on_free_call,
  adaptive_telemetry_on_free_begin, adaptive_telemetry_on_invalid_free,
  adaptive_telemetry_on_realloc,
}
use my_malloc.Adaptive.Telemetry.Window.{TelemetryCounters}
use my_malloc.Adaptive.Selector.{Selector, AdaptiveSelectorEvent, adaptive_selector_maybe_switch}
use my_malloc.Adaptive.Services.State.{Services, Region, count_event, fail_result}
use my_malloc.Adaptive.Services.Headers.{header_from_user, usable_size, owns}
use my_malloc.Adaptive.Services.Release.{request_of_plan, allocate_by_plan, deallocate, reallocate}

-- Everything that the program keeps: the services with the runtime and the counters, the base of the
-- window, and the ring of the selector.
pub record Allocator (F : Type 0) : Type 0 where
  pub services : Services
  pub window_base : TelemetryCounters
  pub event_seq : ℕ
  pub events : ℕ → AdaptiveSelectorEvent F

abbrev pub set_services : {F : Type 0} → Services → Allocator F → Allocator F
set_services s a = record a { services = s }

abbrev is_direct : StoragePreference → Bool
is_direct prefer_direct = true
is_direct _ = false

unfoldable pub request_from_plan :
    (size alignment : ℕ) → ModeId → (token : ℕ) → AllocationPlan → AllocationRequest
request_from_plan size alignment mode token plan =
    record (request_of_plan size alignment mode token plan) {
      prefer_direct_map = plan.prefer_direct_map || is_direct plan.storage;
    }

-- The bits below the highest one are set in steps of 1, 2, 4, 8, 16 and 32.
abbrev pub smear : (shift x : ℕ) → ℕ
smear shift x = bit_or x (x / 2 ^ shift)

-- The alignment that memalign uses for one above 16; 0 where the next power of two is 2^64.
unfoldable pub round_alignment : ℕ → ℕ
round_alignment alignment =
    if bit_and alignment ((alignment + (word - 1)) % word) == 0
    then alignment
    else (smear 32
          (smear 16 (smear 8 (smear 4 (smear 2 (smear 1 ((alignment + (word - 1)) % word))))))
        + 1)
      % word

module _ (getenv : String → Option String) (d : Double) (mmap : List Region → ℕ → Option ℕ)
    (token : ℕ) where
  open d use {F}

  -- adaptive_selector_maybe_switch on the whole state.
  unfoldable pub maybe_switch : Allocator F → Allocator F
  maybe_switch a =
      let s = a.services in
      let before : Selector F = record {
        runtime = s.runtime;
        telemetry = record { stats = s.stats; window_base = a.window_base };
        event_seq = a.event_seq;
        events = a.events;
      } in
      let after = adaptive_selector_maybe_switch getenv d before in
      record {
        services = record s { runtime = after.runtime; stats = after.telemetry.stats };
        window_base = after.telemetry.window_base;
        event_seq = after.event_seq;
        events = after.events;
      }

  -- The result is counted.
  count_result : AllocationResult → Services → Services
  count_result result s =
      if result.user_ptr == 0
      then count_event adaptive_telemetry_on_alloc_failure s
      else count_event (adaptive_telemetry_on_alloc result (s.headers result.header).mode_id) s

  unfoldable pub allocate_with_active_mode :
      (size alignment : ℕ) → Allocator F → Allocator F × AllocationResult
  unfolding count_result
  allocate_with_active_mode size alignment a =
      let s = a.services in
      let runtime = adaptive_runtime_init getenv s.runtime in
      let mode = runtime.active_mode in
      let plan = plan_allocate runtime.empty_cache_limit mode size alignment in
      let (s1, result) =
        allocate_by_plan mmap token plan.storage (request_from_plan size alignment mode token plan)
          (record s { runtime = runtime }) in
      (maybe_switch (set_services (count_result result s1) a), result)

  unfoldable pub adaptive_malloc : (size : ℕ) → Allocator F → Allocator F × ℕ
  adaptive_malloc size a =
      let counted = set_services (count_event adaptive_telemetry_on_malloc_call a.services) a in
      let (a', result) = allocate_with_active_mode size 16 counted in (a', result.user_ptr)

  -- A header that was found is freed by the policy of its mode; none is counted.
  unfoldable pub free_header : Services → Option ℕ → Services
  free_header s none = count_event adaptive_telemetry_on_invalid_free s
  free_header s (some hdr) =
      let h = s.headers hdr in
      deallocate token hdr (plan_free s.runtime.empty_cache_limit h.mode_id (some h))
        (count_event (adaptive_telemetry_on_free_begin token h) s)

  unfoldable pub adaptive_free : (ptr : ℕ) → Allocator F → Allocator F
  adaptive_free ptr a =
      let (s, found) =
        header_from_user ptr (count_event adaptive_telemetry_on_free_call a.services) in
      if ptr == 0 then a else maybe_switch (set_services (free_header s found) a)

  unfoldable pub adaptive_realloc : (ptr size : ℕ) → Allocator F → Allocator F × ℕ
  adaptive_realloc ptr size a =
      let counted = set_services (count_event adaptive_telemetry_on_realloc a.services) a in
      let (s, found) = header_from_user ptr counted.services in
      if ptr == 0
      then adaptive_malloc size counted
      else if size == 0
      then (adaptive_free ptr counted, 0)
      else elim found [
        | none ↦ (set_services (count_event adaptive_telemetry_on_invalid_free s) counted, 0)
        | some hdr ↦
            let (s', user) = reallocate mmap token hdr size s in (set_services s' counted, user)
      ]

  -- The policy of a header's mode has the mode's own id: the header's mode is one of the eight.
  unfoldable pub adaptive_usable_size : (ptr : ℕ) → Allocator F → Allocator F × ℕ
  adaptive_usable_size ptr a =
      let (s, found) = header_from_user ptr a.services in
      if ptr == 0 then (a, 0) else elim found [
        | none ↦ (set_services s a, 0)
        | some hdr ↦
            let mode = (s.headers hdr).mode_id in
            (
              set_services s a,
              if adaptive_mode_index mode == mode_value mode then usable_size hdr s else 0,
            )
      ]

  unfoldable pub adaptive_memalign : (alignment size : ℕ) → Allocator F → Allocator F × ℕ
  unfolding round_alignment
  adaptive_memalign alignment size a =
      let alignment' = if ltb alignment 8 then 8 else alignment in
      let rounded = round_alignment alignment' in
      let counted = set_services (count_event adaptive_telemetry_on_malloc_call a.services) a in
      if leb alignment' 16
      then adaptive_malloc size a
      else if rounded == 0
      then (set_services (count_event adaptive_telemetry_on_alloc_failure a.services) a, 0)
      else let (a', result) = allocate_with_active_mode size rounded counted in
        (a', result.user_ptr)

  unfoldable pub adaptive_owns : (ptr : ℕ) → Allocator F → Allocator F × Bool
  adaptive_owns ptr a = let (s, b) = owns ptr a.services in (set_services s a, b)
