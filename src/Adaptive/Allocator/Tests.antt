-- ===== src/Adaptive/Allocator/Tests.antt =====
-- A live block of a pool page is freed twice.
use Prim.Native.String.{String}
use my_malloc.Prelude.{ℕ, ◌≡◌, refl, false, Option, none, some, List, [], ◌∷◌, arith}
use my_malloc.Adaptive.Types.{balanced, size_class}
use my_malloc.Adaptive.Doubles.Billionths.{billionths, quiet}
use my_malloc.Adaptive.Runtime.{adaptive_valid_mode_id}
use my_malloc.Adaptive.Telemetry.{adaptive_telemetry_on_free_call}
use my_malloc.Adaptive.Telemetry.Window.{zero_counters}
use my_malloc.Adaptive.Selector.{AdaptiveSelectorEvent}
use my_malloc.Adaptive.Services.State.{Services, Region, count_event}
use my_malloc.Adaptive.Services.PageTable.{page_maybe_owned, find_probe}
use my_malloc.Adaptive.Services.Headers.{
  header_from_user, header_fast, header_plausible, valid_storage_id, user_from_header,
}
use my_malloc.Adaptive.Services.Pages.{pool_head_for}
use my_malloc.Adaptive.Services.Release.Examples.{one_live}
use my_malloc.Adaptive.Allocator.{Allocator, adaptive_free}
use my_malloc.Adaptive.Allocator.Free.{Refused, adaptive_free_twice}

abbrev unset : String → Option String
unset name = none

abbrev no_mmap : List Region → ℕ → Option ℕ
no_mmap rs n = none

abbrev no_event : AdaptiveSelectorEvent ℕ
no_event = record {
  sequence = 0;
  previous_mode = balanced;
  current_mode = balanced;
  candidate_mode = balanced;
  switched = false;
  reason = "";
  selector_backend = "";
  rule_candidate = balanced;
  model_candidate = balanced;
  model_confidence = 0;
  features = quiet;
}

abbrev start : Allocator ℕ
start = record {
  services = one_live;
  window_base = zero_counters;
  event_seq = 0;
  events = λ i. no_event;
}

abbrev counted : Services
counted = count_event adaptive_telemetry_on_free_call one_live

found : header_from_user (user_from_header 0x100040) counted ≡ (counted, some 0x100040)
unfolding header_from_user header_fast page_maybe_owned find_probe header_plausible valid_storage_id
    adaptive_valid_mode_id
found = refl

known : pool_head_for size_class 6 counted ≡ some (0x100000 ∷ [])
unfolding pool_head_for
known = refl

adaptive_free_twice_example :
    let once = adaptive_free unset billionths no_mmap 7 (user_from_header 0x100040) start in
    Refused once.services
      (adaptive_free unset billionths no_mmap 7 (user_from_header 0x100040) once).services
adaptive_free_twice_example =
    adaptive_free_twice unset billionths no_mmap 7 0x100040 start counted (0x100000 ∷ [])
      (λ e. absurd (omega arith)) found refl (λ e. absurd (omega arith)) known
