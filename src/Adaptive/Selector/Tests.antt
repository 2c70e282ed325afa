-- ===== src/Adaptive/Selector/Tests.antt =====
-- A window with many remote frees makes the rule selector leave the balanced mode.
use Prim.Native.String.{String}
use my_malloc.Prelude.{ℕ, ◌*◌, ◌^◌, ◌≡◌, ◌≢◌, refl, true, false, Option, none, [], ◌∷◌, arith}
use my_malloc.Adaptive.Types.{balanced, cross_thread_message}
use my_malloc.Adaptive.Doubles.Billionths.{billionths, quiet}
use my_malloc.Adaptive.Runtime.{
  initial, rule, adaptive_runtime_init, adaptive_activate_mode, adaptive_selector_window_counter,
  adaptive_valid_mode_id, switch_to,
}
use my_malloc.Adaptive.Telemetry.{zero_stats}
use my_malloc.Adaptive.Telemetry.Window.{Telemetry, adaptive_extract_window_features, zero_counters}
use my_malloc.Prelude.{List, map, ◌-◌, ◌+◌}
use my_malloc.Adaptive.Selector.{
  Selector, AdaptiveSelectorEvent, adaptive_selector_maybe_switch, smaller,
  adaptive_selector_events_snapshot,
}
use my_malloc.Adaptive.Selector.Ring.{numbers, adaptive_selector_events_snapshot-run}
use my_malloc.Adaptive.Selector.Cooldown.{
  Switched, run, adaptive_selector_maybe_switch-Switched, adaptive_selector_maybe_switch-cooldown,
}

abbrev unset : String → Option String
unset name = none

abbrev no_event : AdaptiveSelectorEvent ℕ
no_event = record {
  sequence = 0;
  previous_mode = balanced;
  current_mode = balanced;
  candidate_mode = balanced;
  switched = false;
  reason = "";
  selector_backend = "";
  rule_candidate = balanced;
  model_candidate = balanced;
  model_confidence = 0;
  features = quiet;
}

abbrev busy : Selector ℕ
busy = record {
  runtime = record initial {
    initialized = true;
    selector_kind = rule;
    mode_window = 64;
    selector_counter = 63;
  };
  telemetry = record {
    stats = record zero_stats { remote_free_count = 100; malloc_calls = 100; free_calls = 100 };
    window_base = zero_counters;
  };
  event_seq = 0;
  events = λ i. no_event;
}

busy_features :
    (adaptive_extract_window_features billionths busy.telemetry).1.remote_free_ratio ≡ 10 ^ 9
unfolding adaptive_extract_window_features zero_counters
busy_features = refl

busy_switches :
    (adaptive_selector_maybe_switch unset billionths busy).runtime.active_mode
    ≡ cross_thread_message
unfolding adaptive_selector_maybe_switch adaptive_runtime_init adaptive_activate_mode
    adaptive_selector_window_counter adaptive_extract_window_features zero_counters
    adaptive_valid_mode_id switch_to
busy_switches = refl

busy_changes :
    (adaptive_selector_maybe_switch unset billionths busy).runtime.active_mode
    ≢ busy.runtime.active_mode
busy_changes e = absurd (cc (busy_switches, e))

adaptive_selector_maybe_switch-Switched_example :
    Switched unset billionths 64 balanced
      (1 * 64)
      0
      (adaptive_selector_maybe_switch unset billionths busy)
adaptive_selector_maybe_switch-Switched_example =
    adaptive_selector_maybe_switch-Switched unset billionths busy refl busy_changes

abbrev same_counts : Telemetry → Telemetry
same_counts t = t

adaptive_selector_maybe_switch-cooldown_example :
    (run unset billionths
      (same_counts ∷ same_counts ∷ [])
      (adaptive_selector_maybe_switch unset billionths busy)).runtime.active_mode
    ≡ (adaptive_selector_maybe_switch unset billionths busy).runtime.active_mode
adaptive_selector_maybe_switch-cooldown_example =
    adaptive_selector_maybe_switch-cooldown unset billionths busy (same_counts ∷ same_counts ∷ [])
      refl busy_changes (omega arith) (omega arith)

-- The first of three calls closes a window, and the snapshot has its event.
abbrev three_calls : List (Telemetry → Telemetry)
three_calls = same_counts ∷ same_counts ∷ same_counts ∷ []

adaptive_selector_events_snapshot-run_example :
    map
      (λ (e : AdaptiveSelectorEvent ℕ). e.sequence)
      (adaptive_selector_events_snapshot 8 (run unset billionths three_calls busy))
    ≡ numbers
        ((run unset billionths three_calls busy).event_seq
          - smaller (smaller (run unset billionths three_calls busy).event_seq 64) 8
          + 1)
        (smaller (smaller (run unset billionths three_calls busy).event_seq 64) 8)
adaptive_selector_events_snapshot-run_example =
    adaptive_selector_events_snapshot-run unset billionths three_calls busy 8 refl (omega arith)

one_event : (run unset billionths three_calls busy).event_seq ≡ 1
unfolding run adaptive_selector_maybe_switch adaptive_runtime_init adaptive_activate_mode
    adaptive_selector_window_counter adaptive_extract_window_features zero_counters
    adaptive_valid_mode_id switch_to
one_event = refl
