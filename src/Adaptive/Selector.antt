-- ===== src/Adaptive/Selector.antt =====
-- src/adaptive_selector.cpp: the choice of a mode at the end of a window, and the ring of events. The
-- features come from the telemetry; `d` stands for double, and the process environment is `getenv`.
pub mod Cooldown
pub mod Ring
mod Tests
use Prim.Native.String.{String}
use my_malloc.Prelude.{
  ℕ, zero, suc, ◌+◌, ◌-◌, ◌*◌, ◌%◌, ◌^◌, ◌≡◌, Bool, true, false, not, ◌&&◌, ◌||◌, Option, none,
  some, List, [], ◌∷◌, ltb, leb, ◌==◌, if◌then◌else◌, word,
}
use my_malloc.Adaptive.Types.{
  ModeId, mode_value, balanced, throughput_cache, deterministic_latency, compact_rss,
  fragmentation_stable, cross_thread_message, large_object_streaming, hardened_debug, unnamed_mode,
}
use my_malloc.Adaptive.Doubles.{Double, Literal, decimal, WorkloadFeatures}
use my_malloc.Adaptive.Runtime.Environment.{streq}
use my_malloc.Adaptive.Runtime.{
  Runtime, SelectorKind, rule, fixed, manual, model, adaptive_runtime_init,
  adaptive_selector_window_counter, adaptive_activate_mode,
}
use my_malloc.Adaptive.Telemetry.{wrap_add}
use my_malloc.Adaptive.Telemetry.Window.{Telemetry, adaptive_extract_window_features}
use my_malloc.Adaptive.ModelSelector.{AdaptiveModelDecision, adaptive_model_select_mode}

abbrev pub adaptive_selector_event_ring_size : ℕ
adaptive_selector_event_ring_size = 64

-- The strings fit their buffers.
pub record AdaptiveSelectorEvent (F : Type 0) : Type 0 where
  pub sequence : ℕ
  pub previous_mode : ModeId
  pub current_mode : ModeId
  pub candidate_mode : ModeId
  pub switched : Bool
  pub reason : String
  pub selector_backend : String
  pub rule_candidate : ModeId
  pub model_candidate : ModeId
  pub model_confidence : F
  pub features : WorkloadFeatures F

pub record Selector (F : Type 0) : Type 0 where
  pub runtime : Runtime
  pub telemetry : Telemetry
  -- g_selector_event_seq and g_selector_events
  pub event_seq : ℕ
  pub events : ℕ → AdaptiveSelectorEvent F

-- What a window decides, before the state changes.
pub record Decision (F : Type 0) : Type 0 where
  pub previous : ModeId
  pub current : ModeId
  pub next : ModeId
  pub rule_candidate : ModeId
  pub model_candidate : ModeId
  pub confidence : F
  pub expected_gain : Bool
  pub reason : String
  pub backend : String
  pub features : WorkloadFeatures F

abbrev is_rule : SelectorKind → Bool
is_rule rule = true
is_rule _ = false

-- Fixed or manual
abbrev pub is_pinned : SelectorKind → Bool
is_pinned fixed = true
is_pinned manual = true
is_pinned _ = false

selector_backend_name : SelectorKind → String
selector_backend_name model = "model"
selector_backend_name fixed = "fixed"
selector_backend_name manual = "manual"
selector_backend_name rule = "rule"

reason_of_mode : ModeId → String
reason_of_mode cross_thread_message = "remote_free_ratio"
reason_of_mode large_object_streaming = "large_bytes_ratio"
reason_of_mode compact_rss = "mapped_live_ratio"
reason_of_mode deterministic_latency = "slow_path_ratio"
reason_of_mode fragmentation_stable = "fragmentation"
reason_of_mode throughput_cache = "cache_reuse"
reason_of_mode hardened_debug = "safety"
reason_of_mode balanced = "balanced_default"
reason_of_mode (unnamed_mode k) = "balanced_default"

abbrev same_mode : ModeId → ModeId → Bool
same_mode a b = mode_value a == mode_value b

module _ (getenv : String → Option String) (d : Double) where
  open d use {F, lt, of_literal}

  debug_forced : Bool
  debug_forced =
      let debug = getenv "MY_MALLOC_ADAPTIVE_DEBUG_MODE" in streq debug "1" || streq debug "true"

  -- v > m / 10^k
  abbrev above : F → (m k : ℕ) → Bool
  above v m k = lt (of_literal (decimal m k)) v

  -- v < m / 10^k
  abbrev below : F → (m k : ℕ) → Bool
  below v m k = lt v (of_literal (decimal m k))

  selector_reason_for_candidate : ModeId → WorkloadFeatures F → String
  unfolding debug_forced reason_of_mode
  selector_reason_for_candidate mode f =
      if debug_forced || above f.safety_error_rate 1 2 then "safety" else reason_of_mode mode

  pub adaptive_select_mode : WorkloadFeatures F → ModeId
  unfolding debug_forced
  adaptive_select_mode f =
      if debug_forced || above f.safety_error_rate 1 2
      then hardened_debug
      else if above f.remote_free_ratio 20 2
          && leb 64 (wrap_add f.remote_free_count f.same_thread_free_count)
      then cross_thread_message
      else if above f.large_bytes_ratio 50 2 && ltb (1024 * 1024) f.requested_bytes
      then large_object_streaming
      else if above f.mapped_live_ratio 80 1 && ltb (4 * 1024 * 1024) f.mapped_bytes
      then compact_rss
      else if above f.slow_path_ratio 35 2 && ltb 256 f.alloc_calls
      then deterministic_latency
      else if above f.size_entropy 22 1 && above f.internal_frag_ratio 20 2
      then fragmentation_stable
      else if above f.cache_hit_rate 70 2
          && below f.remote_free_ratio 5 2
          && below f.mapped_live_ratio 60 1
          && ltb 512 f.alloc_calls
      then throughput_cache
      else balanced

  rule_gain : ModeId → WorkloadFeatures F → Bool
  rule_gain next f =
      same_mode next hardened_debug
      || above f.remote_free_ratio 25 2
      || above f.large_bytes_ratio 60 2
      || above f.slow_path_ratio 45 2
      || above f.internal_frag_ratio 30 2
      || above f.cache_hit_rate 80 2

  decide : Runtime → WorkloadFeatures F → Decision F
  unfolding selector_reason_for_candidate adaptive_select_mode rule_gain selector_backend_name
  decide r f =
      let found = adaptive_model_select_mode d f r.active_mode in
      let model_candidate = if found.available then found.mode else r.active_mode in
      let next = if is_rule r.selector_kind then adaptive_select_mode f else model_candidate in
      record {
        previous = r.previous_mode;
        current = r.active_mode;
        next = next;
        rule_candidate = next;
        model_candidate = model_candidate;
        confidence = found.confidence;
        expected_gain =
            if is_rule r.selector_kind
            then rule_gain next f
            else found.available && above found.confidence 15 3;
        reason =
            if is_rule r.selector_kind then selector_reason_for_candidate next f else "model_cost";
        backend = selector_backend_name r.selector_kind;
        features = f;
      }

  record_selector_event :
      (switched : Bool) → (reason : String) → Decision F → Selector F → Selector F
  record_selector_event switched reason c s =
      let seq = wrap_add s.event_seq 1 in
      let slot = (seq + (word - 1)) % word % adaptive_selector_event_ring_size in
      let event : AdaptiveSelectorEvent F = record {
        sequence = seq;
        previous_mode = c.previous;
        current_mode = c.current;
        candidate_mode = c.next;
        switched = switched;
        reason = reason;
        selector_backend = c.backend;
        rule_candidate = c.rule_candidate;
        model_candidate = c.model_candidate;
        model_confidence = c.confidence;
        features = c.features;
      } in
      record s { event_seq = seq; events = λ i. if slot == i then event else s.events i }

  -- The activation and the new cooldown, at the counter n.
  switch_runtime : (n : ℕ) → ModeId → Runtime → Runtime
  switch_runtime n next r = record (adaptive_activate_mode getenv next r) {
    cooldown_until = (n + r.mode_cooldown * r.mode_window) % word;
  }

  -- The end of a window, at the counter n; on_window does nothing in all modes.
  apply_decision : (n : ℕ) → Decision F → Selector F → Selector F
  unfolding record_selector_event switch_runtime
  apply_decision n c s =
      if ltb n s.runtime.cooldown_until
      then record_selector_event false "cooldown" c s
      else if same_mode c.next c.current
      then record_selector_event false c.reason c s
      else if not c.expected_gain
      then record_selector_event false "hysteresis" c s
      else record_selector_event true c.reason c
          (record s { runtime = switch_runtime n c.next s.runtime })

  close_window : (n : ℕ) → Selector F → Selector F
  unfolding decide apply_decision
  close_window n s =
      let (telemetry, f) = adaptive_extract_window_features d s.telemetry in
      apply_decision n (decide s.runtime f) (record s { telemetry = telemetry })

  unfoldable pub adaptive_selector_maybe_switch : Selector F → Selector F
  unfolding close_window
  adaptive_selector_maybe_switch s =
      let r = adaptive_runtime_init getenv s.runtime in
      let (r', n) = adaptive_selector_window_counter r in
      if is_pinned r.selector_kind
      then record s { runtime = r }
      else if not (n % r.mode_window == 0)
      then record s { runtime = r' }
      else close_window n (record s { runtime = r' })

abbrev pub smaller : ℕ → ℕ → ℕ
smaller a b = if ltb a b then a else b

module _ {F : Type 0} where
  unfoldable pub adaptive_selector_last_event : Selector F → Option (AdaptiveSelectorEvent F)
  adaptive_selector_last_event s =
      let event =
        s.events ((s.event_seq + (word - 1)) % word % adaptive_selector_event_ring_size) in
      if s.event_seq == 0 || event.sequence == 0 then none else some event

  -- The loop that copies `count` events from the sequence number `first` on.
  copy_events : Selector F → (first count : ℕ) → List (AdaptiveSelectorEvent F)
  copy_events s first zero = []
  copy_events s first (suc n) =
      s.events ((first + (word - 1)) % word % adaptive_selector_event_ring_size)
      ∷ copy_events s (first + 1) n

  unfoldable pub adaptive_selector_events_snapshot :
      (max_events : ℕ) → Selector F → List (AdaptiveSelectorEvent F)
  unfolding copy_events
  adaptive_selector_events_snapshot max_events s =
      let available = smaller s.event_seq adaptive_selector_event_ring_size in
      let count = smaller available max_events in
      if max_events == 0 || s.event_seq == 0
      then []
      else copy_events s (s.event_seq - count + 1) count
