-- ===== src/Adaptive/Runtime.antt =====
-- src/adaptive_runtime.cpp: the configuration read from the environment, and the soft-switch state.
-- The atomics are the fields of one record: every function below makes its loads and stores in order,
-- as one call sees them. `getenv` is the process environment.
pub mod Environment
pub mod Config
pub mod Switching
mod Tests
use Prim.Native.String.{String}
use text.Mathlib.Text.{◌==◌ as str_eq}
use my_malloc.Prelude.{
  ℕ, zero, suc, ◌+◌, ◌-◌, ◌*◌, ◌%◌, ◌^◌, ◌≡◌, Bool, true, false, not, ◌&&◌, ◌||◌, Option, none,
  some, List, [], ◌∷◌, ltb, leb, ◌==◌, if◌then◌else◌, word, align_up,
}
use my_malloc.Adaptive.Types.{ModeId, adaptive_mode_count, mode_value, mode_of_value}
use my_malloc.Adaptive.Types.{balanced, throughput_cache, deterministic_latency, compact_rss}
use my_malloc.Adaptive.Types.{fragmentation_stable, cross_thread_message, large_object_streaming}
use my_malloc.Adaptive.Types.{hardened_debug}
use Environment.{strtoull, streq, alias, env_present, codes}

pub data SelectorKind : Type 0 where
  rule fixed manual model : SelectorKind

pub data ModeState : Type 0 where
  inactive active retired : ModeState

pub record Runtime : Type 0 where
  pub config_version : ℕ
  pub small_page_size : ℕ
  pub medium_span_size : ℕ
  pub empty_cache_limit : ℕ
  pub config_mode : ModeId
  pub selector_kind : SelectorKind
  pub mode_window : ℕ
  pub mode_cooldown : ℕ
  pub active_mode : ModeId
  pub previous_mode : ModeId
  pub selector_counter : ℕ
  pub cooldown_until : ℕ
  pub mode_states : ℕ → ModeState
  pub alloc_epoch : ℕ
  -- g_runtime_once has run
  pub initialized : Bool
  -- g_stats.mode_switches, which the activation counts
  pub mode_switches : ℕ

-- The initial values of the globals.
abbrev pub initial : Runtime
initial = record {
  config_version = 1;
  small_page_size = 64 * 1024;
  medium_span_size = 256 * 1024;
  empty_cache_limit = 2;
  config_mode = balanced;
  selector_kind = rule;
  mode_window = 1024;
  mode_cooldown = 1;
  active_mode = balanced;
  previous_mode = balanced;
  selector_counter = 0;
  cooldown_until = 0;
  mode_states = λ i. inactive;
  alloc_epoch = 0;
  initialized = false;
  mode_switches = 0;
}

clamp_value : (fallback min_value max_value : ℕ) → Option ℕ → ℕ
clamp_value fallback min_value max_value none = fallback
clamp_value fallback min_value max_value (some value) =
    if ltb value min_value then min_value else if ltb max_value value then max_value else value

-- The fallback where the variable is unset, empty or no number; else the number, clamped.
pub parse_u64_env : Option String → (fallback min_value max_value : ℕ) → ℕ
unfolding clamp_value strtoull
parse_u64_env none fallback min_value max_value = fallback
parse_u64_env (some text) fallback min_value max_value =
    if str_eq text ""
    then fallback
    else clamp_value fallback min_value max_value (strtoull (codes text))

pub page_aligned : ℕ → ℕ
page_aligned value = align_up (if ltb value 4096 then 4096 else value) 4096

-- The mode of a name; one that is not known is the balanced mode.
named_mode : Option String → ModeId
named_mode env =
    if streq env "balanced"
    then balanced
    else if alias env "throughput_cache" "throughput"
    then throughput_cache
    else if alias env "deterministic_latency" "latency"
    then deterministic_latency
    else if alias env "compact_rss" "rss"
    then compact_rss
    else if alias env "fragmentation_stable" "fragmentation"
    then fragmentation_stable
    else if alias env "cross_thread" "cross_thread_message"
    then cross_thread_message
    else if alias env "large_object" "large_object_streaming"
    then large_object_streaming
    else if alias env "hardened_debug" "debug"
    then hardened_debug
    else balanced

-- The mode, and whether it is left to the selector.
pub parse_mode : Option String → ModeId × Bool
unfolding named_mode
parse_mode env =
    if not (env_present env) || streq env "auto" then (balanced, true) else (named_mode env, false)

pub parse_selector : Option String → SelectorKind
parse_selector env =
    if streq env "fixed"
    then fixed
    else if streq env "manual"
    then manual
    else if streq env "model"
    then model
    else if streq env "hybrid"
    then model
    else if streq env "rule"
    then rule
    else model

unfoldable pub adaptive_mode_index : ModeId → ℕ
adaptive_mode_index mode = if ltb (mode_value mode) adaptive_mode_count then mode_value mode else 0

unfoldable pub adaptive_valid_mode_id : ModeId → Bool
unfolding adaptive_mode_index
adaptive_valid_mode_id mode = adaptive_mode_index mode == mode_value mode

abbrev update_state : (ℕ → ModeState) → ℕ → ModeState → ℕ → ModeState
update_state states i s j = if i == j then s else states j

-- The selector that a named mode or the lack of one leaves in force.
pub settle_selector : (mode_auto mode_env : Bool) → SelectorKind → SelectorKind
settle_selector true mode_env fixed = model
settle_selector false true rule = fixed
settle_selector false true model = fixed
settle_selector _ _ kind = kind

-- The state changes of an activation, for a mode that differs from the active one.
unfoldable pub switch_to : ModeId → Runtime → Runtime
switch_to mode r =
    let old = r.active_mode in
    record r {
      previous_mode = old;
      active_mode = mode;
      mode_states =
          update_state (update_state r.mode_states (adaptive_mode_index old) retired)
            (adaptive_mode_index mode) active;
      mode_switches = (r.mode_switches + 1) % word;
    }

module _ (getenv : String → Option String) where
  abbrev debug_requested : Bool
  debug_requested =
      let debug = getenv "MY_MALLOC_ADAPTIVE_DEBUG_MODE" in streq debug "1" || streq debug "true"

  -- the configured mode, and whether it is left to the selector
  pub configured_mode : ModeId × Bool
  configured_mode =
      if debug_requested
      then (hardened_debug, false)
      else parse_mode (getenv "MY_MALLOC_ADAPTIVE_MODE")

  init_once : Runtime → Runtime
  unfolding configured_mode
  init_once r =
      let configured = configured_mode.0 in
      record r {
        small_page_size = page_aligned (
            parse_u64_env (getenv "MY_MALLOC_ADAPTIVE_SMALL_PAGE_SIZE") (64 * 1024) (16 * 1024)
              (1024 * 1024));
        medium_span_size = page_aligned (
            parse_u64_env (getenv "MY_MALLOC_ADAPTIVE_MEDIUM_SPAN_SIZE") (256 * 1024) (64 * 1024)
              (4 * 1024 * 1024));
        empty_cache_limit =
            parse_u64_env (getenv "MY_MALLOC_ADAPTIVE_EMPTY_CACHE_LIMIT") 2 0 128 % 2 ^ 32;
        mode_window =
            parse_u64_env (getenv "MY_MALLOC_ADAPTIVE_MODE_WINDOW") 1024 64 (2 ^ 20) % 2 ^ 32;
        mode_cooldown = parse_u64_env (getenv "MY_MALLOC_ADAPTIVE_MODE_COOLDOWN") 1 0 1024 % 2 ^ 32;
        config_mode = configured;
        active_mode = configured;
        previous_mode = configured;
        selector_kind =
            settle_selector configured_mode.1 (env_present (getenv "MY_MALLOC_ADAPTIVE_MODE"))
              (parse_selector (getenv "MY_MALLOC_ADAPTIVE_MODE_SELECTOR"));
        mode_states = update_state (λ i. inactive) (adaptive_mode_index configured) active;
      }

  -- pthread_once
  unfoldable pub adaptive_runtime_init : Runtime → Runtime
  unfolding init_once
  adaptive_runtime_init r = if r.initialized then r else record (init_once r) { initialized = true }

  unfoldable pub adaptive_activate_mode : ModeId → Runtime → Runtime
  adaptive_activate_mode mode r =
      let r' = adaptive_runtime_init r in
      if not (adaptive_valid_mode_id mode)
      then r
      else if mode_value r'.active_mode == mode_value mode
      then r'
      else switch_to mode r'

-- Both return the new state and the counter's new value.
unfoldable pub adaptive_selector_window_counter : Runtime → Runtime × ℕ
adaptive_selector_window_counter r =
    let n = (r.selector_counter + 1) % word in (record r { selector_counter = n }, n)

unfoldable pub adaptive_next_alloc_epoch : Runtime → Runtime × ℕ
adaptive_next_alloc_epoch r =
    let n = (r.alloc_epoch + 1) % word in (record r { alloc_epoch = n }, n)

abbrev is_retired : ModeState → Bool
is_retired retired = true
is_retired _ = false

-- The loop over the first n modes.
retired_below : Runtime → ℕ → ℕ
retired_below r zero = 0
retired_below r (suc n) = retired_below r n + (if is_retired (r.mode_states n) then 1 else 0)

pub adaptive_retired_mode_count : Runtime → ℕ
unfolding retired_below
adaptive_retired_mode_count r = retired_below r adaptive_mode_count

pub adaptive_mode_state : Runtime → ModeId → ModeState
unfolding adaptive_mode_index
adaptive_mode_state r mode = r.mode_states (adaptive_mode_index mode)
