-- ===== src/Adaptive/Runtime/Tests.antt =====
-- The runtime in two environments, and the theorems at them.
use Prim.Native.String.{String}
use text.Mathlib.Text.{◌==◌ as str_eq}
use my_malloc.Prelude.{◌≡◌, refl, Option, none, some, List, [], ◌∷◌, if◌then◌else◌}
use my_malloc.Adaptive.Types.{
  ModeId, mode_value, balanced, compact_rss, deterministic_latency, hardened_debug, unnamed_mode,
}
use my_malloc.Adaptive.Runtime.{
  named_mode, parse_mode, adaptive_valid_mode_id, switch_to, initial, adaptive_runtime_init,
  configured_mode, adaptive_activate_mode, adaptive_retired_mode_count, parse_u64_env,
}
use my_malloc.Adaptive.Runtime.Environment.{strtoull, codes}
use my_malloc.Adaptive.Runtime.Switching.{
  Refines, History, activate_all, visit_all, activate_all-Refines, adaptive_runtime_init-Refines,
}

abbrev unset : String → Option String
unset name = none

abbrev latency_env : String → Option String
latency_env name = if str_eq name "MY_MALLOC_ADAPTIVE_MODE" then some "latency" else none

reads_number : strtoull (codes " +1500 kB") ≡ some 1500
unfolding strtoull
reads_number = refl

reads_nothing : strtoull (codes "k") ≡ none
unfolding strtoull
reads_nothing = refl

clamps : parse_u64_env (some "7") 1024 64 4096 ≡ 64
unfolding parse_u64_env
clamps = refl

names_latency : (configured_mode latency_env).0 ≡ deterministic_latency
unfolding configured_mode parse_mode named_mode
names_latency = refl

abbrev start : History
start = record { current = 0; past = [] }

abbrev requests : List ModeId
requests = compact_rss ∷ compact_rss ∷ unnamed_mode 5 ∷ hardened_debug ∷ balanced ∷ []

unset_balanced : (configured_mode unset).0 ≡ balanced
unfolding configured_mode parse_mode
unset_balanced = refl

activate_all-Refines_example :
    Refines (activate_all unset requests (adaptive_runtime_init unset initial)) (
      visit_all unset requests
        (record { current = mode_value (configured_mode unset).0; past = [] }))
activate_all-Refines_example =
    activate_all-Refines unset requests _ _ (adaptive_runtime_init-Refines unset)

retires_two :
    adaptive_retired_mode_count (activate_all unset requests (adaptive_runtime_init unset initial))
    ≡ 2
unfolding adaptive_retired_mode_count activate_all adaptive_activate_mode adaptive_runtime_init
    parse_mode adaptive_valid_mode_id switch_to
retires_two = refl
