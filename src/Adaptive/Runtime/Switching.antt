-- ===== src/Adaptive/Runtime/Switching.antt =====
-- Soft switching against its specification: the modes in the order in which they were active.
use Prim.Native.String.{String}
use my_malloc.Prelude.{
  ℕ, ◌%◌, ◌<◌, ◌≡◌, refl, Bool, true, false, not, ◌&&◌, ◌||◌, Option, List, [], ◌∷◌, arith, ltb,
  ◌==◌, if◌then◌else◌, word, length, Bool-cases, lt→ltb, ltb→lt, ◌⊎◌, inl, inr,
}
use my_malloc.Adaptive.Types.{ModeId, adaptive_mode_count, mode_value}
use my_malloc.Adaptive.Runtime.Environment.{env_present, streq}
use my_malloc.Adaptive.Runtime.{
  named_mode, parse_mode, debug_requested, Runtime, ModeState, inactive, active, retired, initial,
  adaptive_valid_mode_id, adaptive_mode_index, configured_mode, adaptive_runtime_init, switch_to,
  adaptive_activate_mode, update_state,
}

-- The mode in force and those before it, newest first.
pub record History : Type 0 where
  pub current : ℕ
  pub past : List ℕ

abbrev pub has : ℕ → List ℕ → Bool
has i [] = false
has i (j ∷ js) = (i == j) || has i js

abbrev pub head_or : ℕ → List ℕ → ℕ
head_or d [] = d
head_or d (x ∷ xs) = x

-- A request for a byte that names no mode, or for the mode in force, is ignored.
abbrev pub visit : ModeId → History → History
visit mode h =
    if ltb (mode_value mode) adaptive_mode_count && not (h.current == mode_value mode)
    then record { current = mode_value mode; past = h.current ∷ h.past }
    else h

-- The state that a history gives the mode of an index.
abbrev pub state_in : History → ℕ → ModeState
state_in h i = if i == h.current then active else if has i h.past then retired else inactive

pub record Refines (r : Runtime) (h : History) : Type 0 where
  pub ready : r.initialized ≡ true
  pub valid : mode_value r.active_mode < adaptive_mode_count
  pub current : mode_value r.active_mode ≡ h.current
  pub previous : mode_value r.previous_mode ≡ head_or h.current h.past
  pub states : (i : ℕ) → r.mode_states i ≡ state_in h i
  pub switches : r.mode_switches ≡ length h.past % word

index_valid : (mode : ModeId) → mode_value mode < 8 → adaptive_mode_index mode ≡ mode_value mode
unfolding adaptive_mode_index
index_valid mode h = rw (lt→ltb (mode_value mode) 8 h) refl

valid_id : (mode : ModeId) → adaptive_valid_mode_id mode ≡ ltb (mode_value mode) 8
unfolding adaptive_valid_mode_id
valid_id mode = elim (Bool-cases (ltb (mode_value mode) 8)) [
  | inl small ↦ rw (small, eq_self (mode_value mode)) refl
  | inr large ↦ rw (large, zero_ne large) refl
]
  where
    eq_self : (n : ℕ) → (n == n) ≡ true
    eq_self n = ground arith

    zero_ne : ltb (mode_value mode) 8 ≡ false → (0 == mode_value mode) ≡ false
    zero_ne h = not_zero (mode_value mode) h
      where
        not_zero : (n : ℕ) → ltb n 8 ≡ false → (0 == n) ≡ false
        not_zero n h = ground arith

-- The two stores of a switch, on the states that a history gives.
two_stores :
    (states : ℕ → ModeState) (h : History) (old new i : ℕ)
    → states i ≡ state_in h i
    → old ≡ h.current
    → update_state (update_state states old retired) new active i
      ≡ state_in (record { current = new; past = h.current ∷ h.past }) i
two_stores states h old new i e o = ground arith

switch_to-Refines :
    (mode : ModeId) (r : Runtime) (h : History)
    → Refines r h
    → mode_value mode < adaptive_mode_count
    → Refines (switch_to mode r) (record { current = mode_value mode; past = h.current ∷ h.past })
unfolding switch_to
switch_to-Refines mode r h ref valid = record {
  ready = ref.ready;
  valid = valid;
  current = refl;
  previous = ref.current;
  states = λ i.
      rw (index_valid mode valid, index_valid r.active_mode ref.valid)
        (two_stores r.mode_states h _ _ i (ref.states i) ref.current);
  switches = omega (arith, ref.switches);
}

named_mode_valid : (env : Option String) → mode_value (named_mode env) < 8
unfolding named_mode
named_mode_valid env = ground arith

parse_mode_valid : (env : Option String) → mode_value (parse_mode env).0 < 8
unfolding parse_mode
parse_mode_valid env = elim (Bool-cases (not (env_present env) || streq env "auto")) [
  | inl e ↦ rw e (omega arith)
  | inr e ↦ rw e (named_mode_valid env)
]

module _ (getenv : String → Option String) where
  -- pthread_once runs init_once once.
  pub init_again : (r : Runtime) → r.initialized ≡ true → adaptive_runtime_init getenv r ≡ r
  unfolding adaptive_runtime_init
  init_again r e = simp e

  -- What an activation leaves, and the mode that it can set.
  pub adaptive_activate_mode-keeps :
      (mode : ModeId) (r : Runtime)
      → r.initialized ≡ true
      → let r' = adaptive_activate_mode getenv mode r in
        (r'.initialized ≡ true)
        × (r'.selector_counter ≡ r.selector_counter)
        × ((r'.active_mode ≡ r.active_mode) ⊎ (r'.active_mode ≡ mode))
  unfolding adaptive_activate_mode switch_to
  adaptive_activate_mode-keeps mode r ready =
      rw (init_again r ready) (elim (Bool-cases (adaptive_valid_mode_id mode)) [
        | inr e ↦ rw e (ready, refl, inl refl)
        | inl e ↦ elim (Bool-cases (mode_value r.active_mode == mode_value mode)) [
          | inl same ↦ rw (e, same) (ready, refl, inl refl)
          | inr other ↦ rw (e, other) (ready, refl, inr refl)
        ]
      ])

  adaptive_activate_mode-Refines :
      (mode : ModeId) (r : Runtime) (h : History)
      → Refines r h
      → Refines (adaptive_activate_mode getenv mode r) (visit mode h)
  unfolding adaptive_activate_mode
  adaptive_activate_mode-Refines mode r h ref =
      rw (init_again r ref.ready, valid_id mode, ref.current) (split (Bool-cases _) (Bool-cases _))
    where
      split :
          (ltb (mode_value mode) 8 ≡ true) ⊎ (ltb (mode_value mode) 8 ≡ false)
          → ((h.current == mode_value mode) ≡ true) ⊎ ((h.current == mode_value mode) ≡ false)
          → Refines
              (if not (ltb (mode_value mode) 8)
                then r
                else if h.current == mode_value mode
                then r
                else switch_to mode r)
              (visit mode h)
      split (inl valid) (inl same) = rw (valid, same) ref
      split (inl valid) (inr other) =
          rw (valid, other) (switch_to-Refines mode r h ref (ltb→lt _ _ valid))
      split (inr invalid) e = rw invalid ref

  -- The activations of a history, in order.
  unfoldable pub activate_all : List ModeId → Runtime → Runtime
  activate_all [] r = r
  activate_all (mode ∷ modes) r = activate_all modes (adaptive_activate_mode getenv mode r)

  abbrev pub visit_all : List ModeId → History → History
  visit_all [] h = h
  visit_all (mode ∷ modes) h = visit_all modes (visit mode h)

  -- A history of requested activations, whatever bytes it asks for, is refined by the runtime: the
  -- active and the previous mode are the last two in force, exactly the mode in force is active,
  -- exactly the modes that were in force before and are not now are retired, all others are inactive,
  -- and the switch counter counts the switches.
  pub activate_all-Refines :
      (modes : List ModeId) (r : Runtime) (h : History)
      → Refines r h
      → Refines (activate_all modes r) (visit_all modes h)
  unfolding activate_all
  activate_all-Refines [] r h ref = ref
  activate_all-Refines (mode ∷ modes) r h ref =
      activate_all-Refines modes _ _ (adaptive_activate_mode-Refines mode r h ref)

  configured_valid : mode_value (configured_mode getenv).0 < 8
  unfolding configured_mode
  configured_valid = elim (Bool-cases (debug_requested getenv)) [
    | inl e ↦ rw e (omega arith)
    | inr e ↦ rw e (parse_mode_valid (getenv "MY_MALLOC_ADAPTIVE_MODE"))
  ]

  -- The first initialisation, in every environment, starts a history of one mode.
  pub adaptive_runtime_init-Refines :
      Refines
        (adaptive_runtime_init getenv initial)
        (record { current = mode_value (configured_mode getenv).0; past = [] })
  unfolding adaptive_runtime_init
  adaptive_runtime_init-Refines = record {
    ready = refl;
    valid = configured_valid;
    current = refl;
    previous = refl;
    states = λ i. rw (index_valid _ configured_valid) (ground arith);
    switches = refl;
  }
