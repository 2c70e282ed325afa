-- ===== src/Adaptive/Selector/Cooldown.antt =====
-- Two switches of src/adaptive_selector.cpp are a cooldown apart, and each is recorded.
use Prim.Native.String.{String}
use my_malloc.Prelude.{
  eq_refl, ℕ, ◌+◌, ◌-◌, ◌*◌, ◌%◌, ◌<◌, ◌≤◌, ◌≡◌, ◌≢◌, refl, sym, ◌∙◌, inl, inr, true, Option, List,
  [], ◌∷◌, length, arith, ltb, ◌==◌, word, Bool-cases,
}
use my_malloc.Adaptive.Types.{ModeId}
use my_malloc.Adaptive.Doubles.{Double}
use my_malloc.Adaptive.Runtime.{
  Runtime, adaptive_runtime_init, adaptive_activate_mode, adaptive_selector_window_counter,
}
use my_malloc.Adaptive.Runtime.Switching.{init_again, adaptive_activate_mode-keeps}
use my_malloc.Adaptive.Telemetry.Window.{Telemetry, adaptive_extract_window_features}
use my_malloc.Adaptive.Selector.{
  Selector, Decision, AdaptiveSelectorEvent, is_pinned, same_mode, record_selector_event,
  switch_runtime, apply_decision, close_window, decide, adaptive_selector_maybe_switch,
}

module _ (getenv : String → Option String) (d : Double) where
  open d use {F}

  -- A call that keeps the mode only counts.
  record Quiet (s s' : Selector F) : Type 0 where
    active : s'.runtime.active_mode ≡ s.runtime.active_mode
    until : s'.runtime.cooldown_until ≡ s.runtime.cooldown_until
    ready : s'.runtime.initialized ≡ true
    counter : s'.runtime.selector_counter ≤ s.runtime.selector_counter + 1

  -- Before the cooldown is over, a call keeps the mode.
  call_before_cooldown :
      (s : Selector F)
      → s.runtime.initialized ≡ true
      → s.runtime.selector_counter + 1 < s.runtime.cooldown_until
      → s.runtime.cooldown_until ≤ word
      → Quiet s (adaptive_selector_maybe_switch getenv d s)
  unfolding adaptive_selector_maybe_switch adaptive_selector_window_counter close_window
      apply_decision record_selector_event
  call_before_cooldown s ready early fits =
      let same = init_again getenv s.runtime ready in
      let n : ℕ = (s.runtime.selector_counter + 1) % word in
      let cold : ltb n s.runtime.cooldown_until ≡ true = ground arith in
      rw same (elim (Bool-cases (is_pinned s.runtime.selector_kind)) [
        | inl e ↦ rw e record { active = refl; until = refl; ready = ready; counter = omega arith }
        | inr e ↦ elim (Bool-cases (n % s.runtime.mode_window == 0)) [
          | inl m ↦
              rw (e, m, cold)
                record { active = refl; until = refl; ready = ready; counter = omega arith }
          | inr m ↦
              rw (e, m) record { active = refl; until = refl; ready = ready; counter = omega arith }
        ]
      ])

  -- The calls of adaptive_selector_maybe_switch, with what the telemetry counts before each.
  unfoldable pub run : List (Telemetry → Telemetry) → Selector F → Selector F
  run [] s = s
  run (count ∷ counts) s =
      run counts
        (adaptive_selector_maybe_switch getenv d (record s { telemetry = count s.telemetry }))

  run_before_cooldown :
      (counts : List (Telemetry → Telemetry)) (s : Selector F)
      → s.runtime.initialized ≡ true
      → s.runtime.selector_counter + length counts < s.runtime.cooldown_until
      → s.runtime.cooldown_until ≤ word
      → (run counts s).runtime.active_mode ≡ s.runtime.active_mode
  unfolding run
  run_before_cooldown [] s ready early fits = refl
  run_before_cooldown (count ∷ counts) s ready early fits =
      let quiet =
        call_before_cooldown (record s { telemetry = count s.telemetry }) ready (omega arith)
          fits in
      run_before_cooldown counts _ quiet.ready (omega (arith, quiet.counter, quiet.until))
        (omega (arith, quiet.until))
      ∙ quiet.active

  -- The state after a switch from a mode at a counter n, and the event that records it.
  pub record Switched (n : ℕ) (old : ModeId) (gap seq : ℕ) (s : Selector F) : Type 0 where
    pub ready : s.runtime.initialized ≡ true
    pub counter : s.runtime.selector_counter ≡ n
    pub until : s.runtime.cooldown_until ≡ (n + gap) % word
    pub sequence : s.event_seq ≡ (seq + 1) % word
    pub event : AdaptiveSelectorEvent F
    pub in_ring : s.events ((s.event_seq + (word - 1)) % word % 64) ≡ event
    pub numbered : event.sequence ≡ s.event_seq
    pub switched : event.switched ≡ true
    pub from_mode : event.current_mode ≡ old
    pub to_mode : event.candidate_mode ≡ s.runtime.active_mode

  switching_window :
      (n : ℕ) (c : Decision F) (s : Selector F)
      → s.runtime.initialized ≡ true
      → c.current ≡ s.runtime.active_mode
      → s.runtime.selector_counter ≡ n
      → (apply_decision getenv d n c s).runtime.active_mode ≢ s.runtime.active_mode
      → Switched n s.runtime.active_mode
          (s.runtime.mode_cooldown * s.runtime.mode_window)
          s.event_seq
          (apply_decision getenv d n c s)
  unfolding apply_decision record_selector_event switch_runtime
  switching_window n c s ready current counted changed =
      elim (Bool-cases (ltb n s.runtime.cooldown_until)) [
        | inl cold ↦ absurd (changed (rw cold refl))
        | inr warm ↦ elim (Bool-cases (same_mode c.next c.current)) [
          | inl same ↦ absurd (changed (rw (warm, same) refl))
          | inr other ↦ elim (Bool-cases c.expected_gain) [
            | inr none_expected ↦ absurd (changed (rw (warm, other, none_expected) refl))
            | inl gain ↦
                let keeps = adaptive_activate_mode-keeps getenv c.next s.runtime ready in
                let moved : (adaptive_activate_mode getenv c.next s.runtime).active_mode ≡ c.next =
                  elim keeps.2 [
                    | inl same ↦ absurd (changed (rw (warm, other, gain) same))
                    | inr e ↦ e
                  ] in
                let slot : ℕ = (((s.event_seq + 1) % word) + (word - 1)) % word % 64 in
                let s' : Selector F =
                  record_selector_event getenv d true c.reason c
                    (record s { runtime = switch_runtime getenv d n c.next s.runtime }) in
                rw (warm, other, gain)
                  record {
                    ready = keeps.0;
                    counter = keeps.1 ∙ counted;
                    until = refl;
                    sequence = refl;
                    event = s'.events slot;
                    in_ring = refl;
                    numbered = rw (eq_refl slot) refl;
                    switched = rw (eq_refl slot) refl;
                    from_mode = rw (eq_refl slot) current;
                    to_mode = rw (eq_refl slot) (sym moved);
                  }
          ]
        ]
      ]

  -- A call that changes the mode records the switch as the last event: it is numbered, marked as
  -- switched, and names the old and the new mode; and it puts the end of the cooldown the configured
  -- number of windows after the counter, modulo 2^64.
  pub adaptive_selector_maybe_switch-Switched :
      (s : Selector F)
      → s.runtime.initialized ≡ true
      → (adaptive_selector_maybe_switch getenv d s).runtime.active_mode ≢ s.runtime.active_mode
      → Switched
          ((s.runtime.selector_counter + 1) % word)
          s.runtime.active_mode
          (s.runtime.mode_cooldown * s.runtime.mode_window)
          s.event_seq
          (adaptive_selector_maybe_switch getenv d s)
  unfolding adaptive_selector_maybe_switch adaptive_selector_window_counter close_window decide
  adaptive_selector_maybe_switch-Switched s ready changed =
      let same = init_again getenv s.runtime ready in
      let n : ℕ = (s.runtime.selector_counter + 1) % word in
      elim (Bool-cases (is_pinned s.runtime.selector_kind)) [
        | inl e ↦ absurd (changed (rw (same, e) refl))
        | inr e ↦ elim (Bool-cases (n % s.runtime.mode_window == 0)) [
          | inr m ↦ absurd (changed (rw (same, e, m) refl))
          | inl m ↦
              rw (same, e, m) (switching_window n _ _ ready refl refl (rw (same, e, m) at changed))
        ]
      ]

  -- After a call that changes the mode, no call changes it again before the cooldown is over: any
  -- fewer calls than the configured cooldown has leave the mode in force, whatever the telemetry counts
  -- in between, if the end of the cooldown is below 2^64.
  pub adaptive_selector_maybe_switch-cooldown :
      (s : Selector F) (counts : List (Telemetry → Telemetry))
      → s.runtime.initialized ≡ true
      → let s' = adaptive_selector_maybe_switch getenv d s in
        s'.runtime.active_mode ≢ s.runtime.active_mode
        → length counts < s.runtime.mode_cooldown * s.runtime.mode_window
        → s.runtime.selector_counter + 1 + s.runtime.mode_cooldown * s.runtime.mode_window < word
        → (run counts s').runtime.active_mode ≡ s'.runtime.active_mode
  adaptive_selector_maybe_switch-cooldown s counts ready changed few fits =
      let after = adaptive_selector_maybe_switch-Switched s ready changed in
      let gap : ℕ = s.runtime.mode_cooldown * s.runtime.mode_window in
      let less : length counts < gap = few in
      let small : s.runtime.selector_counter + 1 + gap < word = fits in
      run_before_cooldown counts _ after.ready (omega (arith, after.counter, after.until))
        (omega (arith, after.until))

  -- A call of the selector changes none of the counters.
  apply_decision-stats :
      (n : ℕ) (c : Decision F) (s : Selector F)
      → (apply_decision getenv d n c s).telemetry.stats ≡ s.telemetry.stats
  unfolding apply_decision record_selector_event
  apply_decision-stats n c s = elim (Bool-cases (ltb n s.runtime.cooldown_until)) [
    | inl e ↦ rw e refl
    | inr e ↦ elim (Bool-cases (same_mode c.next c.current)) [
      | inl m ↦ rw (e, m) refl
      | inr m ↦ elim (Bool-cases c.expected_gain) [
        | inl g ↦ rw (e, m, g) refl
        | inr g ↦ rw (e, m, g) refl
      ]
    ]
  ]

  close_window-stats :
      (n : ℕ) (s : Selector F) → (close_window getenv d n s).telemetry.stats ≡ s.telemetry.stats
  unfolding close_window adaptive_extract_window_features
  close_window-stats n s =
      let window = adaptive_extract_window_features d s.telemetry in
      apply_decision-stats n (decide getenv d s.runtime window.1)
        (record s { telemetry = window.0 })

  pub adaptive_selector_maybe_switch-stats :
      (s : Selector F)
      → (adaptive_selector_maybe_switch getenv d s).telemetry.stats ≡ s.telemetry.stats
  unfolding adaptive_selector_maybe_switch
  adaptive_selector_maybe_switch-stats s =
      let r : Runtime = adaptive_runtime_init getenv s.runtime in
      let counted = adaptive_selector_window_counter r in
      elim (Bool-cases (is_pinned r.selector_kind)) [
        | inl e ↦ rw e refl
        | inr e ↦ elim (Bool-cases (counted.1 % r.mode_window == 0)) [
          | inr m ↦ rw (e, m) refl
          | inl m ↦ rw (e, m) (close_window-stats counted.1 (record s { runtime = counted.0 }))
        ]
      ]
