-- ===== src/Adaptive/Selector/Ring.antt =====
-- The ring of events of src/adaptive_selector.cpp holds the last 64 of them in order.
use Prim.Native.String.{String}
use my_malloc.Prelude.{
  eq_refl, eq_of, ℕ, zero, suc, ◌+◌, ◌-◌, ◌%◌, ◌<◌, ◌≤◌, ◌≡◌, refl, sym, ap, inl, inr, Bool, true,
  false, ◌||◌, Option, List, [], ◌∷◌, map, length, arith, ltb, ◌==◌, word, Bool-cases,
}
use my_malloc.Adaptive.Doubles.{Double}
use my_malloc.Adaptive.Runtime.{adaptive_runtime_init, adaptive_selector_window_counter}
use my_malloc.Adaptive.Telemetry.Window.{Telemetry, adaptive_extract_window_features}
use my_malloc.Adaptive.Selector.{
  Selector, Decision, AdaptiveSelectorEvent, is_pinned, same_mode, smaller, record_selector_event,
  switch_runtime, apply_decision, close_window, decide, adaptive_selector_maybe_switch, copy_events,
  adaptive_selector_events_snapshot,
}
use my_malloc.Adaptive.Selector.Cooldown.{run}

-- The place of a sequence number in the ring.
abbrev ring_slot : ℕ → ℕ
ring_slot q = (q + (word - 1)) % word % 64

-- The numbers from `first` on.
abbrev pub numbers : (first count : ℕ) → List ℕ
numbers first zero = []
numbers first (suc n) = first ∷ numbers (first + 1) n

-- Two numbers of one ring length that share a place are equal.
slot_unique : (q r : ℕ) → 1 ≤ q → q ≤ r → r < q + 64 → r < word → ring_slot r ≡ ring_slot q → q ≡ r
slot_unique q r pos le near fits same =
    let a : (q + (word - 1)) % word ≡ q - 1 = omega arith in
    let b : (r + (word - 1)) % word ≡ r - 1 = omega arith in omega (arith, a, b, same)

-- A number whose place is another one is not the last.
older : (q r : ℕ) → q ≤ r → (ring_slot r == ring_slot q) ≡ false → q < r
older q r le e = elim (Bool-cases (ltb q r)) [
  | inl less ↦ ground arith
  | inr not_less ↦
      let same : r ≡ q = ground arith in
      absurd (cc (ap (λ (x : ℕ). ring_slot x == ring_slot q) same, eq_refl (ring_slot q), e))
]

module _ {F : Type 0} where
  -- The last 64 events are in their places, and no number has wrapped around.
  Ring : Selector F → Type 0
  Ring s =
      (q : ℕ)
      → 1 ≤ q
      → q ≤ s.event_seq
      → s.event_seq < q + 64
      → (s.events (ring_slot q)).sequence ≡ q

  same_events :
      (s s' : Selector F) → s'.events ≡ s.events → s'.event_seq ≡ s.event_seq → Ring s → Ring s'
  unfolding Ring
  same_events s s' events seq ring q pos le near =
      rw events (ring q pos (omega (arith, seq, le)) (omega (arith, seq, near)))

  copy_events-numbers :
      (s : Selector F) (first count : ℕ)
      → Ring s
      → 1 ≤ first
      → s.event_seq < first + 64
      → first + count ≤ s.event_seq + 1
      → map (λ (e : AdaptiveSelectorEvent F). e.sequence) (copy_events s first count)
        ≡ numbers first count
  unfolding Ring copy_events
  copy_events-numbers s first zero ring pos near fits = refl
  copy_events-numbers s first (suc n) ring pos near fits =
      rw
        (
          ring first pos (omega arith) near,
          copy_events-numbers s (first + 1) n ring (omega arith) (omega arith) (omega arith),
        )
        refl

  fresh_lem : (s : Selector F) → s.event_seq ≡ 0 → Ring s
  unfolding Ring
  fresh_lem s fresh q pos le near = absurd (omega (arith, fresh, le))

  snapshot_lem :
      (s : Selector F) (max_events : ℕ)
      → Ring s
      → map
          (λ (e : AdaptiveSelectorEvent F). e.sequence)
          (adaptive_selector_events_snapshot max_events s)
        ≡ numbers
            (s.event_seq - smaller (smaller s.event_seq 64) max_events + 1)
            (smaller (smaller s.event_seq 64) max_events)
  unfolding adaptive_selector_events_snapshot
  snapshot_lem s max_events ring =
      let count = smaller (smaller s.event_seq 64) max_events in
      elim (Bool-cases (max_events == 0 || s.event_seq == 0)) [
        | inl e ↦ let nothing : count ≡ 0 = ground arith in rw (e, nothing) refl
        | inr e ↦
            let short : count ≤ s.event_seq = ground arith in
            let ring_length : count ≤ 64 = ground arith in
            rw e (
              copy_events-numbers s (s.event_seq - count + 1) count ring (omega arith) (omega arith)
                (omega (arith, short)))
      ]

module _ (getenv : String → Option String) (d : Double) where
  open d use {F}

  record_selector_event-Ring :
      (switched : Bool) (reason : String) (c : Decision F) (s : Selector F)
      → s.event_seq + 1 < word
      → Ring s
      → Ring (record_selector_event getenv d switched reason c s)
  unfolding Ring record_selector_event
  record_selector_event-Ring switched reason c s fits ring q pos le near =
      let next : (s.event_seq + 1) % word ≡ s.event_seq + 1 = omega arith in
      elim (Bool-cases (ring_slot ((s.event_seq + 1) % word) == ring_slot q)) [
        | inl e ↦ rw e (
            sym (
              slot_unique q ((s.event_seq + 1) % word) pos le near (omega (arith, next)) (eq_of e)))
        | inr e ↦ rw e (
            ring q pos (omega (arith, older q ((s.event_seq + 1) % word) le e, next))
              (omega (arith, near, next)))
      ]

  one_more :
      (switched : Bool) (reason : String) (c : Decision F) (s : Selector F)
      → s.event_seq + 1 < word
      → Ring s
      → Ring (record_selector_event getenv d switched reason c s)
        × ((record_selector_event getenv d switched reason c s).event_seq ≡ s.event_seq + 1)
  unfolding record_selector_event
  one_more switched reason c s fits ring =
      (record_selector_event-Ring switched reason c s fits ring, omega arith)

  apply_decision-Ring :
      (n : ℕ) (c : Decision F) (s : Selector F)
      → s.event_seq + 1 < word
      → Ring s
      → Ring (apply_decision getenv d n c s)
        × ((apply_decision getenv d n c s).event_seq ≡ s.event_seq + 1)
  unfolding apply_decision
  apply_decision-Ring n c s fits ring = elim (Bool-cases (ltb n s.runtime.cooldown_until)) [
    | inl cold ↦ rw cold (one_more false "cooldown" c s fits ring)
    | inr warm ↦ elim (Bool-cases (same_mode c.next c.current)) [
      | inl same ↦ rw (warm, same) (one_more false c.reason c s fits ring)
      | inr other ↦ elim (Bool-cases c.expected_gain) [
        | inr none_expected ↦
            rw (warm, other, none_expected) (one_more false "hysteresis" c s fits ring)
        | inl gain ↦
            rw (warm, other, gain)
              (one_more true c.reason c
                (record s { runtime = switch_runtime getenv d n c.next s.runtime }) fits
                (same_events s _ refl refl ring))
      ]
    ]
  ]

  call_lem :
      (s : Selector F)
      → s.event_seq + 1 < word
      → Ring s
      → Ring (adaptive_selector_maybe_switch getenv d s)
        × ((adaptive_selector_maybe_switch getenv d s).event_seq ≤ s.event_seq + 1)
  unfolding adaptive_selector_maybe_switch close_window
  call_lem s fits ring =
      let r = adaptive_runtime_init getenv s.runtime in
      let (r1, n) = adaptive_selector_window_counter r in
      elim (Bool-cases (is_pinned r.selector_kind)) [
        | inl e ↦ rw e (same_events s _ refl refl ring, omega arith)
        | inr e ↦ elim (Bool-cases (n % r.mode_window == 0)) [
          | inl m ↦
              let (telemetry, f) = adaptive_extract_window_features d s.telemetry in
              let s1 : Selector F = record s { runtime = r1; telemetry = telemetry } in
              let after =
                apply_decision-Ring n (decide getenv d r1 f) s1 fits
                  (same_events s s1 refl refl ring) in
              rw (e, m) (after.0, omega (arith, after.1))
          | inr m ↦ rw (e, m) (same_events s _ refl refl ring, omega arith)
        ]
      ]

  run_lem :
      (counts : List (Telemetry → Telemetry)) (s : Selector F)
      → s.event_seq + length counts < word
      → Ring s
      → Ring (run getenv d counts s)
  unfolding run
  run_lem [] s fits ring = ring
  run_lem (count ∷ counts) s fits ring =
      let s1 : Selector F = record s { telemetry = count s.telemetry } in
      let (ring1, later) = call_lem s1 (omega arith) (same_events s s1 refl refl ring) in
      run_lem counts (adaptive_selector_maybe_switch getenv d s1) (omega (arith, later)) ring1

  -- From a selector that has recorded no event, after fewer than 2^64 calls of
  -- adaptive_selector_maybe_switch, adaptive_selector_events_snapshot returns the last events in the
  -- order in which they were recorded, one for each sequence number: as many as were recorded, but at
  -- most 64 and at most the number asked for.
  pub adaptive_selector_events_snapshot-run :
      (counts : List (Telemetry → Telemetry)) (s : Selector F) (max_events : ℕ)
      → s.event_seq ≡ 0
      → length counts < word
      → map
          (λ (e : AdaptiveSelectorEvent F). e.sequence)
          (adaptive_selector_events_snapshot max_events (run getenv d counts s))
        ≡ numbers
            ((run getenv d counts s).event_seq
              - smaller (smaller (run getenv d counts s).event_seq 64) max_events
              + 1)
            (smaller (smaller (run getenv d counts s).event_seq 64) max_events)
  adaptive_selector_events_snapshot-run counts s max_events fresh fits =
      snapshot_lem (run getenv d counts s) max_events
        (run_lem counts s (omega (arith, fresh)) (fresh_lem s fresh))
