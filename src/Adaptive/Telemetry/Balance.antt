-- ===== src/Adaptive/Telemetry/Balance.antt =====
-- The byte counts of src/adaptive_telemetry.cpp against the events that they count.
use my_malloc.Prelude.{
  ℕ, zero, suc, ◌+◌, ◌-◌, ◌%◌, ◌^◌, ◌<◌, ◌≤◌, ◌≡◌, refl, inl, inr, false, arith, List, [], ◌∷◌, leb,
  ltb, ◌==◌, if◌then◌else◌, word, Bool-cases,
}
use my_malloc.Adaptive.Types.{ModeId, AdaptiveHeader, AllocationResult, mode_value}
use my_malloc.Adaptive.Runtime.{adaptive_mode_index}
use my_malloc.Adaptive.Telemetry.{
  AdaptiveStats, ModeStats, zero_stats, update, wrap_add, wrap_sub, adaptive_telemetry_on_alloc,
  adaptive_telemetry_on_free_begin, adaptive_telemetry_on_mapped, adaptive_telemetry_on_unmapped,
}
use my_malloc.Adaptive.Telemetry.Window.{read_counters, nonnegative_i64}

-- What the layers report, in order.
pub data Event : Type 0 where
  allocated : AllocationResult → ModeId → Event
  freed : (token : ℕ) → AdaptiveHeader → Event
  mapped : ModeId → (bytes : ℕ) → Event
  unmapped : ModeId → (bytes : ℕ) → Event

unfoldable pub report : Event → AdaptiveStats → AdaptiveStats
report (allocated result mode_id) s = adaptive_telemetry_on_alloc result mode_id s
report (freed token hdr) s = adaptive_telemetry_on_free_begin token hdr s
report (mapped mode bytes) s = adaptive_telemetry_on_mapped mode bytes s
report (unmapped mode bytes) s = adaptive_telemetry_on_unmapped mode bytes s

unfoldable pub report_all : List Event → AdaptiveStats → AdaptiveStats
report_all [] s = s
report_all (e ∷ es) s = report_all es (report e s)

-- The byte totals of a sequence of events.
pub record Totals : Type 0 where
  pub alloc_bytes : ℕ
  pub freed_bytes : ℕ
  pub mapped_bytes : ℕ
  pub unmapped_bytes : ℕ

abbrev pub count : Event → Totals → Totals
count (allocated result mode_id) t = record t { alloc_bytes = t.alloc_bytes + result.usable }
count (freed token hdr) t = record t { freed_bytes = t.freed_bytes + hdr.usable }
count (mapped mode bytes) t = record t { mapped_bytes = t.mapped_bytes + bytes }
count (unmapped mode bytes) t = record t { unmapped_bytes = t.unmapped_bytes + bytes }

abbrev pub count_all : List Event → Totals → Totals
count_all [] t = t
count_all (e ∷ es) t = count_all es (count e t)

abbrev pub no_bytes : Totals
no_bytes = record { alloc_bytes = 0; freed_bytes = 0; mapped_bytes = 0; unmapped_bytes = 0 }

abbrev pub sum_below : ℕ → (ℕ → ℕ) → ℕ
sum_below zero f = 0
sum_below (suc n) f = sum_below n f + f n

-- Modulo 2^64: the counters are the differences of the totals, and the sums of the modes' counters.
pub record Accounts (s : AdaptiveStats) (t : Totals) : Type 0 where
  pub live : (s.live_bytes + t.freed_bytes) % word ≡ t.alloc_bytes % word
  pub live_fits : s.live_bytes < word
  pub mapped : (s.mapped_bytes + t.unmapped_bytes) % word ≡ t.mapped_bytes % word
  pub mapped_fits : s.mapped_bytes < word
  pub modes_live : sum_below 8 (λ i. (s.mode i).live_bytes) % word ≡ s.live_bytes
  pub modes_mapped : sum_below 8 (λ i. (s.mode i).mapped_bytes) % word ≡ s.mapped_bytes

mode_index_small : (mode : ModeId) → adaptive_mode_index mode < 8
unfolding adaptive_mode_index
mode_index_small mode = small (mode_value mode)
  where
    small : (n : ℕ) → (if ltb n 8 then n else 0) < 8
    small n = ground arith

module _ {ℓ} {A : Type ℓ} (f : ℕ → A) (i : ℕ) (g : A → A) (p : A → ℕ) where
  same_below : (n : ℕ) → n ≤ i → sum_below n (λ j. p (update f i g j)) ≡ sum_below n (λ j. p (f j))
  same_below zero h = refl
  same_below (suc n) h = rw (other, same_below n (omega arith)) refl
    where
      other : (i == n) ≡ false
      other = ground arith

  -- One entry of a sum changes.
  sum_below-update :
      (n : ℕ)
      → i < n
      → sum_below n (λ j. p (update f i g j)) + p (f i) ≡ sum_below n (λ j. p (f j)) + p (g (f i))
  sum_below-update zero h = absurd (omega arith)
  sum_below-update (suc n) h = elim (Bool-cases (i == n)) [
    | inl e ↦
        let eq : i ≡ n = ground arith in rw (e, same_below n (omega arith), ← eq) (omega arith)
    | inr e ↦ rw e (omega (arith, sum_below-update n (ground arith)))
  ]

-- The sum of the entries follows a counter that changes with one of them.
sum_added :
    (before after x total b : ℕ)
    → after + x ≡ before + wrap_add x b
    → before % word ≡ total
    → after % word ≡ wrap_add total b
sum_added before after x total b e h = omega arith

sum_taken :
    (before after x total b : ℕ)
    → after + x ≡ before + wrap_sub x b
    → before % word ≡ total
    → after % word ≡ wrap_sub total b
sum_taken before after x total b e h = omega arith

report-Accounts :
    (e : Event) (s : AdaptiveStats) (t : Totals) → Accounts s t → Accounts (report e s) (count e t)
unfolding report adaptive_telemetry_on_alloc adaptive_telemetry_on_free_begin
    adaptive_telemetry_on_mapped adaptive_telemetry_on_unmapped
report-Accounts (allocated result mode) s t acc =
    let g : ModeStats → ModeStats = λ m. record m {
      alloc_count = wrap_add m.alloc_count 1;
      live_bytes = wrap_add m.live_bytes result.usable;
    } in
    let i : ℕ = adaptive_mode_index mode in
    let changed = sum_below-update s.mode i g (λ m. m.live_bytes) 8 (mode_index_small mode) in
    let kept = sum_below-update s.mode i g (λ m. m.mapped_bytes) 8 (mode_index_small mode) in
    record {
      live = omega (arith, acc.live);
      live_fits = omega arith;
      mapped = acc.mapped;
      mapped_fits = acc.mapped_fits;
      modes_live = sum_added _ _ _ _ result.usable changed acc.modes_live;
      modes_mapped = omega (arith, kept, acc.modes_mapped);
    }
report-Accounts (freed token hdr) s t acc =
    let g : ModeStats → ModeStats = λ m. record m {
      free_count = wrap_add m.free_count 1;
      live_bytes = wrap_sub m.live_bytes hdr.usable;
    } in
    let i : ℕ = adaptive_mode_index hdr.mode_id in
    let changed =
      sum_below-update s.mode i g (λ m. m.live_bytes) 8 (mode_index_small hdr.mode_id) in
    let kept = sum_below-update s.mode i g (λ m. m.mapped_bytes) 8 (mode_index_small hdr.mode_id) in
    record {
      live = omega (arith, acc.live);
      live_fits = omega arith;
      mapped = acc.mapped;
      mapped_fits = acc.mapped_fits;
      modes_live = sum_taken _ _ _ _ hdr.usable changed acc.modes_live;
      modes_mapped = omega (arith, kept, acc.modes_mapped);
    }
report-Accounts (mapped mode bytes) s t acc =
    let g : ModeStats → ModeStats =
      λ m. record m { mapped_bytes = wrap_add m.mapped_bytes bytes } in
    let i : ℕ = adaptive_mode_index mode in
    let changed = sum_below-update s.mode i g (λ m. m.mapped_bytes) 8 (mode_index_small mode) in
    let kept = sum_below-update s.mode i g (λ m. m.live_bytes) 8 (mode_index_small mode) in
    record {
      mapped = omega (arith, acc.mapped);
      mapped_fits = omega arith;
      live = acc.live;
      live_fits = acc.live_fits;
      modes_mapped = sum_added _ _ _ _ bytes changed acc.modes_mapped;
      modes_live = omega (arith, kept, acc.modes_live);
    }
report-Accounts (unmapped mode bytes) s t acc =
    let g : ModeStats → ModeStats =
      λ m. record m { mapped_bytes = wrap_sub m.mapped_bytes bytes } in
    let i : ℕ = adaptive_mode_index mode in
    let changed = sum_below-update s.mode i g (λ m. m.mapped_bytes) 8 (mode_index_small mode) in
    let kept = sum_below-update s.mode i g (λ m. m.live_bytes) 8 (mode_index_small mode) in
    record {
      mapped = omega (arith, acc.mapped);
      mapped_fits = omega arith;
      live = acc.live;
      live_fits = acc.live_fits;
      modes_mapped = sum_taken _ _ _ _ bytes changed acc.modes_mapped;
      modes_live = omega (arith, kept, acc.modes_live);
    }

-- After any sequence of allocations, frees, mappings and unmappings, whatever modes their headers
-- name: the counters of live and of mapped bytes are the bytes allocated less those freed, and those
-- mapped less those unmapped, modulo 2^64; and each is the sum of the counters of the eight modes,
-- modulo 2^64.
pub report_all-Accounts :
    (es : List Event) (s : AdaptiveStats) (t : Totals)
    → Accounts s t
    → Accounts (report_all es s) (count_all es t)
unfolding report_all
report_all-Accounts [] s t acc = acc
report_all-Accounts (e ∷ es) s t acc =
    report_all-Accounts es (report e s) (count e t) (report-Accounts e s t acc)

pub zero_stats-Accounts : Accounts zero_stats no_bytes
zero_stats-Accounts = record {
  live = refl;
  live_fits = omega arith;
  mapped = refl;
  mapped_fits = omega arith;
  modes_live = refl;
  modes_mapped = refl;
}

-- If the bytes freed are at most those allocated and fewer than 2^63 are outstanding, the live bytes
-- that a window reads are exactly those outstanding; the same holds of the mapped bytes.
pub read_counters-outstanding :
    (es : List Event)
    → let t = count_all es no_bytes in
      t.freed_bytes ≤ t.alloc_bytes
      → t.alloc_bytes < t.freed_bytes + 2 ^ 63
      → t.unmapped_bytes ≤ t.mapped_bytes
      → t.mapped_bytes < t.unmapped_bytes + 2 ^ 63
      → ((read_counters (report_all es zero_stats)).live_bytes ≡ t.alloc_bytes - t.freed_bytes)
        × ((read_counters (report_all es zero_stats)).mapped_bytes
            ≡ t.mapped_bytes - t.unmapped_bytes)
unfolding read_counters nonnegative_i64
read_counters-outstanding es l1 l2 m1 m2 =
    let acc = report_all-Accounts es zero_stats no_bytes zero_stats-Accounts in
    (exact _ _ _ acc.live acc.live_fits l1 l2, exact _ _ _ acc.mapped acc.mapped_fits m1 m2)
  where
    exact :
        (now less more : ℕ)
        → (now + less) % word ≡ more % word
        → now < word
        → less ≤ more
        → more < less + 2 ^ 63
        → (if leb (2 ^ 63) now then 0 else now) ≡ more - less
    exact now less more e fits h k = let same : now ≡ more - less = omega arith in ground arith
