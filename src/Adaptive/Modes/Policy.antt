-- ===== src/Adaptive/Modes/Policy.antt =====
-- What every mode's policy has in common, and the waste rule of the fragmentation mode.
use my_malloc.Prelude.{
  ℕ, ◌-◌, ◌*◌, ◌≤◌, ◌<◌, ◌≡◌, ◌↔◌, true, false, ◌||◌, some, arith, ltb, leb, align_up,
  align_up_bounds,
}
use my_malloc.Adaptive.Types.{
  ModeId, AdaptiveHeader, cache, prefer_direct, balanced, throughput_cache, deterministic_latency,
  compact_rss, fragmentation_stable, cross_thread_message, large_object_streaming, hardened_debug,
  unnamed_mode,
}
use my_malloc.Adaptive.Modes.{plan_allocate, plan_free, fragmentation_prefers_direct, is_direct_map}

-- Whatever the size and the configured keep limit, every mode sends a request with an alignment above
-- 16 to a direct mapping.
pub plan_allocate-aligned :
    (keep : ℕ) (mode : ModeId) (size alignment : ℕ)
    → 16 < alignment
    → (plan_allocate keep mode size alignment).storage ≡ prefer_direct
unfolding plan_allocate fragmentation_prefers_direct
plan_allocate-aligned keep balanced size alignment h = ground arith
plan_allocate-aligned keep throughput_cache size alignment h = ground arith
plan_allocate-aligned keep deterministic_latency size alignment h = ground arith
plan_allocate-aligned keep compact_rss size alignment h = ground arith
plan_allocate-aligned keep fragmentation_stable size alignment h = ground arith
plan_allocate-aligned keep cross_thread_message size alignment h = ground arith
plan_allocate-aligned keep large_object_streaming size alignment h = ground arith
plan_allocate-aligned keep hardened_debug size alignment h = ground arith
plan_allocate-aligned keep (unnamed_mode k) size alignment h = ground arith

-- For every mode and every block that is not a direct mapping, the plan of its allocation and the
-- decision of its release agree: both use the thread cache or neither does, with the same limits for
-- small and medium classes, and both keep the same number of empty pages.
pub plan_allocate-plan_free :
    (keep : ℕ) (mode : ModeId) (size alignment : ℕ) (hdr : AdaptiveHeader)
    → is_direct_map hdr.storage ≡ false
    → let plan = plan_allocate keep mode size alignment in
      let decision = plan_free keep mode (some hdr) in
      ((plan.use_thread_cache ≡ true) ↔ (decision.action ≡ cache))
      × (plan.tcache_small_limit ≡ decision.tcache_small_limit)
      × (plan.tcache_medium_limit ≡ decision.tcache_medium_limit)
      × (plan.empty_keep_limit ≡ decision.empty_keep_limit)
unfolding plan_allocate plan_free
plan_allocate-plan_free keep balanced size alignment hdr h = ground arith
plan_allocate-plan_free keep throughput_cache size alignment hdr h = ground arith
plan_allocate-plan_free keep deterministic_latency size alignment hdr h = ground arith
plan_allocate-plan_free keep compact_rss size alignment hdr h = ground arith
plan_allocate-plan_free keep fragmentation_stable size alignment hdr h = ground arith
plan_allocate-plan_free keep cross_thread_message size alignment hdr h = ground arith
plan_allocate-plan_free keep large_object_streaming size alignment hdr h = ground arith
plan_allocate-plan_free keep hardened_debug size alignment hdr h = ground arith
plan_allocate-plan_free keep (unnamed_mode k) size alignment hdr h = ground arith

-- The rounding waste of a medium size never reaches a fifth of it.
rounding_waste :
    (size : ℕ) → 16 * 1024 ≤ size → size ≤ 64 * 1024 → (align_up size 1024 - size) * 100 < size * 20
rounding_waste size lo hi = omega (arith, (align_up_bounds 10 size (omega arith) (omega arith)).2)

-- The waste rule of the fragmentation mode never decides: for every size and alignment the mode
-- prefers a direct mapping exactly if the alignment is above 16 or the size is 96 KiB or more.
pub fragmentation_prefers_direct_lem :
    (size alignment : ℕ)
    → fragmentation_prefers_direct size alignment ≡ (ltb 16 alignment || leb (96 * 1024) size)
unfolding fragmentation_prefers_direct
fragmentation_prefers_direct_lem size alignment = ground (arith, rounding_waste size)
