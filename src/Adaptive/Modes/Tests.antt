-- ===== src/Adaptive/Modes/Tests.antt =====
-- The policies at concrete requests, and the theorems at inputs that meet their hypotheses.
use my_malloc.Prelude.{◌*◌, ◌≡◌, refl, ◌||◌, ltb, leb}
use my_malloc.Adaptive.Types.{
  AdaptiveHeader, size_class, prefer_span, prefer_auto, throughput_cache, fragmentation_stable,
}
use my_malloc.Adaptive.Modes.{plan_allocate, fragmentation_prefers_direct}
use my_malloc.Adaptive.Modes.Policy.{fragmentation_prefers_direct_lem}

abbrev pooled : AdaptiveHeader
pooled = record {
  magic = 0xADA9_B10C;
  storage = size_class;
  mode_id = throughput_cache;
  flags = 2;
  config_version = 1;
  requested = 40;
  usable = 48;
  mapped_size = 65536;
  region_base = 0x10000;
  owner_page = 0x10000;
  owner_thread = 7;
  alloc_epoch = 1;
  debug_cookie = 0;
}

throughput_span : (plan_allocate 2 throughput_cache 3000 16).storage ≡ prefer_span
unfolding plan_allocate
throughput_span = refl

fragmentation_auto : (plan_allocate 2 fragmentation_stable 20000 16).storage ≡ prefer_auto
unfolding plan_allocate fragmentation_prefers_direct
fragmentation_auto = refl

fragmentation_prefers_direct_lem_example :
    fragmentation_prefers_direct 20000 16 ≡ (ltb 16 16 || leb (96 * 1024) 20000)
fragmentation_prefers_direct_lem_example = fragmentation_prefers_direct_lem 20000 16
