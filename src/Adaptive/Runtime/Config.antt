-- ===== src/Adaptive/Runtime/Config.antt =====
-- The configuration that init_once leaves, for every environment.
use Prim.Native.String.{String}
use text.Mathlib.Text.{◌==◌ as str_eq}
use my_malloc.Prelude.{
  ℕ, ◌+◌, ◌*◌, ◌%◌, ◌^◌, ◌≤◌, ◌<◌, ◌≡◌, refl, ◌⊎◌, inl, inr, true, false, Option, none, some, arith,
  ltb, align_up_bounds, Bool-cases,
}
use my_malloc.Adaptive.Runtime.{
  Runtime, SelectorKind, rule, fixed, manual, model, clamp_value, parse_u64_env, page_aligned,
  parse_mode, settle_selector, debug_requested, configured_mode, adaptive_runtime_init,
}
use my_malloc.Adaptive.Runtime.Environment.{env_present, codes, strtoull, streq}

clamp_value_bounds :
    (fallback lo hi : ℕ) (value : Option ℕ)
    → lo ≤ fallback
    → fallback ≤ hi
    → (lo ≤ clamp_value fallback lo hi value) × (clamp_value fallback lo hi value ≤ hi)
unfolding clamp_value
clamp_value_bounds fallback lo hi none h k = (h, k)
clamp_value_bounds fallback lo hi (some v) h k = ground arith

-- A number from the environment lies between its limits, whatever the text says.
pub parse_u64_env_bounds :
    (env : Option String) (fallback lo hi : ℕ)
    → lo ≤ fallback
    → fallback ≤ hi
    → (lo ≤ parse_u64_env env fallback lo hi) × (parse_u64_env env fallback lo hi ≤ hi)
unfolding parse_u64_env
parse_u64_env_bounds none fallback lo hi h k = (h, k)
parse_u64_env_bounds (some text) fallback lo hi h k = elim (Bool-cases (str_eq text "")) [
  | inl e ↦ rw e (h, k)
  | inr e ↦ rw e (clamp_value_bounds fallback lo hi (strtoull (codes text)) h k)
]

page_aligned_bounds :
    (value : ℕ)
    → 4096 ≤ value
    → value ≤ 2 ^ 32
    → (page_aligned value % 4096 ≡ 0)
      × (value ≤ page_aligned value)
      × (page_aligned value < value + 4096)
unfolding page_aligned
page_aligned_bounds value lo hi =
    let large : ltb value 4096 ≡ false = ground arith in
    rw large (align_up_bounds 12 value (omega arith) (omega arith))

-- A page size from the environment, with limits that are themselves whole pages.
page_setting_bounds :
    (env : Option String) (fallback lo hi : ℕ)
    → lo ≤ fallback
    → fallback ≤ hi
    → 4096 ≤ lo
    → hi ≤ 2 ^ 32
    → hi % 4096 ≡ 0
    → let value = page_aligned (parse_u64_env env fallback lo hi) in
      (lo ≤ value) × (value ≤ hi) × (value % 4096 ≡ 0)
page_setting_bounds env fallback lo hi h k lo' hi' whole =
    let parsed = parse_u64_env_bounds env fallback lo hi h k in
    omega
      (arith, page_aligned_bounds (parse_u64_env env fallback lo hi) (omega arith) (omega arith))

-- The limits on the configuration.
pub record IsConfigured (r : Runtime) : Type 0 where
  pub small_lo : 16 * 1024 ≤ r.small_page_size
  pub small_hi : r.small_page_size ≤ 1024 * 1024
  pub small_pages : r.small_page_size % 4096 ≡ 0
  pub span_lo : 64 * 1024 ≤ r.medium_span_size
  pub span_hi : r.medium_span_size ≤ 4 * 1024 * 1024
  pub span_pages : r.medium_span_size % 4096 ≡ 0
  pub keep_hi : r.empty_cache_limit ≤ 128
  pub window_lo : 64 ≤ r.mode_window
  pub window_hi : r.mode_window ≤ 2 ^ 20
  pub cooldown_hi : r.mode_cooldown ≤ 1024

parse_mode_named :
    (env : Option String)
    → env_present env ≡ true
    → streq env "auto" ≡ false
    → (parse_mode env).1 ≡ false
unfolding parse_mode
parse_mode_named env present named = rw (present, named) refl

settle_selector_named :
    (kind : SelectorKind)
    → (settle_selector false true kind ≡ fixed) ⊎ (settle_selector false true kind ≡ manual)
unfolding settle_selector
settle_selector_named rule = inl refl
settle_selector_named fixed = inl refl
settle_selector_named manual = inr refl
settle_selector_named model = inl refl

module _ (getenv : String → Option String) where
  -- In every environment the first initialisation of a runtime leaves both page sizes multiples of
  -- 4096 within their limits, at most 128 kept pages, a selector window from 64 to 2^20 calls and a
  -- cooldown of at most 1024 windows.
  pub adaptive_runtime_init-IsConfigured :
      (r : Runtime) → r.initialized ≡ false → IsConfigured (adaptive_runtime_init getenv r)
  unfolding adaptive_runtime_init
  adaptive_runtime_init-IsConfigured r fresh =
      let small =
        page_setting_bounds (getenv "MY_MALLOC_ADAPTIVE_SMALL_PAGE_SIZE") (64 * 1024) (16 * 1024)
          (1024 * 1024) (omega arith) (omega arith) (omega arith) (omega arith) refl in
      let medium =
        page_setting_bounds (getenv "MY_MALLOC_ADAPTIVE_MEDIUM_SPAN_SIZE") (256 * 1024) (64 * 1024)
          (4 * 1024 * 1024) (omega arith) (omega arith) (omega arith) (omega arith) refl in
      let keep =
        parse_u64_env_bounds (getenv "MY_MALLOC_ADAPTIVE_EMPTY_CACHE_LIMIT") 2 0 128 (omega arith)
          (omega arith) in
      let window =
        parse_u64_env_bounds (getenv "MY_MALLOC_ADAPTIVE_MODE_WINDOW") 1024 64 (2 ^ 20)
          (omega arith) (omega arith) in
      let cooldown =
        parse_u64_env_bounds (getenv "MY_MALLOC_ADAPTIVE_MODE_COOLDOWN") 1 0 1024 (omega arith)
          (omega arith) in
      rw fresh (omega arith)

  configured_mode_named :
      env_present (getenv "MY_MALLOC_ADAPTIVE_MODE") ≡ true
      → streq (getenv "MY_MALLOC_ADAPTIVE_MODE") "auto" ≡ false
      → (configured_mode getenv).1 ≡ false
  unfolding configured_mode
  configured_mode_named present named = elim (Bool-cases (debug_requested getenv)) [
    | inl e ↦ rw e refl
    | inr e ↦ rw e (parse_mode_named _ present named)
  ]

  -- Where the environment names a mode other than auto, the first initialisation leaves a selector
  -- that never switches by itself: fixed or manual.
  pub adaptive_runtime_init-pinned :
      (r : Runtime)
      → r.initialized ≡ false
      → env_present (getenv "MY_MALLOC_ADAPTIVE_MODE") ≡ true
      → streq (getenv "MY_MALLOC_ADAPTIVE_MODE") "auto" ≡ false
      → let kind = (adaptive_runtime_init getenv r).selector_kind in
        (kind ≡ fixed) ⊎ (kind ≡ manual)
  unfolding adaptive_runtime_init
  adaptive_runtime_init-pinned r fresh present named =
      rw (fresh, present, configured_mode_named present named) (settle_selector_named _)
