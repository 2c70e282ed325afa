-- ===== src/Adaptive/Doubles.antt =====
-- `double`, as far as the selector and the telemetry use it, and WorkloadFeatures of
-- include/my_ptmalloc/adaptive_types.h over it.
pub mod Billionths
use my_malloc.Prelude.{ℕ, ◌≡◌, Bool, true, false}

-- A literal of the source: (-1)^negative * mantissa / 10^places.
pub record Literal : Type 0 where
  pub negative : Bool
  pub mantissa : ℕ
  pub places : ℕ

abbrev pub decimal : ℕ → ℕ → Literal
decimal m k = record { negative = false; mantissa = m; places = k }

abbrev pub minus : ℕ → ℕ → Literal
minus m k = record { negative = true; mantissa = m; places = k }

-- The operations of `double` and of <cmath>. The laws are those of IEEE comparison, which hold with
-- NaN and infinities too.
pub record Double : Type 1 where
  pub F : Type 0
  pub lt : F → F → Bool
  pub le : F → F → Bool
  pub add : F → F → F
  pub sub : F → F → F
  pub mul : F → F → F
  pub div : F → F → F
  pub log : F → F
  pub of_literal : Literal → F
  pub of_uint : ℕ → F
  pub log1p : F → F
  pub lt_irrefl : (a : F) → lt a a ≡ false
  pub lt_trans : (a b c : F) → lt a b ≡ true → lt b c ≡ true → lt a c ≡ true

pub record WorkloadFeatures (F : Type 0) : Type 0 where
  pub small_object_ratio : F
  pub medium_object_ratio : F
  pub large_object_ratio : F
  pub large_bytes_ratio : F
  pub size_entropy : F
  pub cache_hit_rate : F
  pub reuse_rate : F
  pub remote_free_ratio : F
  pub mapped_live_ratio : F
  pub retained_ratio : F
  pub internal_frag_ratio : F
  pub external_frag_score : F
  pub slow_path_ratio : F
  pub safety_error_rate : F
  pub alloc_calls : ℕ
  pub free_calls : ℕ
  pub requested_bytes : ℕ
  pub usable_bytes : ℕ
  pub mapped_bytes : ℕ
  pub live_bytes : ℕ
  pub remote_free_count : ℕ
  pub same_thread_free_count : ℕ
