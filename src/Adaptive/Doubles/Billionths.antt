-- ===== src/Adaptive/Doubles/Billionths.antt =====
-- An arithmetic of whole billionths in the place of double, for the tests, and the features of a quiet
-- window in it.
use my_malloc.Prelude.{ℕ, ◌+◌, ◌-◌, ◌*◌, ◌/◌, ◌^◌, ◌≡◌, true, false, arith, ltb, leb, if◌then◌else◌}
use my_malloc.Adaptive.Doubles.{Double, WorkloadFeatures}

pub lt_irrefl : (a : ℕ) → ltb a a ≡ false
lt_irrefl a = ground arith

pub lt_trans : (a b c : ℕ) → ltb a b ≡ true → ltb b c ≡ true → ltb a c ≡ true
lt_trans a b c h k = ground arith

abbrev pub billionths : Double
billionths = record {
  F = ℕ;
  lt = ltb;
  le = leb;
  add = λ a b. a + b;
  sub = λ a b. a - b;
  mul = λ a b. a * b / 10 ^ 9;
  div = λ a b. a * 10 ^ 9 / b;
  log = λ a. a;
  of_literal = λ l. if l.negative then 0 else l.mantissa * 10 ^ 9 / 10 ^ l.places;
  of_uint = λ n. n * 10 ^ 9;
  log1p = λ a. a;
  lt_irrefl = lt_irrefl;
  lt_trans = lt_trans;
}

abbrev pub quiet : WorkloadFeatures ℕ
quiet = record {
  small_object_ratio = 10 ^ 9;
  medium_object_ratio = 0;
  large_object_ratio = 0;
  large_bytes_ratio = 0;
  size_entropy = 0;
  cache_hit_rate = 10 ^ 9;
  reuse_rate = 10 ^ 9;
  remote_free_ratio = 0;
  mapped_live_ratio = 10 ^ 9;
  retained_ratio = 10 ^ 9;
  internal_frag_ratio = 0;
  external_frag_score = 0;
  slow_path_ratio = 0;
  safety_error_rate = 0;
  alloc_calls = 1000;
  free_calls = 900;
  requested_bytes = 64000;
  usable_bytes = 64000;
  mapped_bytes = 65536;
  live_bytes = 6400;
  remote_free_count = 0;
  same_thread_free_count = 900;
}
