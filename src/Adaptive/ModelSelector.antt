-- ===== src/Adaptive/ModelSelector.antt =====
-- src/adaptive_model_selector.cpp: the cost of each mode by the tree ensemble, and the cheapest mode.
pub mod Minimum
mod Tests
use my_malloc.Prelude.{
  ℕ, zero, suc, ◌+◌, ◌^◌, ◌≡◌, Bool, true, false, List, [], ◌∷◌, ◌++◌, ltb, ◌==◌, if◌then◌else◌,
  get_or,
}
use my_malloc.Adaptive.Types.{ModeId, adaptive_mode_count, mode_of_value, mode_value}
use my_malloc.Adaptive.Doubles.{Double, Literal, decimal, WorkloadFeatures}
use my_malloc.Adaptive.ModelTable.{
  Feature, Tree, bias, trees, switch_cost, large_bytes_ratio, remote_free_ratio, mapped_live_ratio,
  slow_path_ratio, size_entropy, internal_frag_ratio, cache_hit_rate, safety_error_rate,
  log_alloc_calls, log_live_bytes,
}

pub record AdaptiveModelDecision (F : Type 0) : Type 0 where
  pub mode : ModeId
  -- the costs of the modes seen so far, last first
  pub cost : List F
  pub confidence : F
  pub available : Bool

module _ (d : Double) where
  open d use {F, lt, le, add, sub, of_literal, of_uint, log1p}

  abbrev zero_double : F
  zero_double = of_literal (decimal 0 0)

  safe_log1p : F → F
  safe_log1p v = log1p (if lt zero_double v then v else zero_double)

  -- features[tree.feature]
  build_features : WorkloadFeatures F → Feature → F
  unfolding safe_log1p
  build_features f large_bytes_ratio = f.large_bytes_ratio
  build_features f remote_free_ratio = f.remote_free_ratio
  build_features f mapped_live_ratio = f.mapped_live_ratio
  build_features f slow_path_ratio = f.slow_path_ratio
  build_features f size_entropy = f.size_entropy
  build_features f internal_frag_ratio = f.internal_frag_ratio
  build_features f cache_hit_rate = f.cache_hit_rate
  build_features f safety_error_rate = f.safety_error_rate
  build_features f log_alloc_calls = safe_log1p (of_uint f.alloc_calls)
  build_features f log_live_bytes = safe_log1p (of_uint f.live_bytes)

  add_trees : WorkloadFeatures F → (mode : ℕ) → F → List Tree → F
  unfolding build_features
  add_trees f mode score [] = score
  add_trees f mode score (tree ∷ rest) =
      add_trees f mode
        (if tree.mode == mode
          then add score (
              if le (build_features f tree.feature) (of_literal tree.threshold)
              then of_literal tree.left_value
              else of_literal tree.right_value)
          else score)
        rest

  -- The cost of the mode with a given index.
  pub predict_cost : WorkloadFeatures F → (candidate : ℕ) → (current : ModeId) → F
  unfolding add_trees trees
  predict_cost f candidate current =
      let score = add_trees f candidate (of_literal (get_or bias candidate (decimal 0 0))) trees in
      if mode_value current == candidate then score else add score (of_literal switch_cost)

-- The variables of the search for the two lowest costs.
pub record Search (F : Type 0) : Type 0 where
  pub mode : ℕ
  pub cost : List F
  pub best : F
  pub second : F

module _ (d : Double) where
  open d use {F, lt, sub, of_literal}

  -- One round, with the cost of candidate i.
  pub search_step : ℕ → F → Search F → Search F
  search_step i c s =
      if lt c s.best
      then record { mode = i; cost = c ∷ s.cost; best = c; second = s.best }
      else if lt c s.second
      then record s { cost = c ∷ s.cost; second = c }
      else record s { cost = c ∷ s.cost }

  -- The first n rounds over the costs of the candidates.
  pub search_first : (ℕ → F) → ℕ → Search F
  unfolding search_step
  search_first cost zero = record {
    mode = 0;
    cost = [];
    best = of_literal (decimal (10 ^ 100) 0);
    second = of_literal (decimal (10 ^ 100) 0);
  }
  search_first cost (suc i) = search_step i (cost i) (search_first cost i)

  unfoldable pub adaptive_model_select_mode :
      WorkloadFeatures F → (current : ModeId) → AdaptiveModelDecision F
  unfolding search_first
  adaptive_model_select_mode f current =
      let found = search_first (λ i. predict_cost d f i current) adaptive_mode_count in
      record {
        mode = mode_of_value found.mode;
        cost = found.cost;
        confidence =
            if lt found.second (of_literal (decimal (10 ^ 90) 0))
            then sub found.second found.best
            else of_literal (decimal 0 0);
        available = true;
      }
