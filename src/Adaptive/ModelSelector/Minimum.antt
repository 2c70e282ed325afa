-- ===== src/Adaptive/ModelSelector/Minimum.antt =====
-- The search of src/adaptive_model_selector.cpp finds the cheapest mode and the lowest of the other costs.
use my_malloc.Prelude.{
  ℕ, zero, suc, ◌<◌, ◌^◌, ◌≡◌, ◌≢◌, refl, sym, subst, Bool, true, false, ◌⊎◌, inl, inr, arith, ◌∷◌,
  if◌then◌else◌, Bool-cases,
}
use my_malloc.Adaptive.Types.{ModeId, adaptive_mode_count, mode_value, mode_of_value}
use my_malloc.Adaptive.Doubles.{Double, decimal, WorkloadFeatures}
use my_malloc.Adaptive.ModelSelector.{
  Search, search_step, search_first, predict_cost, adaptive_model_select_mode,
}

last_or_before : (n i : ℕ) → i < suc n → (i < n) ⊎ (i ≡ n)
last_or_before n i h = ground arith

-- The bound is the cost of a mode below n other than the chosen one, or the literal 1e100 that the search
-- starts with.
abbrev pub IsRunnerUp : (d : Double) (cost : ℕ → d.F) (n chosen : ℕ) (second : d.F) → Type 0
IsRunnerUp d cost n chosen second =
    ((j : ℕ) × (j < n) × (j ≢ chosen) × (second ≡ cost j))
    ⊎ (second ≡ d.of_literal (decimal (10 ^ 100) 0))

-- After n rounds: no cost so far is below the best, and none but the chosen mode's below the second, which
-- is one of them or the literal.
pub record Lowest (d : Double) (cost : ℕ → d.F) (n : ℕ) (s : Search d.F) : Type 0 where
  pub chosen : s.mode < n
  pub is_best : s.best ≡ cost s.mode
  pub none_below : (i : ℕ) → i < n → d.lt (cost i) s.best ≡ false
  pub runner_up : (i : ℕ) → i < n → i ≢ s.mode → d.lt (cost i) s.second ≡ false
  pub second_of : IsRunnerUp d cost n s.mode s.second

module _ (d : Double) (cost : ℕ → d.F) where
  open d use {F, lt, of_literal, lt_irrefl, lt_trans}

  not_below : (a b c : F) → lt b c ≡ true → lt a c ≡ false → lt a b ≡ false
  not_below a b c below above = elim (Bool-cases (lt a b)) [
    | inl less ↦ absurd (cc (lt_trans a b c less below, above))
    | inr not_less ↦ not_less
  ]

  step_Lowest :
      (n : ℕ) (s : Search F)
      → Lowest d cost n s
      → Lowest d cost (suc n) (search_step d n (cost n) s)
  unfolding search_step
  step_Lowest n s low = split (Bool-cases _) (Bool-cases _)
    where
      Round : Bool → Bool → Type 0
      Round below_best below_second = Lowest d cost (suc n) (
          if below_best
          then record { mode = n; cost = cost n ∷ s.cost; best = cost n; second = s.best }
          else if below_second
          then record s { cost = cost n ∷ s.cost; second = cost n }
          else record s { cost = cost n ∷ s.cost })

      earlier : {P : ℕ → Type 0} → ((i : ℕ) → i < n → P i) → P n → (i : ℕ) → i < suc n → P i
      earlier {P = P} old new i h = elim (last_or_before n i h) [
        | inl less ↦ old i less
        | inr e ↦ subst P (sym e) new
      ]

      split :
          (lt (cost n) s.best ≡ true) ⊎ (lt (cost n) s.best ≡ false)
          → (lt (cost n) s.second ≡ true) ⊎ (lt (cost n) s.second ≡ false)
          → Round (lt (cost n) s.best) (lt (cost n) s.second)
      split (inl below) e = rw below record {
        chosen = omega arith;
        is_best = refl;
        none_below =
            earlier (λ i h. not_below (cost i) (cost n) s.best below (low.none_below i h))
              (lt_irrefl (cost n));
        runner_up = earlier (λ i h ne. low.none_below i h) (λ ne. absurd (ne refl));
        second_of =
            inl
              (s.mode, omega (arith, low.chosen), (λ e. omega (arith, e, low.chosen)), low.is_best);
      }
      split (inr above) (inl second) =
          rw (above, second)
            record {
              chosen = omega (arith, low.chosen);
              is_best = low.is_best;
              none_below = earlier low.none_below above;
              runner_up =
                  earlier
                    (λ i h ne. not_below (cost i) (cost n) s.second second (low.runner_up i h ne))
                    (λ ne. lt_irrefl (cost n));
              second_of = inl (n, omega arith, (λ e. omega (arith, e, low.chosen)), refl);
            }
      split (inr above) (inr no_second) =
          rw (above, no_second)
            record {
              chosen = omega (arith, low.chosen);
              is_best = low.is_best;
              none_below = earlier low.none_below above;
              runner_up = earlier low.runner_up (λ ne. no_second);
              second_of = elim low.second_of [
                | inl (j, lt, ne, e) ↦ inl (j, omega (arith, lt), ne, e)
                | inr e ↦ inr e
              ];
            }

  search_first-Lowest :
      (n : ℕ)
      → lt (cost 0) (of_literal (decimal (10 ^ 100) 0)) ≡ true
      → Lowest d cost (suc n) (search_first d cost (suc n))
  unfolding search_first search_step
  search_first-Lowest zero first = rw first record {
    chosen = omega arith;
    is_best = refl;
    none_below = λ i h. let e : i ≡ 0 = omega arith in rw e (lt_irrefl (cost 0));
    runner_up = λ i h ne. absurd (ne (omega arith));
    second_of = inr refl;
  }
  search_first-Lowest (suc n) first = step_Lowest (suc n) _ (search_first-Lowest n first)

mode_value-mode_of_value : (n : ℕ) → mode_value (mode_of_value n) ≡ n
mode_value-mode_of_value zero = refl
mode_value-mode_of_value (suc zero) = refl
mode_value-mode_of_value (suc (suc zero)) = refl
mode_value-mode_of_value (suc (suc (suc zero))) = refl
mode_value-mode_of_value (suc (suc (suc (suc zero)))) = refl
mode_value-mode_of_value (suc (suc (suc (suc (suc zero))))) = refl
mode_value-mode_of_value (suc (suc (suc (suc (suc (suc zero)))))) = refl
mode_value-mode_of_value (suc (suc (suc (suc (suc (suc (suc zero))))))) = refl
mode_value-mode_of_value (suc (suc (suc (suc (suc (suc (suc (suc k)))))))) = omega arith

module _ (d : Double) where
  open d use {F, lt, sub, of_literal}

  -- If the balanced mode costs less than 1e100, the model selector decides for one of the eight modes,
  -- no mode costs less than the decided one, and the confidence is the distance from it to a second cost,
  -- or zero where that is not below 1e90. The second cost is that of another mode, or 1e100, and no other
  -- mode costs less than it. `d` is any arithmetic with an
  -- irreflexive and transitive comparison, so NaN and infinite features are included.
  pub adaptive_model_select_mode_lem :
      (f : WorkloadFeatures F) (current : ModeId)
      → lt (predict_cost d f 0 current) (of_literal (decimal (10 ^ 100) 0)) ≡ true
      → let decided = mode_value (adaptive_model_select_mode d f current).mode in
        (decided < adaptive_mode_count)
        × ((i : ℕ)
            → i < adaptive_mode_count
            → lt (predict_cost d f i current) (predict_cost d f decided current) ≡ false)
        × (second : F) × ((i : ℕ)
            → i < adaptive_mode_count
            → i ≢ decided
            → lt (predict_cost d f i current) second ≡ false)
        × IsRunnerUp d (λ i. predict_cost d f i current) adaptive_mode_count decided second
        × ((adaptive_model_select_mode d f current).confidence ≡ (
            if lt second (of_literal (decimal (10 ^ 90) 0))
            then sub second (predict_cost d f decided current)
            else of_literal (decimal 0 0)))
  unfolding adaptive_model_select_mode
  adaptive_model_select_mode_lem f current first =
      let cost = λ (i : ℕ). predict_cost d f i current in
      let found = search_first d cost adaptive_mode_count in
      let low = search_first-Lowest d cost 7 first in
      let same = mode_value-mode_of_value found.mode in
      rw (same, ← low.is_best)
        (low.chosen, low.none_below, found.second, low.runner_up, low.second_of, refl)
