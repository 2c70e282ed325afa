-- ===== src/Adaptive/ModelSelector/Tests.antt =====
-- The decision of the model on a window with few large objects, in an arithmetic of whole billionths.
use my_malloc.Prelude.{ℕ, ◌-◌, ◌*◌, ◌/◌, ◌^◌, ◌<◌, ◌≡◌, ◌≢◌, refl, true, false, ltb, if◌then◌else◌}
use my_malloc.Adaptive.Types.{balanced, adaptive_mode_count, mode_value}
use my_malloc.Adaptive.Doubles.Billionths.{billionths, quiet}
use my_malloc.Adaptive.ModelSelector.{predict_cost, adaptive_model_select_mode}
use my_malloc.Adaptive.ModelSelector.Minimum.{IsRunnerUp, adaptive_model_select_mode_lem}

quiet_first : ltb (predict_cost billionths quiet 0 balanced) (10 ^ 100 * 10 ^ 9 / 10 ^ 0) ≡ true
unfolding predict_cost
quiet_first = refl

adaptive_model_select_mode_lem_example :
    let decided = mode_value (adaptive_model_select_mode billionths quiet balanced).mode in
    (decided < adaptive_mode_count)
    × ((i : ℕ)
        → i < adaptive_mode_count
        → ltb
            (predict_cost billionths quiet i balanced)
            (predict_cost billionths quiet decided balanced)
          ≡ false)
    × (second : ℕ) × ((i : ℕ)
        → i < adaptive_mode_count
        → i ≢ decided
        → ltb (predict_cost billionths quiet i balanced) second ≡ false)
    × IsRunnerUp billionths
        (λ i. predict_cost billionths quiet i balanced)
        adaptive_mode_count
        decided
        second
    × ((adaptive_model_select_mode billionths quiet balanced).confidence ≡ (
        if ltb second (10 ^ 90 * 10 ^ 9)
        then second - predict_cost billionths quiet decided balanced
        else 0))
adaptive_model_select_mode_lem_example =
    adaptive_model_select_mode_lem billionths quiet balanced quiet_first
