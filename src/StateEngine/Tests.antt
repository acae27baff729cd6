-- ===== src/StateEngine/Tests.antt =====
-- Runs of services/state_engine.py, and its theorems at concrete inputs.
use scrap_monitoring_backend.Base.{
  ℕ, ◌≤◌, ◌≡◌, refl, ◌≢◌, ◌↔◌, true, false, some, [], ◌∷◌, arith, Ident, percent,
}
use scrap_monitoring_backend.Base.Dict.{lookup, insert}
use scrap_monitoring_backend.StateEngine.{
  warning, critical, StateEngine, Defaults, evaluate_state, reset_pit_state, pit_state,
}
use scrap_monitoring_backend.StateEngine.Hysteresis.{Classifies, evaluate_state-Classifies}
use scrap_monitoring_backend.StateEngine.Rearm.{
  IsAlerted, evaluate_all, evaluate_state-IsAlerted, evaluate_all-quiet, evaluate_all-silenced,
}

abbrev defaults : Defaults
defaults = record {
  default_warning_threshold = percent 75;
  default_critical_threshold = percent 85;
}

-- Pit 1 has passed 85 %, and has come down to 80 %.
abbrev after_peak : StateEngine
after_peak =
    (1, record { current_state = warning; last_fill_ratio = percent 80; alert_triggered = true })
    ∷ []

after_peak_reached :
    evaluate_all defaults 1 (percent 75) (percent 85) (percent 90 ∷ percent 80 ∷ []) 0 []
    ≡ (1, after_peak)
unfolding evaluate_all evaluate_state lookup insert
after_peak_reached = refl

-- The pit is emptied slowly, filled again, and reports no second candidate.
slow_fall :
    (evaluate_all defaults 1
      (percent 75)
      (percent 85)
      (percent 90 ∷ percent 80 ∷ percent 40 ∷ percent 10 ∷ percent 90 ∷ [])
      0
      []).0
    ≡ 1
unfolding evaluate_all evaluate_state lookup insert
slow_fall = refl

-- A fall in one step arms it again.
fast_fall :
    (evaluate_all defaults 1
      (percent 75)
      (percent 85)
      (percent 90 ∷ percent 10 ∷ percent 90 ∷ [])
      0
      []).0
    ≡ 2
unfolding evaluate_all evaluate_state lookup insert
fast_fall = refl

evaluate_state-Classifies_example :
    let (level, _, e') =
      evaluate_state defaults 1 (percent 84) (some (percent 75)) (some (percent 85)) after_peak in
    Classifies (percent 84) (percent 75) (percent 85) (pit_state 1 after_peak).current_state level
    × ((pit_state 1 e').current_state ≡ level)
    × ((pit_state 1 e').last_fill_ratio ≡ percent 84)
    × (◌≢◌ {A = ℕ} 1 2 → pit_state 2 e' ≡ pit_state 2 after_peak)
evaluate_state-Classifies_example =
    evaluate_state-Classifies defaults 1 2 (percent 84) (percent 75) (percent 85) after_peak
      (omega arith)

evaluate_state-IsAlerted_example :
    let (level, is_new, e') =
      evaluate_state defaults 1 (percent 90) (some (percent 75)) (some (percent 85)) [] in
    ((j : Ident) → IsAlerted (pit_state j e'))
    × ((j : Ident) → IsAlerted (pit_state j (reset_pit_state 1 0 [])))
    × ((is_new ≡ true) ↔ ((percent 85 ≤ percent 90) × ((pit_state 1 []).alert_triggered ≡ false)))
    × (is_new ≡ true → (level ≡ critical) × ((pit_state 1 []).current_state ≢ critical))
unfolding pit_state lookup
evaluate_state-IsAlerted_example =
    evaluate_state-IsAlerted defaults 1 (percent 90) (percent 75) (percent 85) 0 [] empty_engine
  where
    empty_engine : (j : Ident) → IsAlerted (pit_state j [])
    empty_engine j = ground arith

evaluate_all-quiet_example :
    ((evaluate_all defaults 1
        (percent 75)
        (percent 85)
        (percent 90 ∷ percent 74 ∷ percent 90 ∷ [])
        1
        after_peak).0
      ≡ 1)
    × ((pit_state 1
          (evaluate_all defaults 1
            (percent 75)
            (percent 85)
            (percent 90 ∷ percent 74 ∷ percent 90 ∷ [])
            1
            after_peak).1).alert_triggered
        ≡ true)
unfolding pit_state lookup
evaluate_all-quiet_example =
    evaluate_all-quiet defaults 1 (percent 75) (percent 85)
      (percent 90 ∷ percent 74 ∷ percent 90 ∷ []) 1 after_peak refl (omega arith)

evaluate_all-silenced_example :
    let (candidates, e') =
      evaluate_all defaults 1 (percent 75) (percent 85) (percent 40 ∷ 0 ∷ []) 0 after_peak in
    let (level, is_new, _) =
      evaluate_state defaults 1 (percent 90) (some (percent 75)) (some (percent 85)) e' in
    (candidates ≡ 0) × (level ≡ critical) × (is_new ≡ false)
unfolding pit_state lookup
evaluate_all-silenced_example =
    evaluate_all-silenced defaults 1 (percent 75) (percent 85) (percent 90) (percent 40 ∷ 0 ∷ []) 0
      after_peak refl (λ e. cc) (omega arith) (omega arith)
