-- ===== src/StateEngine/Hysteresis.antt =====
-- The hysteresis of services/state_engine.py, for one pit and through the engine's dict.
use scrap_monitoring_backend.Base.{
  ℕ, ◌+◌, ◌≤◌, ◌<◌, ◌≡◌, sym, ◌≢◌, ◌⊎◌, false, Option, some, arith, ◌==◌, if◌then◌else◌, ==_refl,
  Ident,
}
use scrap_monitoring_backend.Base.Dict.{lookup-insert}
use scrap_monitoring_backend.StateEngine.{
  Level, normal, warning, critical, PitState, StateEngine, hysteresis_margin, judge, or_default,
  Defaults, evaluate_state, reset_pit_state, pit_state,
}

-- The bands of the reading against the previous level: what the new level has to be.
abbrev pub Classifies : ℕ → ℕ → ℕ → Level → Level → Type 0
Classifies fill warn_th crit_th previous critical =
    (crit_th ≤ fill) ⊎ ((previous ≡ critical) × (crit_th ≤ fill + hysteresis_margin))
Classifies fill warn_th crit_th previous warning =
    (fill < crit_th)
    × ((warn_th ≤ fill) ⊎ ((previous ≢ normal) × (warn_th ≤ fill + hysteresis_margin)))
    × (previous ≡ critical → fill + hysteresis_margin < crit_th)
Classifies fill warn_th crit_th previous normal =
    (fill < warn_th) × (previous ≢ normal → fill + hysteresis_margin < warn_th)

pub judge-Classifies :
    (fill warn_th crit_th : ℕ) (p : PitState)
    → warn_th + hysteresis_margin ≤ crit_th
    → Classifies fill warn_th crit_th p.current_state (judge fill warn_th crit_th p).0.current_state
unfolding judge
judge-Classifies fill warn_th crit_th p h = ground arith

-- What a call stores: the judged pit under its key, and every other pit as it was.
pub pit_state-evaluate :
    (s : Defaults) (k j : Ident) (fill : ℕ) (w c : Option ℕ) (e : StateEngine)
    → pit_state j (evaluate_state s k fill w c e).2 ≡ (
        if k == j
        then (judge fill
            (or_default w s.default_warning_threshold)
            (or_default c s.default_critical_threshold)
            (pit_state k e)).0
        else pit_state j e)
unfolding pit_state evaluate_state
pit_state-evaluate s k j fill w c e = grind (arith, lookup-insert)

pub pit_state-reset :
    (k j : Ident) (residual : ℕ) (e : StateEngine)
    → pit_state j (reset_pit_state k residual e) ≡ (
        if k == j
        then record { current_state = normal; last_fill_ratio = residual; alert_triggered = false }
        else pit_state j e)
unfolding pit_state reset_pit_state
pit_state-reset k j residual e = grind (arith, lookup-insert)

pub returned :
    (s : Defaults) (k : Ident) (fill : ℕ) (w c : Option ℕ) (e : StateEngine)
    → let p =
        judge fill
          (or_default w s.default_warning_threshold)
          (or_default c s.default_critical_threshold)
          (pit_state k e) in
      ((evaluate_state s k fill w c e).0 ≡ p.0.current_state)
      × ((evaluate_state s k fill w c e).1 ≡ p.1)
      × (p.0.last_fill_ratio ≡ fill)
unfolding pit_state evaluate_state
returned s k fill w c e = ground arith

-- With the warning threshold at least the margin below the critical one, a call returns the level
-- that the bands give from the pit's previous level and the reading, stores that level and the
-- reading for the pit, and leaves every other pit as it was.
pub evaluate_state-Classifies :
    (s : Defaults) (k j : Ident) (fill warn_th crit_th : ℕ) (e : StateEngine)
    → warn_th + hysteresis_margin ≤ crit_th
    → let (level, _, e') = evaluate_state s k fill (some warn_th) (some crit_th) e in
      Classifies fill warn_th crit_th (pit_state k e).current_state level
      × ((pit_state k e').current_state ≡ level)
      × ((pit_state k e').last_fill_ratio ≡ fill)
      × (k ≢ j → pit_state j e' ≡ pit_state j e)
evaluate_state-Classifies s k j fill w c e h =
    let level = returned s k fill (some w) (some c) e in
    let stored = rw (==_refl k) at (pit_state-evaluate s k k fill (some w) (some c) e) in
    let bands = judge-Classifies fill w c (pit_state k e) h in
    (
      rw level.0 bands,
      rw stored (sym level.0),
      rw stored level.2,
      λ other. ground (arith, pit_state-evaluate s k j fill (some w) (some c) e),
    )
