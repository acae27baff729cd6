-- ===== src/StateEngine/Rearm.antt =====
-- When services/state_engine.py reports a new critical alert candidate, over many readings.
use scrap_monitoring_backend.Base.{
  ℕ, suc, ◌+◌, ◌≤◌, ◌<◌, ◌≡◌, refl, ◌∙◌, ◌≢◌, ◌↔◌, ◌⊎◌, inl, inr, true, false, some, List, [], ◌∷◌,
  arith, if◌then◌else◌, ==_refl, Ident, All,
}
use scrap_monitoring_backend.StateEngine.{
  critical, PitState, StateEngine, hysteresis_margin, judge, Defaults, evaluate_state,
  reset_pit_state, pit_state,
}
use scrap_monitoring_backend.StateEngine.Hysteresis.{returned, pit_state-evaluate, pit_state-reset}

-- Readings of one pit, one call each: how many calls reported a candidate, and the engine.
unfoldable pub evaluate_all : Defaults → Ident → ℕ → ℕ → List ℕ → ℕ → StateEngine → ℕ × StateEngine
evaluate_all s k w c [] candidates e = (candidates, e)
evaluate_all s k w c (r ∷ rs) candidates e =
    let (_, is_new, e') = evaluate_state s k r (some w) (some c) e in
    evaluate_all s k w c rs (if is_new then suc candidates else candidates) e'

-- A pit that is critical has raised its alert.
abbrev pub IsAlerted : PitState → Type 0
IsAlerted p = p.current_state ≡ critical → p.alert_triggered ≡ true

judge-IsAlerted : (fill w c : ℕ) (p : PitState) → IsAlerted p → IsAlerted (judge fill w c p).0
unfolding judge
judge-IsAlerted fill w c p h = ground arith

judge_candidate :
    (fill w c : ℕ) (p : PitState)
    → IsAlerted p
    → (((judge fill w c p).1 ≡ true) ↔ ((c ≤ fill) × (p.alert_triggered ≡ false)))
      × ((judge fill w c p).1 ≡ true
          → ((judge fill w c p).0.current_state ≡ critical) × (p.current_state ≢ critical))
unfolding judge
judge_candidate fill w c p h = ground arith

-- Every call and every reset, with any thresholds, keeps that a critical pit has its alert
-- flagged, for all pits at once; and a candidate is reported exactly when the reading reaches the
-- critical threshold and the pit's alert is not flagged yet.
pub evaluate_state-IsAlerted :
    (s : Defaults) (k : Ident) (fill warn_th crit_th residual : ℕ) (e : StateEngine)
    → ((j : Ident) → IsAlerted (pit_state j e))
    → let (level, is_new, e') = evaluate_state s k fill (some warn_th) (some crit_th) e in
      ((j : Ident) → IsAlerted (pit_state j e'))
      × ((j : Ident) → IsAlerted (pit_state j (reset_pit_state k residual e)))
      × ((is_new ≡ true) ↔ ((crit_th ≤ fill) × ((pit_state k e).alert_triggered ≡ false)))
      × (is_new ≡ true → (level ≡ critical) × ((pit_state k e).current_state ≢ critical))
evaluate_state-IsAlerted s k fill w c residual e h =
    let r = returned s k fill (some w) (some c) e in
    let spec = judge_candidate fill w c (pit_state k e) (h k) in
    (
      λ j.
          rw (pit_state-evaluate s k j fill (some w) (some c) e)
            (ground (arith, judge-IsAlerted fill w c (pit_state k e) (h k), h j)),
      λ j. rw (pit_state-reset k j residual e) (ground (arith, h j)),
      rw r.1 spec.0,
      rw (r.1, r.0) spec.1,
    )

-- The flag survives a reading that is not a direct fall from critical to below the margin.
judge_keeps_flag :
    (fill w c : ℕ) (p : PitState)
    → p.alert_triggered ≡ true
    → ((p.current_state ≢ critical) × (fill < c)) ⊎ (w ≤ fill + hysteresis_margin)
    → ((judge fill w c p).0.alert_triggered ≡ true) × ((judge fill w c p).1 ≡ false)
unfolding judge
judge_keeps_flag fill w c p h a = ground arith

judge_flagged :
    (fill w c : ℕ) (p : PitState)
    → p.alert_triggered ≡ true
    → c ≤ fill
    → ((judge fill w c p).0.current_state ≡ critical) × ((judge fill w c p).1 ≡ false)
unfolding judge
judge_flagged fill w c p h a = ground arith

judge_stays_down :
    (fill w c : ℕ) (p : PitState)
    → p.current_state ≢ critical
    → fill < c
    → (judge fill w c p).0.current_state ≢ critical
unfolding judge
judge_stays_down fill w c p h a = ground arith

-- Once a pit has its alert flagged, readings that stay within the margin of the warning threshold
-- report no further candidate, however often the critical threshold is crossed, and the flag stays.
pub evaluate_all-quiet :
    (s : Defaults) (k : Ident) (warn_th crit_th : ℕ) (rs : List ℕ) (n : ℕ) (e : StateEngine)
    → (pit_state k e).alert_triggered ≡ true
    → All (λ r. warn_th ≤ r + hysteresis_margin) rs
    → ((evaluate_all s k warn_th crit_th rs n e).0 ≡ n)
      × ((pit_state k (evaluate_all s k warn_th crit_th rs n e).1).alert_triggered ≡ true)
unfolding evaluate_all
evaluate_all-quiet s k w c [] n e flagged near = (refl, flagged)
evaluate_all-quiet s k w c (r ∷ rs) n e flagged near =
    let kept = judge_keeps_flag r w c (pit_state k e) flagged (inr near.0) in
    let call = returned s k r (some w) (some c) e in
    let stored = rw (==_refl k) at (pit_state-evaluate s k k r (some w) (some c) e) in
    rw (call.1 ∙ kept.1, evaluate_all)
      (evaluate_all-quiet s k w c rs n (evaluate_state s k r (some w) (some c) e).2
        (rw stored kept.0) near.1)

-- A pit that has left critical with its alert still flagged stays flagged while its readings stay
-- below the critical threshold, down to an empty pit, and the next reading that reaches the
-- threshold makes the level critical again without reporting a candidate.
pub evaluate_all-silenced :
    (s : Defaults) (k : Ident) (warn_th crit_th again : ℕ) (rs : List ℕ) (n : ℕ) (e : StateEngine)
    → (pit_state k e).alert_triggered ≡ true
    → (pit_state k e).current_state ≢ critical
    → All (λ r. r < crit_th) rs
    → crit_th ≤ again
    → let (candidates, e') = evaluate_all s k warn_th crit_th rs n e in
      let (level, is_new, _) = evaluate_state s k again (some warn_th) (some crit_th) e' in
      (candidates ≡ n) × (level ≡ critical) × (is_new ≡ false)
unfolding evaluate_all
evaluate_all-silenced s k w c again [] n e flagged left low high =
    let call = returned s k again (some w) (some c) e in
    let judged = judge_flagged again w c (pit_state k e) flagged high in
    (refl, rw call.0 judged.0, rw call.1 judged.1)
evaluate_all-silenced s k w c again (r ∷ rs) n e flagged left low high =
    let kept = judge_keeps_flag r w c (pit_state k e) flagged (inl (left, low.0)) in
    let down = judge_stays_down r w c (pit_state k e) left low.0 in
    let call = returned s k r (some w) (some c) e in
    let stored = rw (==_refl k) at (pit_state-evaluate s k k r (some w) (some c) e) in
    rw (call.1 ∙ kept.1, evaluate_all)
      (evaluate_all-silenced s k w c again rs n (evaluate_state s k r (some w) (some c) e).2
        (rw stored kept.0) (rw stored down) low.1 high)
