-- ===== src/CollectionDetection/Invariant.antt =====
-- What holds of a tracker between two observations.
use mathlib.Core.Path.{subst⁻¹}
use scrap_monitoring_backend.Base.{
  ℕ, ◌*◌, ◌≤◌, ◌≡◌, Bool, true, Option, none, some, arith, is_some, Time, Ident, Returns,
}
use scrap_monitoring_backend.CollectionDetection.{
  Phase, baselining, idle, candidate, collecting, CollectionTracker, new_tracker, DetectionSettings,
  band_cm, invalidate, reference_now, Stable, stable_now,
}
use scrap_monitoring_backend.CollectionDetection.Advance.{by_phase, advance, prepared}

-- The fields that each phase has.
abbrev pub PhaseFields : Phase → CollectionTracker → Type 0
PhaseFields baselining s =
    (s.baseline_cm ≡ none) × (s.candidate_since ≡ none) × (s.episode_id ≡ none)
PhaseFields idle s =
    (is_some s.baseline_cm ≡ true) × (s.candidate_since ≡ none) × (s.episode_id ≡ none)
PhaseFields candidate s =
    (is_some s.baseline_cm ≡ true) × (is_some s.candidate_since ≡ true) × (s.episode_id ≡ none)
PhaseFields collecting s = (is_some s.baseline_cm ≡ true) × (is_some s.episode_id ≡ true)

-- A moment that is recorded is not after `t`.
abbrev pub NotAfter : Option Time → Time → Type 0
NotAfter none t = Unit
NotAfter (some a) t = a ≤ t

-- The stable interval is there as a whole or not at all, and holds the last reading.
abbrev pub StableFields : Option Time → Option ℕ → Option ℕ → Option ℕ → Time → Type 0
StableFields none none none current t = Unit
StableFields (some since) (some low) (some high) (some h) t = (since ≤ t) × (low ≤ h) × (h ≤ high)
StableFields _ _ _ _ t = ⊥

pub record WellFormed (s : CollectionTracker) : Type 0 where
  pub fields : PhaseFields s.phase s
  pub stable :
      StableFields s.stable_since s.stable_min_cm s.stable_max_cm s.current_cm s.observed_at
  pub candidate_past : NotAfter s.candidate_since s.observed_at
  pub quiet_past : NotAfter s.quiet_since s.observed_at
  pub progress_past : NotAfter s.progress_candidate_since s.observed_at
  pub reference_past : NotAfter s.reference_candidate_since s.observed_at

pub new_tracker-WellFormed :
    (pit scope : Ident) (t : Time) (sim : Bool) → WellFormed (new_tracker pit scope t sim)
new_tracker-WellFormed pit scope t sim = ground arith

pub invalidate-WellFormed : (s : CollectionTracker) → WellFormed s → WellFormed (invalidate s)
unfolding invalidate
invalidate-WellFormed s w = ground arith

stable_now_fields :
    (s : CollectionTracker) (height : ℕ) (observed : Time) (band : ℕ)
    → WellFormed s
    → s.observed_at ≤ observed
    → let r = stable_now s height observed band in
      (r.since ≤ observed) × (r.low ≤ height) × (height ≤ r.high)
unfolding stable_now
stable_now_fields s height observed band w later = ground arith

reference_past_now :
    (s : CollectionTracker) (height : ℕ) (observed : Time) (band : ℕ)
    → NotAfter s.reference_candidate_since observed
    → (reference_now s height observed band).since ≤ observed
unfolding reference_now
reference_past_now s height observed band past = ground arith

module _ (detection_id : Ident → Time → Ident) (c : DetectionSettings) where
  by_phase-WellFormed :
      (r : Stable) (supported : Option ℕ) (height : ℕ) (observed : Time) (wait fall : ℕ) (p : Phase)
      (s : CollectionTracker)
      → s.phase ≡ p
      → WellFormed s
      → s.observed_at ≡ observed
      → s.current_cm ≡ some height
      → Returns
          (λ o. WellFormed o.0 × (o.0.observed_at ≡ observed))
          (by_phase detection_id c fall wait r supported height observed p s)
  unfolding by_phase
  by_phase-WellFormed r supported height observed wait fall baselining s ph w now cur = ground arith
  by_phase-WellFormed r supported height observed wait fall idle s ph w now cur = ground arith
  by_phase-WellFormed r supported height observed wait fall candidate s ph w now cur = ground arith
  by_phase-WellFormed r supported height observed wait fall collecting s ph w now cur = ground arith

  pub prepared-WellFormed :
      (s : CollectionTracker) (height : ℕ) (observed : Time)
      → WellFormed s
      → s.observed_at ≤ observed
      → let s' = (prepared c s (stable_now s height observed (band_cm c)) height observed).1 in
        WellFormed s'
        × (s'.phase ≡ s.phase)
        × (s'.observed_at ≡ observed)
        × (s'.current_cm ≡ some height)
  unfolding prepared
  prepared-WellFormed s height observed w later =
      grind (arith, stable_now_fields s height observed (band_cm c) w later, reference_past_now)

  pub advance_at :
      (s : CollectionTracker) (height : ℕ) (observed : Time) (wait fall : ℕ)
      → c.drop_meters ≡ some fall
      → let r = stable_now s height observed (band_cm c) in
        let (supported, s') = prepared c s r height observed in
        advance detection_id c s height observed wait
        ≡ by_phase detection_id c (fall * 100) wait r supported height observed s.phase s'
  unfolding advance
  advance_at s height observed wait fall set = simp (set, advance)

  -- With the drop configured, an observation that is not older than the last never fails an
  -- `assert`, in any phase, and leaves a well-formed tracker observed at that instant; an outage
  -- leaves a well-formed tracker too. A new tracker is
  -- well formed.
  pub advance-WellFormed :
      (s : CollectionTracker) (height : ℕ) (observed : Time) (wait fall : ℕ)
      → WellFormed s
      → s.observed_at ≤ observed
      → c.drop_meters ≡ some fall
      → Returns
          (λ o. WellFormed o.0 × (o.0.observed_at ≡ observed))
          (advance detection_id c s height observed wait)
        × WellFormed (invalidate s)
        × WellFormed (new_tracker s.pit_id s.scope_token observed s.simulated)
  advance-WellFormed s height observed wait fall w later set =
      let r = stable_now s height observed (band_cm c) in
      let ready = prepared-WellFormed s height observed w later in
      (
        subst⁻¹ (Returns (λ o. WellFormed o.0 × (o.0.observed_at ≡ observed)))
            (advance_at s height observed wait fall set)
            (by_phase-WellFormed r (prepared c s r height observed).0 height observed wait
              (fall * 100) s.phase (prepared c s r height observed).1 ready.1 ready.0 ready.2
              ready.3),
        invalidate-WellFormed s w,
        new_tracker-WellFormed s.pit_id s.scope_token observed s.simulated,
      )
