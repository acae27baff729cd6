-- ===== src/CollectionDetection/Timing.antt =====
-- How long the detector waits: before the first event after an outage, and between two events.
use scrap_monitoring_backend.CollectionDetection.Events.{prepared_keeps}
use mathlib.Core.Path.{subst⁻¹}
use scrap_monitoring_backend.Base.{
  ℕ, ◌+◌, ◌*◌, ◌≤◌, ◌≡◌, true, Option, none, some, List, [], ◌∷◌, map, arith, is_some, Time,
  seconds, Ident, All, Returns,
}
use scrap_monitoring_backend.CollectionDetection.{
  Phase, baselining, idle, candidate, collecting, CollectionTracker, DetectionSettings, band_cm,
  Event, detected, settled, Stable, stable_now,
}
use scrap_monitoring_backend.CollectionDetection.Advance.{prepared, by_phase, advance}
use scrap_monitoring_backend.CollectionDetection.Invariant.{
  WellFormed, prepared-WellFormed, advance_at,
}

-- A moment that is recorded is not before `t`.
abbrev pub NotBefore : Time → Option Time → Type 0
NotBefore t none = Unit
NotBefore t (some a) = t ≤ a

-- Since the event at `last`: an episode's quiet time and a candidate have begun after it.
abbrev pub BegunAfter : Time → Phase → CollectionTracker → Type 0
BegunAfter last collecting s = NotBefore last s.quiet_since
BegunAfter last candidate s = NotBefore last s.candidate_since
BegunAfter last _ s = Unit

-- The state of preparation when the input was last interrupted at `from`.
abbrev pub Prepared : DetectionSettings → Time → Phase → CollectionTracker → Type 0
Prepared c from baselining s =
    NotBefore from s.stable_since × NotBefore from s.reference_candidate_since
Prepared c from idle s = from + seconds c.baseline_seconds ≤ s.observed_at
Prepared c from candidate s = NotBefore (from + seconds c.baseline_seconds) s.candidate_since
Prepared c from collecting s =
    from + seconds (c.baseline_seconds + c.confirm_seconds) ≤ s.observed_at

module _ (c : DetectionSettings) (wait : ℕ) where
  -- A detection comes the confirmation time after the event before it at the earliest, and a
  -- settlement the settling time.
  abbrev pub SpacedFrom : Time → List (Time × Event) → Type 0
  SpacedFrom last [] = Unit
  SpacedFrom last ((t, detected _ _ _ _) ∷ es) =
      (last + seconds c.confirm_seconds ≤ t) × SpacedFrom t es
  SpacedFrom last ((t, settled _ _) ∷ es) = (last + seconds wait ≤ t) × SpacedFrom t es

  -- The last event of a list, or the one before it.
  abbrev pub last_of : Time → Time → List Event → Time
  last_of last t [] = last
  last_of last t (_ ∷ _) = t

  module _ (detection_id : Ident → Time → Ident) where
    by_phase-spaced :
        (last : Time) (r : Stable) (supported : Option ℕ) (height : ℕ) (observed : Time) (fall : ℕ)
        (p : Phase) (s : CollectionTracker)
        → s.phase ≡ p
        → WellFormed s
        → s.observed_at ≡ observed
        → last ≤ observed
        → BegunAfter last p s
        → Returns
            (λ o.
              BegunAfter (last_of last observed o.1) o.0.phase o.0
              × SpacedFrom last (map (λ e. (observed, e)) o.1))
            (by_phase detection_id c fall wait r supported height observed p s)
    unfolding by_phase
    by_phase-spaced last r su height observed fall baselining s ph w now past b = ground arith
    by_phase-spaced last r su height observed fall idle s ph w now past b = ground arith
    by_phase-spaced last r su height observed fall candidate s ph w now past b = ground arith
    by_phase-spaced last r su height observed fall collecting s ph w now past b = ground arith

    pub by_phase-Prepared :
        (from : Time) (r : Stable) (supported : Option ℕ) (height : ℕ) (observed : Time) (fall : ℕ)
        (p : Phase) (s : CollectionTracker)
        → s.phase ≡ p
        → WellFormed s
        → s.observed_at ≡ observed
        → from ≤ observed
        → Prepared c from p s
        → (p ≡ baselining → from ≤ r.since)
        → (p ≡ baselining → is_some supported ≡ true → from + seconds c.baseline_seconds ≤ observed)
        → Returns
            (λ o.
              Prepared c from o.0.phase o.0
              × All (λ e. from + seconds (c.baseline_seconds + c.confirm_seconds) ≤ observed) o.1)
            (by_phase detection_id c fall wait r supported height observed p s)
    unfolding by_phase
    by_phase-Prepared from r su height observed fall baselining s ph w now past b st sup =
        ground arith
    by_phase-Prepared from r su height observed fall idle s ph w now past b st sup = ground arith
    by_phase-Prepared from r su height observed fall candidate s ph w now past b st sup =
        ground arith
    by_phase-Prepared from r su height observed fall collecting s ph w now past b st sup =
        ground arith

    BegunAfter-along :
        (last : Time) (p : Phase) (s t : CollectionTracker)
        → t.candidate_since ≡ s.candidate_since
        → t.quiet_since ≡ s.quiet_since
        → BegunAfter last p s
        → BegunAfter last p t
    BegunAfter-along last collecting s t ca qu b = subst⁻¹ (NotBefore last) qu b
    BegunAfter-along last candidate s t ca qu b = subst⁻¹ (NotBefore last) ca b
    BegunAfter-along last idle s t ca qu b = tt
    BegunAfter-along last baselining s t ca qu b = tt

    pub advance-spaced :
        (last : Time) (s : CollectionTracker) (height : ℕ) (observed : Time) (fall : ℕ)
        → WellFormed s
        → s.observed_at ≤ observed
        → c.drop_meters ≡ some fall
        → last ≤ s.observed_at
        → BegunAfter last s.phase s
        → Returns
            (λ o.
              BegunAfter (last_of last observed o.1) o.0.phase o.0
              × SpacedFrom last (map (λ e. (observed, e)) o.1))
            (advance detection_id c s height observed wait)
    advance-spaced last s height observed fall w later set past b =
        let r = stable_now s height observed (band_cm c) in
        let s₂ = (prepared c s r height observed).1 in
        let keeps = prepared_keeps detection_id c s r height observed in
        let ready = prepared-WellFormed detection_id c s height observed w later in
        subst⁻¹
          (Returns (λ o.
            BegunAfter (last_of last observed o.1) o.0.phase o.0
            × SpacedFrom last (map (λ e. (observed, e)) o.1)))
          (advance_at detection_id c s height observed wait fall set)
          (by_phase-spaced last r (prepared c s r height observed).0 height observed (fall * 100)
            s.phase s₂ keeps.0 ready.0 ready.2 (omega arith)
            (BegunAfter-along last s.phase s s₂ keeps.3 keeps.4 b))

    pub prepared_baselining :
        (from : Time) (s : CollectionTracker) (height : ℕ) (observed : Time)
        → s.phase ≡ baselining
        → from ≤ observed
        → NotBefore from s.stable_since × NotBefore from s.reference_candidate_since
        → let r = stable_now s height observed (band_cm c) in
          let (supported, s') = prepared c s r height observed in
          (from ≤ r.since)
          × (is_some supported ≡ true → from + seconds c.baseline_seconds ≤ observed)
          × (NotBefore from s'.stable_since × NotBefore from s'.reference_candidate_since)
    unfolding prepared stable_now
    prepared_baselining from s height observed ph past b = ground arith
