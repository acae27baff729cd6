-- ===== src/Projection/Filtering.antt =====
-- The window that the filter of services/edge_v2_projection.py returns for each observation.
use scrap_monitoring_backend.Base.{
  ℕ, ◌≤◌, ◌<◌, ◌≡◌, refl, ap, ◌⊎◌, inl, inr, true, false, Option, none, some, List, [], ◌∷◌, arith,
  Bool-cases, Time, length, All, Returns, Returns-map,
}
use scrap_monitoring_backend.ObservationWindow.Latest.{AscendsFrom}
use scrap_monitoring_backend.Projection.{
  earlier_samples, same_scope, kept_samples, last_observed, Window, no_window, added_sample, is_old,
  has_gap, filter_input,
}
use scrap_monitoring_backend.Projection.Data.{
  Observation, Scope, Sample, FilterPayload, ProjectionSettings,
}
use scrap_monitoring_backend.Projection.Picks.{times_of}
use scrap_monitoring_backend.Projection.Windows.{
  Added, FilterHolds, FromSamples, UpTo, added_sample-Added,
}

-- What an observation gives: none, if it does not count or is not newer than the row's; else a window
-- up to it, of one sample at most after a gap.
abbrev pub WindowOf : ProjectionSettings → Option Time → Option (Time × ℕ) → Window → Type 0
WindowOf c last none w = w ≡ no_window
WindowOf c last (some r) w =
    ((is_old last r.0 ≡ true) × (w ≡ no_window))
    ⊎ ((is_old last r.0 ≡ false)
        × FromSamples c r.0 w
        × (has_gap last r.0 ≡ true → length w.samples ≤ 1))

UpTo-weaken :
    (o : Option Time) (t : Time) (xs : List Sample)
    → is_old o t ≡ false
    → UpTo o xs
    → All (λ s. s.at ≤ t) xs
UpTo-weaken none t xs new h = rw h tt
UpTo-weaken (some l) t [] new h = tt
UpTo-weaken (some l) t (x ∷ r) new h = (ground (arith, h.0, new), UpTo-weaken (some l) t r new h.1)

abbrev Earlier : Time → List Sample × Option Time → Type 0
Earlier t (old, anchor) = AscendsFrom 0 (times_of old) × All (λ s. s.at ≤ t) old

kept_samples-Earlier :
    (c : ProjectionSettings) (previous : Option FilterPayload) (scope : Scope) (t : Time)
    → FilterHolds c previous
    → is_old (last_observed previous) t ≡ false
    → Earlier t (kept_samples previous scope)
unfolding kept_samples
kept_samples-Earlier c none scope t h new = (tt, tt)
kept_samples-Earlier c (some p) scope t h new = elim (Bool-cases (same_scope p.scope scope)) [
  | inl e ↦ rw e (h.ascends, UpTo-weaken p.observed_at t p.samples new h.past)
  | inr e ↦ rw e (tt, tt)
]

earlier_samples-Earlier :
    (c : ProjectionSettings) (previous : Option FilterPayload) (scope : Scope) (t : Time)
    → FilterHolds c previous
    → is_old (last_observed previous) t ≡ false
    → let old = earlier_samples previous scope t in
      Earlier t old × (has_gap (last_observed previous) t ≡ true → old.0 ≡ [])
unfolding earlier_samples
earlier_samples-Earlier c previous scope t h new =
    elim (Bool-cases (has_gap (last_observed previous) t)) [
      | inl gap ↦ rw gap ((tt, tt), λ _. refl)
      | inr near ↦ rw near (kept_samples-Earlier c previous scope t h new, λ e. absurd (cc))
    ]

added_sample-WindowOf :
    (c : ProjectionSettings) (o : Observation) (height : Option ℕ) (t : Time) (v : ℕ)
    (last : Option Time) (old : List Sample × Option Time)
    → 0 < c.window_seconds
    → is_old last t ≡ false
    → Earlier t old
    → (has_gap last t ≡ true → old.0 ≡ [])
    → Returns (WindowOf c last (some (t, v))) (added_sample c o height (t, v) old)
added_sample-WindowOf c o height t v last (old, anchor) p new early alone =
    Returns-map (Added c t old) (WindowOf c last (some (t, v)))
      (λ w g. inr (new, g.0, λ gap. omega (arith, g.1, ap length (alone gap))))
      (added_sample c o height (t, v) (old, anchor))
      (added_sample-Added c o height t p v old anchor early.0 early.1)

pub filter_input-WindowOf :
    (c : ProjectionSettings) (previous : Option FilterPayload) (scope : Scope) (o : Observation)
    (height : Option ℕ) (reading : Option (Time × ℕ))
    → 0 < c.window_seconds
    → FilterHolds c previous
    → Returns
        (WindowOf c (last_observed previous) reading)
        (filter_input c previous scope o height reading)
unfolding filter_input
filter_input-WindowOf c previous scope o height none p h = refl
filter_input-WindowOf c previous scope o height (some (t, v)) p h =
    elim (Bool-cases (is_old (last_observed previous) t)) [
      | inl old ↦ rw old (inl (old, refl))
      | inr new ↦
          let (early, alone) = earlier_samples-Earlier c previous scope t h new in
          rw new (
            added_sample-WindowOf c o height t v (last_observed previous)
              (earlier_samples previous scope t) p new early alone)
    ]
