-- ===== src/Forecast/Whole.antt =====
-- The three answers of `fill_forecast` of services/fill_forecast_service.py.
use scrap_monitoring_backend.Base.{
  ℕ, ◌≤◌, ◌<◌, ◌≡◌, refl, ◌⊎◌, inl, inr, Bool, true, false, ◌&&◌, Option, none, some, List, [], map,
  arith, leb, if◌then◌else◌, Bool-cases, Time, any_of,
}
use scrap_monitoring_backend.Forecast.{
  collection_unavailable, current_load_unavailable, observation_changed, collection_in_progress,
  HistorySample, recent_points, TrendReason, snapshot_reason, reached, FillForecast, refused,
}
use scrap_monitoring_backend.Forecast.Answer.{
  SnapshotView, CollectionView, initial_forecast, context_of, with_current, forecast_trend,
  in_progress, is_unknown, forecast_below, forecast_loaded, fill_forecast, observed_after,
}
use scrap_monitoring_backend.Forecast.Trend.{
  IsRefused, IsForecast, project_trend-Answers, either_branch,
}

-- The load is at the threshold already.
abbrev pub IsReached : SnapshotView → Time → FillForecast → Type 0
IsReached snapshot now out =
    (current : ℕ) × (snapshot.load_percent ≡ some current)
    × (snapshot.threshold ≤ current)
    × (out.state ≡ reached)
    × (out.remaining_seconds ≡ some 0)
    × (out.expected_at ≡ some now)

-- A fresh load below the threshold, no collection under way, and a forecast on the recent points with
-- the current load.
abbrev pub IsProjected :
    SnapshotView → CollectionView → List HistorySample → Time → FillForecast → Type 0
IsProjected snapshot collections samples now out =
    (current : ℕ) × (measured : Time) × (snapshot.is_fresh ≡ true)
    × (snapshot.load_percent ≡ some current)
    × (snapshot.measured_at ≡ some measured)
    × (current < snapshot.threshold)
    × (collections.detection_enabled && in_progress collections.detection_state ≡ false)
    × IsForecast
        (with_current (context_of snapshot collections now) measured current
          (recent_points (context_of snapshot collections now) samples))
        (initial_forecast snapshot now) out

abbrev pub Answers :
    SnapshotView → CollectionView → List HistorySample → Time → FillForecast → Type 0
Answers snapshot collections samples now out =
    IsRefused out ⊎ (IsReached snapshot now out ⊎ IsProjected snapshot collections samples now out)

module _ (snapshot : SnapshotView) (collections : CollectionView) (samples : List HistorySample)
    (now : Time) where
  refused-Answers :
      (ttl : ℕ) (reason : TrendReason) (until : Time)
      → Answers snapshot collections samples now
          (refused reason (record (initial_forecast snapshot now) { valid_until = until }))
  refused-Answers ttl reason until = inl (reason, [], refl, refl, refl, refl)

  forecast_trend-Answers :
      (until : Time) (measured : Time) (current : ℕ)
      → snapshot.is_fresh ≡ true
      → snapshot.load_percent ≡ some current
      → snapshot.measured_at ≡ some measured
      → current < snapshot.threshold
      → collections.detection_enabled && in_progress collections.detection_state ≡ false
      → Answers snapshot collections samples now (
          forecast_trend snapshot collections samples now measured current
            (record (initial_forecast snapshot now) { valid_until = until }))
  unfolding forecast_trend
  forecast_trend-Answers until measured current fresh load at below quiet =
      elim (Bool-cases
        (any_of (λ (s : HistorySample). observed_after measured s.observed_at) samples)) [
          | inl later ↦ rw later (refused-Answers 0 observation_changed until)
          | inr settled ↦
              rw settled
                (elim (project_trend-Answers
                  (with_current (context_of snapshot collections now) measured current
                    (recent_points (context_of snapshot collections now) samples))
                  (record (initial_forecast snapshot now) { valid_until = until })
                  (record { state = refl; remaining = refl; expected = refl })) [
                    | inl h ↦ inl h
                    | inr h ↦ inr (inr (current, measured, fresh, load, at, below, quiet, h))
                  ])
        ]

  forecast_below-Answers :
      (until : Time) (measured : Time) (current : ℕ)
      → snapshot.is_fresh ≡ true
      → snapshot.load_percent ≡ some current
      → snapshot.measured_at ≡ some measured
      → current < snapshot.threshold
      → Answers snapshot collections samples now (
          forecast_below snapshot collections samples now measured current
            (record (initial_forecast snapshot now) { valid_until = until }))
  unfolding forecast_below
  forecast_below-Answers until measured current fresh load at below =
      let r = record (initial_forecast snapshot now) { valid_until = until } in
      let trend = forecast_trend snapshot collections samples now measured current r in
      let unknown = collections.detection_enabled && is_unknown collections.detection_state in
      let P : FillForecast → Type 0 = Answers snapshot collections samples now in
      either_branch P (collections.detection_enabled && in_progress collections.detection_state)
        (refused collection_in_progress r)
        (if unknown then refused collection_unavailable r else trend)
        (λ busy. refused-Answers 0 collection_in_progress until)
        (λ quiet.
          either_branch P unknown (refused collection_unavailable r) trend
            (λ h. refused-Answers 0 collection_unavailable until)
            (λ h. forecast_trend-Answers until measured current fresh load at below quiet))

  forecast_loaded-Answers :
      (ttl : ℕ) (fresh : Bool) (load : Option ℕ) (at : Option Time)
      → snapshot.is_fresh ≡ fresh
      → snapshot.load_percent ≡ load
      → snapshot.measured_at ≡ at
      → Answers snapshot collections samples now
          (forecast_loaded ttl snapshot collections samples now fresh load at)
  forecast_loaded-Answers ttl true (some current) (some measured) f l a =
      elim (Bool-cases (leb snapshot.threshold current)) [
        | inl there ↦ rw there (inr (inl (current, l, ground arith, refl, refl, refl)))
        | inr below ↦ rw below (forecast_below-Answers _ measured current f l a (ground arith))
      ]
  forecast_loaded-Answers ttl true (some current) none f l a =
      inl (
        current_load_unavailable,
        map snapshot_reason snapshot.reason_codes,
        refl,
        refl,
        refl,
        refl,
      )
  forecast_loaded-Answers ttl true none at f l a =
      inl (
        current_load_unavailable,
        map snapshot_reason snapshot.reason_codes,
        refl,
        refl,
        refl,
        refl,
      )
  forecast_loaded-Answers ttl false load at f l a =
      inl (
        current_load_unavailable,
        map snapshot_reason snapshot.reason_codes,
        refl,
        refl,
        refl,
        refl,
      )

  -- Of the forecast: it is refused with a reason and no time, or the load is at the threshold and the
  -- time is now, or it stands on a fresh load below the threshold outside a collection: on a window
  -- of at least a minute and three of the recent points, with a rising line of a fit of at least
  -- 0.8, the remaining seconds are the least whole number at which the line meets the threshold, to
  -- the nanosecond, and are at most a day.
  pub fill_forecast-Answers :
      (ttl : ℕ)
      → Answers snapshot collections samples now
          (fill_forecast ttl snapshot collections samples now)
  unfolding fill_forecast
  fill_forecast-Answers ttl =
      forecast_loaded-Answers ttl snapshot.is_fresh snapshot.load_percent snapshot.measured_at refl
        refl refl
