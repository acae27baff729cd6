-- ===== src/Forecast/Answer.antt =====
-- `fill_forecast` of services/fill_forecast_service.py, over what the snapshot, the collections and the
-- history answered.
use scrap_monitoring_backend.Base.{
  ℕ, ◌+◌, ◌-◌, min, max, Bool, true, false, ◌&&◌, ◌||◌, Option, none, some, List, [], ◌∷◌, map, ltb,
  leb, if◌then◌else◌, Time, seconds, Ident, any_of,
}
use scrap_monitoring_backend.Forecast.{
  collection_unavailable, observation_changed, current_load_unavailable, threshold_reached,
  collection_in_progress, HistorySample, Point, TrendContext, window_seconds, max_gap_seconds,
  drop_percent, recent_points, snapshot_reason, reached, unavailable, FillForecast, refused,
  project_trend,
}

-- What it reads of the monitoring snapshot.
pub record SnapshotView : Type 0 where
  pub is_fresh : Bool
  pub load_percent : Option ℕ
  pub measured_at : Option Time
  pub threshold : ℕ
  pub simulated : Bool
  pub input_source : Ident
  pub method_version : Option Ident
  pub reason_codes : List Ident

pub data DetectionState : Type 0 where
  idle candidate collecting unknown_state : DetectionState

pub record CollectionView : Type 0 where
  pub detection_enabled : Bool
  pub detection_state : DetectionState
  pub last_activity_at : Option Time

abbrev pub latest_cutoff : Time → Option Time → Time
latest_cutoff lower none = lower
latest_cutoff lower (some at) = max lower at

-- `any(sample.observedAt > snapshot.measuredAt)`
abbrev pub observed_after : Time → Option Time → Bool
observed_after measured none = false
observed_after measured (some at) = ltb measured at

-- The current partial minute must not keep the trend of the one before through a drop.
abbrev pub kept_trend : Time → ℕ → List Point → List Point
kept_trend measured current [] = []
kept_trend measured current (last ∷ points) =
    if ltb (seconds max_gap_seconds) (measured - last.at) || ltb (current + drop_percent) last.value
    then []
    else last ∷ points

abbrev pub is_newer : Time → List Point → Bool
is_newer measured [] = true
is_newer measured (last ∷ points) = ltb last.at measured

-- The points with the current load as the newest.
unfoldable pub with_current : TrendContext → Time → ℕ → List Point → List Point
with_current c measured current points =
    let kept = kept_trend measured current points in
    if leb c.cutoff measured && leb measured c.now && is_newer measured kept
    then record { at = measured; value = current } ∷ kept
    else kept

abbrev pub initial_forecast : SnapshotView → Time → FillForecast
initial_forecast snapshot now = record {
  computed_at = now;
  valid_until = now;
  state = unavailable;
  current_load = snapshot.load_percent;
  target = snapshot.threshold;
  expected_at = none;
  remaining_seconds = none;
  slope = none;
  trend_r_squared = none;
  window_from = now - seconds window_seconds;
  window_to = now;
  sample_count = 0;
  reason_codes = [];
}

abbrev pub context_of : SnapshotView → CollectionView → Time → TrendContext
context_of snapshot collections now = record {
  input_source = snapshot.input_source;
  method_version = snapshot.method_version;
  simulated = snapshot.simulated;
  cutoff = latest_cutoff (now - seconds window_seconds) collections.last_activity_at;
  now = now;
}

unfoldable pub forecast_trend :
    SnapshotView
    → CollectionView
    → List HistorySample
    → Time
    → Time
    → ℕ
    → FillForecast
    → FillForecast
unfolding with_current
forecast_trend snapshot collections samples now measured current r =
    let c = context_of snapshot collections now in
    if any_of (λ (s : HistorySample). observed_after measured s.observed_at) samples
    then refused observation_changed r
    else project_trend (with_current c measured current (recent_points c samples)) r

abbrev pub reached_forecast : Time → FillForecast → FillForecast
reached_forecast now r = record r {
  state = reached;
  expected_at = some now;
  remaining_seconds = some 0;
  reason_codes = threshold_reached ∷ [];
}

abbrev pub in_progress : DetectionState → Bool
in_progress candidate = true
in_progress collecting = true
in_progress _ = false

abbrev pub is_unknown : DetectionState → Bool
is_unknown unknown_state = true
is_unknown _ = false

unfoldable pub forecast_below :
    SnapshotView
    → CollectionView
    → List HistorySample
    → Time
    → Time
    → ℕ
    → FillForecast
    → FillForecast
unfolding forecast_trend
forecast_below snapshot collections samples now measured current r =
    if collections.detection_enabled && in_progress collections.detection_state
    then refused collection_in_progress r
    else (if collections.detection_enabled && is_unknown collections.detection_state
        then refused collection_unavailable r
        else forecast_trend snapshot collections samples now measured current r)

-- The reasons of a snapshot whose load cannot be used.
abbrev pub load_unavailable : SnapshotView → FillForecast → FillForecast
load_unavailable snapshot r = record r {
  reason_codes = current_load_unavailable ∷ map snapshot_reason snapshot.reason_codes;
}

abbrev pub forecast_loaded :
    ℕ
    → SnapshotView
    → CollectionView
    → List HistorySample
    → Time
    → Bool
    → Option ℕ
    → Option Time
    → FillForecast
forecast_loaded ttl snapshot collections samples now true (some current) (some measured) =
    let r = record (initial_forecast snapshot now) {
      valid_until = min (now + seconds 60) (measured + seconds ttl);
    } in
    if leb r.target current
    then reached_forecast now r
    else forecast_below snapshot collections samples now measured current r
forecast_loaded ttl snapshot collections samples now _ _ _ =
    load_unavailable snapshot (initial_forecast snapshot now)

unfoldable pub fill_forecast :
    ℕ → SnapshotView → CollectionView → List HistorySample → Time → FillForecast
unfolding forecast_below
fill_forecast ttl snapshot collections samples now =
    forecast_loaded ttl snapshot collections samples now snapshot.is_fresh snapshot.load_percent
      snapshot.measured_at
