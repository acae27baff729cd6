-- ===== src/Forecast/Tests.antt =====
-- Runs and applications of the theorems on the forecast.
use scrap_monitoring_backend.Base.{
  ℕ, ◌+◌, ◌≡◌, refl, true, false, none, some, List, [], ◌∷◌, Time, seconds, percent,
}
use scrap_monitoring_backend.Forecast.{
  HistorySample, TrendContext, point_of, breaks, add_point, recent_points, fit_of, remaining_of,
  project_remaining, project_fit, project_points, project_trend,
}
use scrap_monitoring_backend.Forecast.Answer.{
  SnapshotView, CollectionView, idle, context_of, with_current, forecast_trend, forecast_below,
  fill_forecast,
}
use scrap_monitoring_backend.Forecast.Recent.{IsLongest, newest_first, recent_points-IsLongest}
use scrap_monitoring_backend.Forecast.Whole.{Answers, fill_forecast-Answers}

abbrev start : Time
start = seconds 1_000

abbrev sample : ℕ → ℕ → HistorySample
sample at value = record {
  observed_at = some (start + seconds at);
  generated_at = some (start + seconds at);
  value_percent = some (percent value);
  valid = true;
  invalid_samples = 0;
  is_available = true;
  input_source = 1;
  method_version = some 2;
  simulated = false;
}

abbrev samples : List HistorySample
samples =
    sample 0 90
    ∷ sample 60 20
    ∷ sample 120 25
    ∷ record (sample 150 26) { valid = false }
    ∷ sample 180 30
    ∷ sample 240 35
    ∷ sample 300 40
    ∷ []

abbrev snapshot : SnapshotView
snapshot = record {
  is_fresh = true;
  load_percent = some (percent 41);
  measured_at = some (start + seconds 312);
  threshold = percent 80;
  simulated = false;
  input_source = 1;
  method_version = some 2;
  reason_codes = [];
}

abbrev collections : CollectionView
collections = record { detection_enabled = true; detection_state = idle; last_activity_at = none }

abbrev now : Time
now = start + seconds 320

abbrev context : TrendContext
context = context_of snapshot collections now

-- The invalid sample ends the older trend.
suffix :
    recent_points context samples
    ≡ record { at = start + seconds 300; value = percent 40 }
      ∷ record { at = start + seconds 240; value = percent 35 }
      ∷ record { at = start + seconds 180; value = percent 30 }
      ∷ []
unfolding recent_points add_point point_of breaks
suffix = refl

-- One percent in 12 seconds, 39 to go.
remaining : (fill_forecast 30 snapshot collections samples now).remaining_seconds ≡ some 468
unfolding fill_forecast forecast_below forecast_trend with_current recent_points add_point point_of
    breaks project_trend project_points fit_of project_fit project_remaining remaining_of
remaining = refl

recent_points-IsLongest_example :
    IsLongest (newest_first context samples []) (recent_points context samples)
recent_points-IsLongest_example = recent_points-IsLongest context samples

fill_forecast-Answers_example :
    Answers snapshot collections samples now (fill_forecast 30 snapshot collections samples now)
fill_forecast-Answers_example = fill_forecast-Answers snapshot collections samples now 30
