-- ===== src/HealthConditions/Tests.antt =====
-- Runs of the health conditions.
use scrap_monitoring_backend.Base.{
  ◌≡◌, refl, true, false, none, some, [], ◌∷◌, map, Time, seconds, Ident,
}
use scrap_monitoring_backend.HealthConditions.{
  unknown, fresh, degraded, stale, status_unknown, HealthState, HealthAlert, SensorReport,
  HealthView, ReasonCodes, sensor_of, stale_findings, edge_findings, sensor_findings,
  measurement_findings, all_sensors, health_conditions,
}

abbrev codes : ReasonCodes
codes = record {
  camera_not_configured = 1;
  status_not_received = 2;
  status_time_untrusted = 3;
  current_status_unavailable = 4;
  sensor_status_not_received = 5;
  scan_time_unavailable = 6;
  scan_stale = 7;
  measurement_unavailable = 8;
  preparing = 20 ∷ 21 ∷ [];
  filter = 30 ∷ 31 ∷ [];
}

abbrev sensor : Ident → HealthState → Time → SensorReport
sensor id state at = record {
  sensor_id = id;
  data_state = state;
  last_scan_at = some at;
  reason_codes = [];
}

abbrev identity_of : HealthAlert → Ident × HealthState
identity_of a = (a.component_id, a.state)

-- One sensor is fresh, one is too old, one never reported.
abbrev view : HealthView
view = record {
  pit_id = 11;
  edge_id = 12;
  configured = 41 ∷ 42 ∷ 43 ∷ [];
  reporting = true;
  report = some (record {
    generated_at = seconds 100;
    overall_state = degraded;
    reason_codes = 20 ∷ [];
    sensors = sensor 41 fresh (seconds 99) ∷ sensor 42 fresh (seconds 10) ∷ [];
  });
  last_received_at = some (seconds 101);
  data_state = stale;
  reason_codes = [];
  measured_at = none;
  simulated = false;
  ttl_seconds = 30;
}

current :
    map identity_of (health_conditions codes (seconds 105) view).0
    ≡ (42, stale) ∷ (43, unknown) ∷ (11, stale) ∷ []
unfolding health_conditions edge_findings all_sensors sensor_findings measurement_findings sensor_of
current = refl

-- Thirty seconds after the report nothing of it is asserted.
late : map identity_of (health_conditions codes (seconds 130) view).0 ≡ (12, status_unknown) ∷ []
unfolding health_conditions stale_findings
late = refl
