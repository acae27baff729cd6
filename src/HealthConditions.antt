-- ===== src/HealthConditions.antt =====
-- `health_conditions` of services/active_health_service.py: which faults a current status asserts, and
-- which components it checks.
-- Titles and what the kind of a component alone decides are left out, and an identifier of a condition
-- is its component's. Of a generated instant that
-- is later than now only the five seconds of skew matter.
pub mod Stale
mod Tests
use scrap_monitoring_backend.Base.{
  ℕ, zero, suc, ◌+◌, ◌-◌, ◌*◌, ◌/◌, ◌%◌, ◌≤◌, ◌<◌, min, max, ◌≡◌, refl, sym, ap, ◌∙◌, ◌≢◌, ◌↔◌, ◌⊎◌,
  inl, inr, Bool, true, false, not, ◌&&◌, ◌||◌, Option, none, some, List, [], ◌∷◌, ◌++◌, map, arith,
  ltb, leb, ◌==◌, if◌then◌else◌, ltb→lt, lt→ltb, leb→le, le→leb, ==_iff, ==_refl, Bool-cases,
  Option-cases, is_some, opt_eq, opt_eq→eq, bool_eq, Time, seconds, Ident, percent, length, take,
  drop, get_elem?, keep_if, find_first, any_of, All, length-append, length-drop, length-take,
  All-append, All-drop, Result, ok, err, ◌>>=◌, ◌>>◌, raise_if, is_ok, Returns, Returns-map,
  Returns→some,
}

pub data ComponentKind : Type 0 where
  edge lidar measurement camera : ComponentKind

-- The states of a device, of a sensor and of a measurement.
pub data HealthState : Type 0 where
  status_unknown healthy degraded measurement_unavailable config_error fresh stale recovering
        unavailable unknown no_data :
      HealthState

pub data CoverageState : Type 0 where
  checked not_known unsupported : CoverageState

pub data Evidence : Type 0 where
  edge_status status_freshness current_measurement : Evidence

pub record HealthAlert : Type 0 where
  pub is_error : Bool
  pub component_kind : ComponentKind
  pub component_id : Ident
  pub state : HealthState
  pub evaluated_at : Time
  pub measured_at : Option Time
  pub evidence_source : Evidence
  pub reason_codes : List Ident
  pub simulated : Option Bool

pub record Coverage : Type 0 where
  pub component_kind : ComponentKind
  pub component_id : Option Ident
  pub state : CoverageState
  pub reason_codes : List Ident

pub record SensorReport : Type 0 where
  pub sensor_id : Ident
  pub data_state : HealthState
  pub last_scan_at : Option Time
  pub reason_codes : List Ident

pub record DeviceReport : Type 0 where
  pub generated_at : Time
  pub overall_state : HealthState
  pub reason_codes : List Ident
  pub sensors : List SensorReport

-- What it reads of the snapshot and the settings.
pub record HealthView : Type 0 where
  pub pit_id : Ident
  pub edge_id : Ident
  pub configured : List Ident
  pub reporting : Bool
  pub report : Option DeviceReport
  pub last_received_at : Option Time
  pub data_state : HealthState
  pub reason_codes : List Ident
  pub measured_at : Option Time
  pub simulated : Bool
  pub ttl_seconds : ℕ

-- The reason codes that the function names, as numbers.
pub record ReasonCodes : Type 0 where
  pub camera_not_configured : Ident
  pub status_not_received : Ident
  pub status_time_untrusted : Ident
  pub current_status_unavailable : Ident
  pub sensor_status_not_received : Ident
  pub scan_time_unavailable : Ident
  pub scan_stale : Ident
  pub measurement_unavailable : Ident
  pub preparing : List Ident
  pub filter : List Ident

abbrev pub has_any : List Ident → List Ident → Bool
has_any codes reasons = any_of (λ r. any_of (λ c. c == r) codes) reasons

-- `list(dict.fromkeys(reasons))`
unfoldable pub without_repeats : List Ident → List Ident → List Ident
without_repeats seen [] = []
without_repeats seen (r ∷ reasons) =
    if any_of (λ s. s == r) seen
    then without_repeats seen reasons
    else r ∷ without_repeats (r ∷ seen) reasons

abbrev pub is_status_fresh : Time → Bool → Option DeviceReport → Bool
is_status_fresh now true (some report) =
    leb report.generated_at (now + seconds 5) && ltb now (report.generated_at + seconds 30)
is_status_fresh now _ _ = false

abbrev pub component_coverage : ComponentKind → Option Ident → CoverageState → List Ident → Coverage
component_coverage kind id state reasons = record {
  component_kind = kind;
  component_id = id;
  state = state;
  reason_codes = reasons;
}

abbrev pub is_healthy : HealthState → Bool
is_healthy healthy = true
is_healthy _ = false

abbrev pub is_degraded : HealthState → Bool
is_degraded degraded = true
is_degraded _ = false

abbrev pub is_fresh : HealthState → Bool
is_fresh fresh = true
is_fresh _ = false

abbrev pub is_recovering : HealthState → Bool
is_recovering recovering = true
is_recovering _ = false

abbrev pub is_unavailable : HealthState → Bool
is_unavailable unavailable = true
is_unavailable _ = false

-- `state in ("FRESH", "STALE", "UNAVAILABLE")`
abbrev pub is_checkable : HealthState → Bool
is_checkable fresh = true
is_checkable stale = true
is_checkable unavailable = true
is_checkable _ = false

-- `overall_state in ("MEASUREMENT_UNAVAILABLE", "CONFIG_ERROR")`
abbrev pub is_severe : HealthState → Bool
is_severe measurement_unavailable = true
is_severe config_error = true
is_severe _ = false

-- The state, the reasons and the scan time that a configured sensor is judged by.
pub record SensorView : Type 0 where
  pub state : HealthState
  pub reasons : List Ident
  pub measured : Option Time

-- The last entry of a sensor wins, as in the dict that the source builds.
unfoldable pub sensor_of : Ident → List SensorReport → Option SensorReport
sensor_of id [] = none
sensor_of id (s ∷ sensors) =
    let later = sensor_of id sensors in
    if is_some later then later else if s.sensor_id == id then some s else none

abbrev pub reported_view : ReasonCodes → Option SensorReport → SensorView
reported_view codes none = record {
  state = unknown;
  reasons = codes.sensor_status_not_received ∷ [];
  measured = none;
}
reported_view codes (some s) = record {
  state = s.data_state;
  reasons = s.reason_codes;
  measured = s.last_scan_at;
}

-- A fresh sensor without a scan in the past, or with one that is too old, is not fresh.
abbrev pub aged_view : ReasonCodes → ℕ → Time → SensorView → Bool → Option Time → SensorView
aged_view codes ttl now v false at = v
aged_view codes ttl now v true none = record v {
  state = unknown;
  reasons = v.reasons ++ (codes.scan_time_unavailable ∷ []);
}
aged_view codes ttl now v true (some at) =
    if ltb now at
    then record v { state = unknown; reasons = v.reasons ++ (codes.scan_time_unavailable ∷ []) }
    else (if leb (at + seconds ttl) now
        then record v { state = stale; reasons = v.reasons ++ (codes.scan_stale ∷ []) }
        else v)

abbrev pub sensor_view : ReasonCodes → ℕ → Time → Option SensorReport → SensorView
sensor_view codes ttl now sensor =
    let v = reported_view codes sensor in aged_view codes ttl now v (is_fresh v.state) v.measured

abbrev pub Findings : Type 0
Findings = List HealthAlert × List Coverage

module _ (codes : ReasonCodes) (now : Time) (h : HealthView) where
  -- `condition`
  abbrev pub condition :
      ComponentKind
      → Ident
      → HealthState
      → List Ident
      → Evidence
      → Option Time
      → Bool
      → Option Bool
      → HealthAlert
  condition kind id state reasons evidence measured severe simulated = record {
    is_error = severe;
    component_kind = kind;
    component_id = id;
    state = state;
    evaluated_at = now;
    measured_at = measured;
    evidence_source = evidence;
    reason_codes = without_repeats [] reasons;
    simulated = simulated;
  }

  abbrev pub camera_coverage : Coverage
  camera_coverage = component_coverage camera none unsupported (codes.camera_not_configured ∷ [])

  abbrev pub unknown_coverage : ComponentKind → Ident → Coverage
  unknown_coverage kind id =
      component_coverage kind (some id) not_known (codes.current_status_unavailable ∷ [])

  unfoldable pub stale_findings : Findings
  stale_findings = (
    condition edge h.edge_id status_unknown
          ((if h.reporting then codes.status_time_untrusted else codes.status_not_received) ∷ [])
          status_freshness h.last_received_at false none
        ∷ [],
    camera_coverage
        ∷ unknown_coverage edge h.edge_id
        ∷ (map (unknown_coverage lidar) h.configured
            ++ (unknown_coverage measurement h.pit_id ∷ [])),
  )

  unfoldable pub edge_findings : DeviceReport → Findings
  edge_findings report = (
    (if is_healthy report.overall_state
          || (has_any codes.preparing report.reason_codes && is_degraded report.overall_state)
        then []
        else condition edge h.edge_id report.overall_state report.reason_codes edge_status
            (some report.generated_at) (is_severe report.overall_state) none
          ∷ []),
    component_coverage edge (some h.edge_id) checked [] ∷ [],
  )

  unfoldable pub sensor_findings : DeviceReport → Ident → Findings
  unfolding sensor_of
  sensor_findings report id =
      let v = sensor_view codes h.ttl_seconds now (sensor_of id report.sensors) in
      let preparing = is_recovering v.state || has_any codes.preparing v.reasons in
      (
        (if is_fresh v.state || preparing
            then []
            else condition lidar id v.state v.reasons edge_status v.measured
                (is_unavailable v.state) none
              ∷ []),
        component_coverage lidar (some id)
              (if is_checkable v.state && not preparing then checked else not_known) v.reasons
            ∷ [],
      )

  abbrev pub or_reasons : List Ident → List Ident
  or_reasons [] = codes.measurement_unavailable ∷ []
  or_reasons (r ∷ reasons) = r ∷ reasons

  unfoldable pub measurement_findings : Findings
  measurement_findings =
      let preparing =
        has_any codes.preparing h.reason_codes || has_any codes.filter h.reason_codes in
      (
        (if is_fresh h.data_state || preparing
            then []
            else condition measurement h.pit_id h.data_state (or_reasons h.reason_codes)
                current_measurement h.measured_at (is_unavailable h.data_state) (some h.simulated)
              ∷ []),
        component_coverage measurement (some h.pit_id)
              (if is_checkable h.data_state && not preparing then checked else not_known)
              h.reason_codes
            ∷ [],
      )

  abbrev pub both : Findings → Findings → Findings
  both a b = (a.0 ++ b.0, a.1 ++ b.1)

  unfoldable pub all_sensors : DeviceReport → List Ident → Findings
  unfolding sensor_findings
  all_sensors report [] = ([], [])
  all_sensors report (id ∷ ids) = both (sensor_findings report id) (all_sensors report ids)

  -- A fresh status has a report.
  abbrev pub fresh_findings : Option DeviceReport → Findings
  fresh_findings none = stale_findings
  fresh_findings (some report) =
      both ([], camera_coverage ∷ [])
        (both (edge_findings report) (both (all_sensors report h.configured) measurement_findings))

  unfoldable pub health_conditions : Findings
  unfolding stale_findings edge_findings all_sensors measurement_findings without_repeats
  health_conditions =
      if is_status_fresh now h.reporting h.report then fresh_findings h.report else stale_findings
