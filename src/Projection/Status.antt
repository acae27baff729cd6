-- ===== src/Projection/Status.antt =====
-- `project` of services/edge_v2_projection.py for a status report, and what it clears of
-- services/height_median_service.py; `device_clock_allowed` of services/height_reference.py.
use scrap_monitoring_backend.Base.{
  ℕ, ◌+◌, max, Bool, true, false, not, ◌&&◌, ◌||◌, Option, none, some, List, [], ◌∷◌, ltb, leb,
  ◌==◌, if◌then◌else◌, opt_eq, Time, seconds, Ident, length, find_first, any_of,
}
use scrap_monitoring_backend.Operations.{MonitoringSource}
use scrap_monitoring_backend.Projection.{is_running}
use scrap_monitoring_backend.Projection.Data.{
  OverallState, healthy, degraded, measurement_unavailable, config_error, unknown_state,
  SensorStatus, StatusReport, FilterPayload,
}

pub record StatusSettings : Type 0 where
  pub device : Ident
  pub ttl_seconds : ℕ
  pub monitoring_sources : List MonitoringSource
  -- the pits of the height references, each with whether it is simulated
  pub height_references : List (Ident × Bool)
  pub height_fill_enabled : Bool
  pub height_median_enabled : Bool

-- The row of kind `status`.
pub record LatestStatus : Type 0 where
  pub generated_at : Time
  pub payload : StatusReport

pub record StateChange : Type 0 where
  pub occurred_at : Time
  pub previous : OverallState
  pub pit_id : Option Ident
  pub current : OverallState
  pub message_id : Ident

-- The rows of one device that a status report touches. The row of the height window is there or not,
-- and its payload is empty or has a configuration's revision.
pub record StatusRows : Type 0 where
  pub latest : Option LatestStatus
  pub filter : Option FilterPayload
  pub height_window : Option (Option Ident)
  pub changes : List StateChange

abbrev pub synced : Ident
synced = 1

abbrev pub unsynced : Ident
unsynced = 2

abbrev pub state_code : OverallState → ℕ
state_code healthy = 0
state_code degraded = 1
state_code measurement_unavailable = 2
state_code config_error = 3
state_code unknown_state = 4

-- Whether the first reference of the pit is a simulated one.
unfoldable pub is_simulated : StatusSettings → Ident → Bool
is_simulated c pit = elim (find_first (λ r. r.0 == pit) c.height_references) [
  | none ↦ false
  | some r ↦ r.1
]

unfoldable pub clock_allowed : StatusSettings → Ident → Ident → Bool
unfolding is_simulated
clock_allowed c pit clock = clock == synced || (is_simulated c pit && clock == unsynced)

unfoldable pub assigned : StatusSettings → Option MonitoringSource
assigned c = find_first (λ s. s.device == c.device) c.monitoring_sources

unfoldable pub device_clock_allowed : StatusSettings → Ident → Bool
unfolding clock_allowed assigned
device_clock_allowed c clock =
    clock == synced
    || (elim (assigned c) [ none ↦ false | some s ↦ clock_allowed c s.pit_id clock ])

-- `timedelta(0) <= now - last_scan_at < ttl`, of a fresh sensor.
unfoldable pub is_recent : StatusSettings → Time → SensorStatus → Bool
is_recent c now s = elim s.last_scan_at [
  | none ↦ false
  | some at ↦ s.fresh && leb at now && ltb now (at + seconds c.ttl_seconds)
]

-- What both filters ask of a report.
unfoldable pub is_measuring : StatusSettings → Time → StatusReport → Bool
unfolding device_clock_allowed is_recent
is_measuring c now p =
    device_clock_allowed c p.clock_state
    && leb p.generated_at now
    && (length p.sensors == 2)
    && not (any_of (λ s. not (is_recent c now s)) p.sensors)

unfoldable pub invalidate_on_status :
    StatusSettings → StatusReport → Time → Bool → Option (Option Ident) → Option (Option Ident)
unfolding is_measuring
invalidate_on_status c p now same_instance none = none
invalidate_on_status c p now same_instance (some window) =
    let revised : Bool = elim window [ none ↦ false | some r ↦ not (r == p.config_revision) ] in
    if same_instance && is_running p.overall_state && is_measuring c now p && not revised
    then some window
    else some none

abbrev pub scope_revision : Option FilterPayload → Option ℕ
scope_revision none = none
scope_revision (some f) = elim f.scope [ [] ↦ none | r ∷ _ ↦ r ]

abbrev pub has_scope : Option FilterPayload → Bool
has_scope none = false
has_scope (some f) = elim f.scope [ [] ↦ false | r ∷ _ ↦ true ]

-- The filter row after a report of a new snapshot.
unfoldable pub kept_filter :
    StatusSettings → StatusReport → Time → Bool → Option FilterPayload → Option FilterPayload
unfolding is_measuring
kept_filter c p now same_instance filter =
    let running = if same_instance && is_running p.overall_state then filter else none in
    if c.height_fill_enabled
    then (if not (is_measuring c now p)
          || (has_scope running && not (opt_eq (scope_revision running) (some p.config_revision)))
        then none
        else running)
    else running

unfoldable pub log_state :
    StatusSettings → Option OverallState → StatusReport → List StateChange → List StateChange
log_state c none p changes = changes
log_state c (some old) p changes =
    if state_code old == state_code p.overall_state
    then changes
    else record {
      occurred_at = p.generated_at;
      previous = old;
      pit_id = elim (assigned c) [ none ↦ none | some s ↦ some s.pit_id ];
      current = p.overall_state;
      message_id = p.message_id;
    }
      ∷ changes

unfoldable pub replace_status :
    StatusSettings
    → StatusReport
    → Time
    → Bool
    → Option OverallState
    → LatestStatus
    → StatusRows
    → StatusRows
unfolding invalidate_on_status kept_filter log_state
replace_status c p now same_instance old latest rows = record {
  latest = some latest;
  filter = kept_filter c p now same_instance rows.filter;
  height_window =
      if c.height_median_enabled || c.height_fill_enabled
      then invalidate_on_status c p now same_instance rows.height_window
      else rows.height_window;
  changes = log_state c old p rows.changes;
}

-- A report of the retained instance: the newer generation counts, and a higher sequence replaces.
unfoldable pub same_instance_status :
    StatusSettings → StatusReport → Time → LatestStatus → StatusRows → StatusRows
unfolding replace_status
same_instance_status c p now current rows =
    let generated = max current.generated_at p.generated_at in
    if ltb current.payload.sequence p.sequence
    then replace_status c p now true (some current.payload.overall_state)
        (record { generated_at = generated; payload = p }) rows
    else record rows {
      latest = some (record { generated_at = generated; payload = current.payload });
    }

unfoldable pub other_instance_status :
    StatusSettings → StatusReport → Time → LatestStatus → StatusRows → StatusRows
unfolding replace_status
other_instance_status c p now current rows =
    if ltb current.generated_at p.generated_at
    then replace_status c p now false (some current.payload.overall_state)
        (record { generated_at = max current.generated_at p.generated_at; payload = p }) rows
    else rows

unfoldable pub status_with :
    StatusSettings → StatusReport → Time → Option LatestStatus → StatusRows → StatusRows
unfolding same_instance_status other_instance_status
status_with c p now none rows =
    replace_status c p now false none (record { generated_at = p.generated_at; payload = p }) rows
status_with c p now (some current) rows =
    if current.payload.orchestrator_instance_id == p.orchestrator_instance_id
    then same_instance_status c p now current rows
    else other_instance_status c p now current rows

-- `project` of a status report that is received at `now`.
unfoldable pub project_status : StatusSettings → StatusReport → Time → StatusRows → StatusRows
unfolding status_with
project_status c p now rows = status_with c p now rows.latest rows
