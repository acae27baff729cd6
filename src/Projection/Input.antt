-- ===== src/Projection/Input.antt =====
-- `project_input` of services/edge_v2_projection.py: one observation, its events and its rows.
use scrap_monitoring_backend.Base.{
  ℕ, Bool, ◌&&◌, Option, none, some, List, ◌∷◌, if◌then◌else◌, opt_eq, bool_eq, Time, Ident,
}
use scrap_monitoring_backend.Operations.{MonitoringSource}
use scrap_monitoring_backend.Projection.{
  measurement_validity_changed, fill_input_changed, same_input, assignment_of, threshold_of,
  scope_of, reading_of, Window, filter_input, above_since,
}
use scrap_monitoring_backend.Projection.Data.{
  DeviceStatus, Observation, Scope, FilterPayload, Transition, ProjectionSettings, DeviceRows,
}
use scrap_monitoring_backend.Projection.Minutes.{record_minute}

abbrev pub pit_of : Option MonitoringSource → Option Ident
pit_of none = none
pit_of (some s) = some s.pit_id

unfoldable pub log_input_change :
    Option FilterPayload → Observation → List Transition → List Transition
log_input_change none o ts = ts
log_input_change (some p) o ts =
    if same_input p.input_source o.source && opt_eq p.method_version o.method_version
    then ts
    else record {
      occurred_at = o.generated_at;
      kind =
          fill_input_changed p.input_source p.method_version o.source o.method_version o.message_id
            o.observation_id;
    }
      ∷ ts

unfoldable pub log_validity :
    Option FilterPayload
    → Observation
    → Option MonitoringSource
    → Bool
    → List Transition
    → List Transition
log_validity none o assignment valid ts = ts
log_validity (some p) o assignment valid ts =
    if bool_eq p.input_valid valid
    then ts
    else record {
      occurred_at = o.generated_at;
      kind =
          measurement_validity_changed p.input_valid (pit_of assignment) o.simulated valid o.source
            o.message_id o.observation_id o.reason_codes;
    }
      ∷ ts

unfoldable pub payload_of :
    ProjectionSettings → Option FilterPayload → Scope → Observation → ℕ → Window → FilterPayload
payload_of c previous scope o threshold w = record {
  scope = scope;
  samples = w.samples;
  slot_anchor_at = w.slot_anchor_at;
  state = w.state;
  message_id = o.message_id;
  value = w.value;
  observed_at = o.observed_to;
  above_since = above_since c previous scope w threshold o.observed_to;
  threshold = threshold;
  input_valid = w.valid;
  input_source = o.source;
  method_version = o.method_version;
}

unfoldable pub write_rows :
    ProjectionSettings
    → Option MonitoringSource
    → Scope
    → ℕ
    → Observation
    → DeviceRows
    → Window
    → DeviceRows
unfolding log_input_change log_validity payload_of record_minute
write_rows c assignment scope threshold o rows w = record {
  filter = some (payload_of c rows.filter scope o threshold w);
  minutes = record_minute o w.value w.valid rows.minutes;
  transitions =
      log_validity rows.filter o assignment w.valid
        (log_input_change rows.filter o rows.transitions);
}

unfoldable pub written :
    ProjectionSettings
    → Option MonitoringSource
    → Scope
    → ℕ
    → Observation
    → DeviceRows
    → Option Window
    → Option DeviceRows
unfolding write_rows
written c assignment scope threshold o rows none = none
written c assignment scope threshold o rows (some w) =
    some (write_rows c assignment scope threshold o rows w)

-- The identifier of the device, the device's status, the observation, the median height's percentage
-- and the instant of receipt.
unfoldable pub project_input :
    ProjectionSettings
    → Ident
    → DeviceStatus
    → Observation
    → Option ℕ
    → Time
    → DeviceRows
    → Option DeviceRows
unfolding assignment_of threshold_of scope_of reading_of written
project_input c device status o height now rows =
    let assignment = assignment_of c device in
    let threshold = threshold_of c assignment in
    let scope = scope_of o status assignment threshold in
    written c assignment scope threshold o rows
      (filter_input c rows.filter scope o height (reading_of c status o now))
