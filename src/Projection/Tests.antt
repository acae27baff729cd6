-- ===== src/Projection/Tests.antt =====
-- Runs of the projection at concrete inputs.
use scrap_monitoring_backend.Base.{
  ℕ, ◌+◌, ◌*◌, ◌≡◌, refl, inl, inr, Bool, true, false, none, some, [], ◌∷◌, arith, Time, seconds,
  Ident, percent, Returns,
}
use scrap_monitoring_backend.Base.Dict.{lookup, insert}
use scrap_monitoring_backend.Operations.{edge_state, FilterState}
use scrap_monitoring_backend.Projection.{
  Observation, healthy, available, StatusReport, DeviceStatus, ProjectionSettings, DeviceRows,
  FilterPayload, SensorStatus,
}
use scrap_monitoring_backend.ObservationWindow.{
  observation_slots, slots_from, current_of, enumerate_from, renewed, fill_slots, slot_of,
}
use scrap_monitoring_backend.Projection.{
  filter_input, added_sample, filter_slots, filter_chosen, pick, earlier_samples, kept_samples,
  filtered_window, above_since,
}
use scrap_monitoring_backend.CompactHistory.Slots.{HoldMinutes}
use scrap_monitoring_backend.CompactHistory.Rows.{Recorded, project_input-HoldMinutes}
use scrap_monitoring_backend.Projection.Median.{twice_median}
use scrap_monitoring_backend.Projection.Minutes.{valid_values, sum_of, minimum_of, maximum_of}
use scrap_monitoring_backend.Projection.Input.{project_input}
use scrap_monitoring_backend.Projection.Windows.{FilterHolds}
use scrap_monitoring_backend.Projection.Invariant.{project_input-FilterHolds}
use scrap_monitoring_backend.Projection.Timer.{Trace-TimerHolds}
use scrap_monitoring_backend.Projection.Traces.{Trace, TimerHolds}
use scrap_monitoring_backend.Projection.Status.{StatusSettings, StatusRows, synced, project_status}
use scrap_monitoring_backend.Projection.Device.{message_of, device_status}
use scrap_monitoring_backend.Projection.Compaction.{report_of, device_status-compact}
use scrap_monitoring_backend.Projection.Posts.{Posts}

abbrev settings : ProjectionSettings
settings = record {
  ttl_seconds = 10;
  window_seconds = 3;
  default_threshold = percent 80;
  monitoring_sources = record { pit_id = 4; device = 1 } ∷ [];
  pits = (4, percent 85) ∷ [];
}

abbrev sensor : SensorStatus
sensor = record { fresh = true; last_scan_at = some (seconds 100) }

abbrev report : Ident → ℕ → Time → StatusReport
report instance n at = record {
  message_id = 100 * instance + n;
  generated_at = at;
  config_revision = 7;
  orchestrator_instance_id = instance;
  sequence = n;
  overall_state = healthy;
  clock_state = synced;
  sensors = sensor ∷ sensor ∷ [];
}

abbrev status : DeviceStatus
status = record {
  reporting = true;
  last_received_at = some (seconds 100);
  effective_state = healthy;
  snapshot = some (report 9 1 (seconds 100));
}

abbrev observation : Time → ℕ → Observation
observation at value = record {
  source = edge_state;
  config_revision = 7;
  message_id = at;
  observation_id = at;
  generated_at = at;
  observed_to = some at;
  rule_version = none;
  method_version = some 2;
  value_percent = some value;
  data_state = available;
  reason_codes = [];
  scope_token = none;
  simulated = false;
}

abbrev new_rows : DeviceRows
new_rows = record { filter = none; minutes = []; transitions = [] }

-- What the call returns, and the filter row of it.
abbrev rows_after : Observation → DeviceRows → DeviceRows
rows_after o rows = elim (project_input settings 1 status o none (seconds 103) rows) [
  | none ↦ rows
  | some r ↦ r
]

abbrev one_sample : FilterPayload
one_sample = record {
  scope = [];
  samples = record { at = seconds 100; second = 100; value = 1 } ∷ [];
  slot_anchor_at = none;
  state = FilterState.warming;
  message_id = 0;
  value = none;
  observed_at = some (seconds 100);
  above_since = none;
  threshold = 0;
  input_valid = true;
  input_source = edge_state;
  method_version = none;
}

abbrev row_of : DeviceRows → FilterPayload
row_of rows = elim rows.filter [ none ↦ one_sample | some p ↦ p ]

abbrev rows₁ : DeviceRows
rows₁ = rows_after (observation (seconds 100) (percent 90)) new_rows

abbrev rows₂ : DeviceRows
rows₂ = rows_after (observation (seconds 101) (percent 90)) rows₁

abbrev rows₃ : DeviceRows
rows₃ = rows_after (observation (seconds 102) (percent 90)) rows₂

-- Three observations fill the window, and the timer starts with the third.
timer_starts : (row_of rows₃).above_since ≡ some (seconds 102)
unfolding project_input filter_input added_sample filter_slots filter_chosen pick observation_slots
    slots_from current_of enumerate_from renewed fill_slots slot_of earlier_samples kept_samples
    filtered_window twice_median insert lookup valid_values sum_of minimum_of maximum_of above_since
timer_starts = refl

project_input-FilterHolds_example :
    Returns
      (λ r. FilterHolds settings r.filter)
      (project_input settings 1 status
        (observation (seconds 101) (percent 90))
        none
        (seconds 103)
        (record new_rows { filter = some one_sample }))
project_input-FilterHolds_example =
    project_input-FilterHolds settings 1 status (observation (seconds 101) (percent 90)) none
      (seconds 103) (record new_rows { filter = some one_sample }) (omega arith)
      (record { few = omega arith; ascends = omega arith; past = omega arith })

Trace-TimerHolds_example : TimerHolds (row_of rows₃ ∷ row_of rows₂ ∷ row_of rows₁ ∷ [])
unfolding project_input filter_input added_sample filter_slots filter_chosen pick observation_slots
    slots_from current_of enumerate_from renewed fill_slots slot_of earlier_samples kept_samples
    filtered_window twice_median insert lookup valid_values sum_of minimum_of maximum_of above_since
Trace-TimerHolds_example = Trace-TimerHolds {window = 3} {device = 1} {rows = rows₃} (omega arith) (
    Trace.next (row_of rows₃) settings status (observation (seconds 102) (percent 90)) none
      (seconds 103)
      (Trace.next (row_of rows₂) settings status (observation (seconds 101) (percent 90)) none
        (seconds 103)
        (Trace.next (row_of rows₁) settings status (observation (seconds 100) (percent 90)) none
          (seconds 103) (Trace.start new_rows refl) refl refl refl)
        refl refl refl)
      refl refl refl)

-- The second observation comes into the minute row that the first one left.
project_input-HoldMinutes_example :
    HoldMinutes rows₂.minutes × Recorded (observation (seconds 101) (percent 90)) rows₁ rows₂
unfolding project_input filter_input added_sample filter_slots filter_chosen pick observation_slots
    slots_from current_of enumerate_from renewed fill_slots slot_of earlier_samples kept_samples
    filtered_window twice_median insert lookup valid_values sum_of minimum_of maximum_of above_since
project_input-HoldMinutes_example =
    project_input-HoldMinutes settings 1 status (observation (seconds 101) (percent 90)) none
      (seconds 103) rows₁ rows₂
      (project_input-HoldMinutes settings 1 status (observation (seconds 100) (percent 90)) none
        (seconds 103) new_rows rows₁ (λ bucket m e. absurd (cc)) refl).0
      refl

abbrev status_settings : StatusSettings
status_settings = record {
  device = 1;
  ttl_seconds = 10;
  monitoring_sources = [];
  height_references = [];
  height_fill_enabled = false;
  height_median_enabled = false;
}

abbrev no_status : StatusRows
no_status = record { latest = none; filter = none; height_window = none; changes = [] }

-- Two reports of an instance, one of the next instance, and a late one of the first.
abbrev first : StatusReport
first = report 9 1 (seconds 10)

abbrev second : StatusReport
second = report 9 2 (seconds 20)

abbrev third : StatusReport
third = report 8 1 (seconds 30)

abbrev late : StatusReport
late = report 9 3 (seconds 25)

device_status-compact_example :
    let projected = project_status status_settings late (seconds 41) (
      project_status status_settings third (seconds 31) (
        project_status status_settings second
          (seconds 21)
          (project_status status_settings first (seconds 11) no_status))) in
    let rows = λ (compact : Bool).
      message_of compact late (seconds 41)
      ∷ message_of compact third (seconds 31)
      ∷ message_of compact second (seconds 21)
      ∷ message_of compact first (seconds 11)
      ∷ [] in
    (device_status (rows true) projected.latest (seconds 50)
      ≡ device_status (rows false) none (seconds 50))
    × ((device_status (rows false) none (seconds 50)).snapshot ≡ report_of projected.latest)
unfolding project_status message_of
device_status-compact_example = device_status-compact {c = status_settings} (seconds 50) (
    Posts.posted late (seconds 41)
      (Posts.posted third (seconds 31)
        (Posts.posted second (seconds 21)
          (Posts.posted first (seconds 11) (Posts.quiet no_status refl) tt) (refl, refl, inl refl))
        (refl, refl, inr (inr (omega arith, refl))))
      (refl, refl, inr (inl (omega arith))))
