-- ===== src/Operations/Tests.antt =====
-- Runs of the model of services/edge_v2_operations.py at concrete inputs.
use scrap_monitoring_backend.Operations.{
  normal, ready, edge_state, Settings, MonitoringSource, FillObservation, Snapshot, Filter, Store,
  Reading, read_input, is_replay, valid_thresholds, previous_state, confirmation, next_state,
}
use scrap_monitoring_backend.Operations.Episode.{advance_episode, record_alert}
use scrap_monitoring_backend.Operations.Sweep.{
  write_row, log_change, raise_alert, apply_state, current_state, evaluate, process_reading,
  process_input, operate,
}
use scrap_monitoring_backend.Operations.Cooldown.{KeepsCooldown}
use scrap_monitoring_backend.Operations.Lifecycle.{resolved_in, created_in, Lifecycle}
use scrap_monitoring_backend.Operations.Levels.{assessed, RowAgrees, process_reading-RowAgrees}
use scrap_monitoring_backend.Operations.Starts.{StartsRow, Health, fill_conditions}
use scrap_monitoring_backend.Operations.Starts.Runs.{
  entry_of, Evaluation, record_all, record_all-start,
}
use scrap_monitoring_backend.Operations.Source.{SourceStore, process_source}
use scrap_monitoring_backend.Operations.Source.Sweeps.{
  process_source-KeepsCooldown, process_source-Lifecycle, process_source_again,
}
use scrap_monitoring_backend.Base.{
  ◌+◌, ◌≡◌, refl, true, false, none, some, [], ◌∷◌, arith, seconds, percent, length, Returns,
}
use scrap_monitoring_backend.Base.Dict.{lookup, insert}

abbrev settings : Settings
settings = record {
  height_fill_enabled = false;
  critical_confirm_seconds = 10;
  alert_cooldown_seconds = 600;
  assessment_ttl_seconds = 30;
}

abbrev source : MonitoringSource
source = record { pit_id = 1; device = 2 }

abbrev observation : FillObservation
observation = record {
  source = edge_state;
  message_id = 3;
  observation_id = 4;
  generated_at = seconds 20;
  observed_to = some (seconds 20);
  method_version = none;
  value_percent = some (percent 92);
  simulated = false;
}

abbrev snapshot : Snapshot
snapshot = record {
  fresh = true;
  fill_observation = some observation;
  assessment = none;
  load_percent = some (percent 92);
  filter_state = ready;
  warning_threshold = percent 80;
  collection_threshold = percent 90;
  scope = 5;
}

abbrev filter_row : Filter
filter_row = record { message_id = 3; threshold = percent 90; above_since = some (seconds 8) }

abbrev reading : Reading
reading = record { observation = observation; observed = seconds 20; fill = percent 92 }

abbrev empty : Store
empty = record { row = none; trackers = []; alerts = []; transitions = [] }

-- A confirmed reading at the threshold is critical, and is alerted with its episode.
first_alert :
    Returns
      (λ st. (length st.alerts ≡ 1) × (created_in 2 6 5 st.transitions ≡ true))
      (operate settings source snapshot (some filter_row) (seconds 21) 6 7 empty)
unfolding operate read_input process_input process_reading is_replay valid_thresholds evaluate
    apply_state previous_state current_state confirmation next_state write_row log_change
    advance_episode raise_alert record_alert created_in lookup insert
first_alert = (refl, refl)

abbrev health : Health
health = record {
  snapshot_id = 11;
  fresh = true;
  conditions = (20, 21) ∷ [];
  signature = λ k state. k + state;
  warning_condition = 22;
  critical_condition = 23;
  warning_state = 24;
  critical_state = 25;
  pre_alert_enabled = none;
}

abbrev nothing : SourceStore
nothing = record { operations = empty; starts = [] }

process_source-KeepsCooldown_example :
    Returns
      (λ st. KeepsCooldown settings st.operations)
      (process_source settings source snapshot
        (some filter_row)
        health
        none
        (seconds 21)
        6
        7
        nothing)
unfolding read_input
process_source-KeepsCooldown_example =
    process_source-KeepsCooldown settings source snapshot (some filter_row) health none (seconds 21)
      6 7 nothing tt (refl, refl, tt)

empty-Lifecycle : Lifecycle empty
unfolding lookup
empty-Lifecycle = record { in_order = tt; tracked = λ d. tt }

process_source-Lifecycle_example :
    Returns
      (λ st. Lifecycle st.operations)
      (process_source settings source snapshot
        (some filter_row)
        health
        none
        (seconds 21)
        6
        7
        nothing)
unfolding read_input resolved_in
process_source-Lifecycle_example =
    process_source-Lifecycle settings source snapshot (some filter_row) health none (seconds 21) 6 7
      nothing tt refl empty-Lifecycle

process_reading-RowAgrees_example :
    Returns
      (λ st. RowAgrees settings source snapshot (some filter_row) normal reading (assessed st.row))
      (process_reading settings source snapshot (some filter_row) reading (seconds 21) 6 7 empty)
unfolding is_replay previous_state valid_thresholds
process_reading-RowAgrees_example =
    process_reading-RowAgrees settings source snapshot (some filter_row) reading (seconds 21) 6 7
      empty refl refl

process_source_again_example :
    Returns
      (λ st.
        Returns
          (λ st'. st'.operations ≡ st.operations)
          (process_source settings source snapshot
            (some filter_row)
            health
            none
            (seconds 22)
            8
            9
            st))
      (process_source settings source snapshot
        (some filter_row)
        health
        none
        (seconds 21)
        6
        7
        nothing)
unfolding read_input
process_source_again_example =
    process_source_again settings source snapshot (some filter_row) health none health none
      (seconds 21) (seconds 22) 6 7 8 9 nothing tt

abbrev began : StartsRow
began = record {
  message_id = 11;
  generated_at = seconds 21;
  pit_id = 1;
  evaluated_at = seconds 21;
  entries = (20, record { signature = 41; started_at = seconds 5 }) ∷ [];
}

abbrev evaluation : Evaluation
evaluation = record { at = seconds 22; health = health; fill = none }

record_all-start_example :
    entry_of 20 (record_all 30 1 (evaluation ∷ []) (some began))
    ≡ some (record { signature = 41; started_at = seconds 5 })
unfolding fill_conditions lookup
record_all-start_example =
    record_all-start 30 1 (evaluation ∷ []) 20 41 (seconds 5) (seconds 21) (some began) refl
      (refl, refl) ((21, refl, refl), ground arith, ground arith, tt)
