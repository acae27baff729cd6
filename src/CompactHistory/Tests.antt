-- ===== src/CompactHistory/Tests.antt =====
-- Runs of the minute summaries at concrete inputs.
use scrap_monitoring_backend.Base.{◌≡◌, refl, ◌≢◌, none, some, [], ◌∷◌, arith, ◌==◌, Time, seconds}
use scrap_monitoring_backend.Base.Dict.{lookup}
use scrap_monitoring_backend.Operations.{edge_state}
use scrap_monitoring_backend.Projection.{Minute, SlotMetadata, available}
use scrap_monitoring_backend.CompactHistory.{empty_group}
use scrap_monitoring_backend.CompactHistory.Summary.{build_minute_summary, restore_summary}
use scrap_monitoring_backend.CompactHistory.Slots.{IsMinute}
use scrap_monitoring_backend.CompactHistory.Restore.{StandsFor, restore_summary-StandsFor}

abbrev slot : Time → SlotMetadata
slot at = record {
  generated_at = at;
  observed_at = some at;
  assessment_id = none;
  observation_id = 1;
  data_state = available;
  reason_codes = [];
}

-- Two seconds of a minute, one without a value.
abbrev minute : Minute
minute = record {
  generated_at = 62_500_000;
  last = record {
    metadata = slot 62_500_000;
    input_source = edge_state;
    method_version = some 3;
    value_percent = some 80;
  };
  values = (61, none) ∷ (62, some 80) ∷ [];
  metadata = (62, slot 62_500_000) ∷ [];
  sources = (61, edge_state) ∷ (62, edge_state) ∷ [];
  methods = (61, some 3) ∷ (62, some 3) ∷ [];
  valid_count = 1;
  invalid_count = 1;
  sum = 80;
  minimum = some 80;
  maximum = some 80;
}

minute-IsMinute : IsMinute (seconds 60) minute
unfolding lookup
minute-IsMinute = record { once = (refl, (refl, tt)); inside = omega arith }

restore_summary-StandsFor_example :
    let stored = some (build_minute_summary (λ x. x == 3) (seconds 60) 62_500_000 minute) in
    StandsFor
      (λ x. x == 3)
      minute
      empty_group
      minute.values
      (restore_summary stored (seconds 60) 62_500_000)
    × (seconds 63 ≢ 62_500_000 → restore_summary stored (seconds 60) (seconds 63) ≡ none)
restore_summary-StandsFor_example =
    restore_summary-StandsFor (λ x. x == 3) (seconds 60) 62_500_000 minute empty_group (seconds 63)
      (omega arith) minute-IsMinute
