-- ===== src/CollectionDetection/Tests.antt =====
-- A collection that is detected and settles, and the detector's theorems at concrete inputs.
use scrap_monitoring_backend.Base.{
  ℕ, ◌+◌, ◌*◌, ◌≤◌, ◌≡◌, refl, true, false, none, some, List, [], ◌∷◌, arith, Time, seconds, Ident,
  All, Returns,
}
use scrap_monitoring_backend.CollectionDetection.{
  candidate, CollectionTracker, new_tracker, DetectionSettings, detected, settled, invalidate,
}
use scrap_monitoring_backend.CollectionDetection.Advance.{advance}
use scrap_monitoring_backend.CollectionDetection.Invariant.{WellFormed, advance-WellFormed}
use scrap_monitoring_backend.CollectionDetection.Events.{
  Input, observe, outage, run, Alternates, run-Alternates,
}
use scrap_monitoring_backend.CollectionDetection.Timing.{SpacedFrom}
use scrap_monitoring_backend.CollectionDetection.Delays.{run-SpacedFrom, run_after_outage}
use scrap_monitoring_backend.CollectionDetection.Source.{
  height_sections, CollectionInput, DetectionStore, current_tracker, process_collection_source,
}
use scrap_monitoring_backend.CollectionDetection.Source.Sweeps.{
  RowIsValid, HoldsInput, process_collection_source-replay,
}

-- A drop of 1 m, a band of 20 cm, and waits of 2 s to confirm, 2 s for a baseline, 3 s to settle.
abbrev settings : DetectionSettings
settings = record {
  detection_enabled = true;
  drop_meters = some 1_000;
  stable_band_meters = 200;
  confirm_seconds = 2;
  baseline_seconds = 2;
  settle_seconds = 3;
  simulation_settle_seconds = 1;
}

abbrev name_of : Ident → Time → Ident
name_of scope observed = scope + observed

abbrev fresh_tracker : CollectionTracker
fresh_tracker = new_tracker 1 7 0 false

-- A reading in centimetres at a second.
abbrev reading : ℕ → ℕ → Input
reading cm at = observe (cm * 1_000) (seconds at)

-- 300 cm, then 150 cm from second 3 on, with an outage while the pit is collected.
abbrev emptied : List Input
emptied =
    reading 300 0
    ∷ reading 300 1
    ∷ reading 300 2
    ∷ reading 150 3
    ∷ reading 150 4
    ∷ reading 150 5
    ∷ outage
    ∷ reading 150 7
    ∷ reading 150 8
    ∷ reading 150 9
    ∷ reading 150 10
    ∷ []

emptied_events :
    Returns
      (λ o.
        o.1
        ≡ (seconds 5, detected 5_000_007 300_000 150_000 150_000)
          ∷ (seconds 10, settled (some 5_000_007) 150_000)
          ∷ [])
      (run name_of settings 3 emptied fresh_tracker)
unfolding run advance invalidate
emptied_events = refl

fresh-WellFormed : WellFormed fresh_tracker
fresh-WellFormed = ground arith

advance-WellFormed_example :
    Returns
      (λ o. WellFormed o.0 × (o.0.observed_at ≡ seconds 1))
      (advance name_of settings fresh_tracker 300_000 (seconds 1) 3)
    × WellFormed (invalidate fresh_tracker)
    × WellFormed (new_tracker 1 7 (seconds 1) false)
advance-WellFormed_example =
    advance-WellFormed name_of settings fresh_tracker 300_000 (seconds 1) 3 1_000 fresh-WellFormed
      (omega arith) refl

-- The fall to 150 cm, one second old.
abbrev fallen_tracker : CollectionTracker
fallen_tracker = record fresh_tracker {
  phase = candidate;
  baseline_cm = some 300_000;
  candidate_since = some (seconds 3);
  stable_since = some (seconds 3);
  stable_min_cm = some 150_000;
  stable_max_cm = some 150_000;
  current_cm = some 150_000;
  observed_at = seconds 4;
  input_valid = true;
}

detects :
    Returns
      (λ o. o.1 ≡ detected 5_000_007 300_000 150_000 150_000 ∷ [])
      (advance name_of settings fallen_tracker 150_000 (seconds 5) 3)
unfolding advance
detects = refl

run-Alternates_example :
    Returns (λ o. Alternates none o.1) (run name_of settings 3 emptied fresh_tracker)
run-Alternates_example =
    run-Alternates name_of settings 3 1_000 emptied fresh_tracker fresh-WellFormed (omega arith)
      refl

run-SpacedFrom_example :
    Returns (λ o. SpacedFrom settings 3 0 o.1) (run name_of settings 3 emptied fresh_tracker)
run-SpacedFrom_example =
    run-SpacedFrom name_of settings 3 1_000 0 emptied fresh_tracker fresh-WellFormed (omega arith)
      refl (omega arith) tt

run_after_outage_example :
    Returns
      (λ o. All (λ e. 0 + seconds (2 + 2) ≤ e.0) o.1)
      (run name_of settings 3 (outage ∷ emptied) fresh_tracker)
run_after_outage_example =
    run_after_outage name_of settings 3 1_000 emptied fresh_tracker fresh-WellFormed (omega arith)
      refl (λ e. cc)

abbrev good_input : CollectionInput
good_input = record {
  method = some 3;
  scope_digest = 7;
  depth = some 400_000;
  height_cm = some 300_000;
  fresh = true;
  filter_ready = true;
  load_percent = some 75_000;
  fill_observation = some (record {
    message_id = 21;
    generated_at = seconds 2;
    observed_to = some (seconds 1);
    source = height_sections;
    simulated = false;
  });
}

abbrev start_store : DetectionStore
start_store = record {
  row = some (record { message_id = 20; generated_at = 0; payload = fresh_tracker });
  transitions = [];
}

good_input_is_stored :
    Returns
      (λ db.
        HoldsInput 1
          (record {
            scope = 7;
            message_id = 21;
            generated_at = seconds 2;
            observed = seconds 1;
            height = 300_000;
            simulated = false;
          })
          db.row)
      (process_collection_source name_of settings 1 false good_input start_store)
unfolding process_collection_source advance current_tracker
good_input_is_stored = (refl, refl, refl, refl, refl)

process_collection_source-replay_example :
    Returns
      (λ db.
        RowIsValid db.row
        × (process_collection_source name_of settings 1 false good_input db ≡ some db))
      (process_collection_source name_of settings 1 false good_input start_store)
process_collection_source-replay_example =
    process_collection_source-replay name_of settings 1 false good_input start_store
      fresh-WellFormed
