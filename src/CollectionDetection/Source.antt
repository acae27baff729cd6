-- ===== src/CollectionDetection/Source.antt =====
-- `process_collection_source` of services/collection_detection_service.py: one sweep of the worker
-- over one source. What `collection_input` reads of the database (the snapshot, the depth, the
-- height and the height method) is the argument; `none` is a failed `assert`.
pub mod Sweeps
use scrap_monitoring_backend.Base.{
  ℕ, zero, suc, ◌+◌, ◌-◌, ◌*◌, ◌/◌, ◌%◌, ◌≤◌, ◌<◌, min, max, ◌≡◌, refl, sym, ap, ◌∙◌, ◌≢◌, ◌↔◌, ◌⊎◌,
  inl, inr, Bool, true, false, not, ◌&&◌, ◌||◌, Option, none, some, List, [], ◌∷◌, ◌++◌, map, arith,
  ltb, leb, ◌==◌, if◌then◌else◌, ltb→lt, lt→ltb, leb→le, le→leb, ==_iff, ==_refl, Bool-cases,
  Option-cases, is_some, opt_eq, opt_eq→eq, bool_eq, Time, seconds, Ident, percent, length, take,
  drop, keep_if, find_first, any_of, All, length-append, length-drop, length-take, All-append,
  All-drop, Result, ok, err, ◌>>=◌, ◌>>◌, raise_if, is_ok, Returns, Returns-map,
}
use scrap_monitoring_backend.CollectionDetection.{
  Phase, baselining, idle, candidate, collecting, CollectionTracker, new_tracker, DetectionSettings,
  band_cm, Event, detected, settled, is_collecting, cleared, invalidate, elapsed, Reference,
  reference_now, with_reference, without_reference, sustained_reference, Stable, stable_height,
  stable_now,
}
use scrap_monitoring_backend.CollectionDetection.Advance.{
  Outcome, baselining_step, Quiet, quiet_start, quiet_now, collecting_step, raised_baseline,
  observe_stable, prepared, confirm, watching_step, by_phase, advance,
}

pub data ObservationSource : Type 0 where
  edge_state height_sections : ObservationSource

-- The fields of `FillObservation` (schemas/fill_observation.py) that the sweep reads.
pub record Observation : Type 0 where
  pub message_id : Ident
  pub generated_at : Time
  pub observed_to : Option Time
  pub source : ObservationSource
  pub simulated : Bool

-- What `collection_input` returns, with the method and the digest that the scope is made of.
pub record CollectionInput : Type 0 where
  pub method : Option Ident
  pub scope_digest : Ident
  pub depth : Option ℕ
  pub height_cm : Option ℕ
  pub fresh : Bool
  pub filter_ready : Bool
  pub load_percent : Option ℕ
  pub fill_observation : Option Observation

-- `collection_scope`
unfoldable pub collection_scope : DetectionSettings → CollectionInput → Option Ident
collection_scope c input = elim input.method [
  | none ↦ none
  | some _ ↦ elim c.drop_meters [ none ↦ none | some _ ↦ some input.scope_digest ]
]

-- An input that passes every test of `valid`.
pub record ValidInput : Type 0 where
  pub scope : Ident
  pub message_id : Ident
  pub generated_at : Time
  pub observed : Time
  pub height : ℕ
  pub simulated : Bool

abbrev is_height : ObservationSource → Bool
is_height height_sections = true
is_height edge_state = false

unfoldable pub valid_input : DetectionSettings → Bool → CollectionInput → Option ValidInput
unfolding collection_scope
valid_input c simulation input = elim (collection_scope c input) [
  | none ↦ none
  | some scope ↦ elim input.fill_observation [
    | none ↦ none
    | some o ↦ elim o.observed_to [
      | none ↦ none
      | some observed ↦ elim input.height_cm [
        | none ↦ none
        | some height ↦
            if is_some input.depth
              && input.fresh
              && input.filter_ready
              && is_some input.load_percent
              && is_height o.source
              && bool_eq o.simulated simulation
            then some (record {
              scope = scope;
              message_id = o.message_id;
              generated_at = o.generated_at;
              observed = observed;
              height = height;
              simulated = o.simulated;
            })
            else none
      ]
    ]
  ]
]

-- The tracker's row of `edge_v2_latest`, and the transitions that the sweeps have added.
pub record TrackerRow : Type 0 where
  pub message_id : Ident
  pub generated_at : Time
  pub payload : CollectionTracker

pub record Transition : Type 0 where
  pub occurred_at : Time
  pub event : Event
  pub pit_id : Ident
  pub scope_token : Ident
  pub simulated : Bool

pub record DetectionStore : Type 0 where
  pub row : Option TrackerRow
  pub transitions : List Transition

-- `profile == "SIMULATION"` chooses the settling time.
abbrev pub collection_settle_seconds : DetectionSettings → Bool → ℕ
collection_settle_seconds c simulation =
    if simulation then c.simulation_settle_seconds else c.settle_seconds

abbrev max_gap_seconds : ℕ
max_gap_seconds = 3

-- The stored tracker, unless it is of another pit or scope.
unfoldable pub current_tracker : Ident → Option Ident → Option TrackerRow → Option CollectionTracker
current_tracker pit scope none = none
current_tracker pit scope (some row) =
    if row.payload.pit_id == pit && opt_eq (some row.payload.scope_token) scope
    then some row.payload
    else none

-- The row after a sweep whose input is not valid.
unfoldable pub invalidate_row : Option TrackerRow → Option CollectionTracker → Option TrackerRow
invalidate_row none state = none
invalidate_row (some row) none = some row
invalidate_row (some row) (some s) =
    if s.input_valid then some (record row { payload = invalidate s }) else some row

-- An observation that is not newer than the tracker's, or that was not generated later.
unfoldable pub is_replay : ValidInput → Option TrackerRow → Option CollectionTracker → Bool
is_replay v none state = false
is_replay v (some row) none = false
is_replay v (some row) (some s) =
    leb v.observed s.observed_at || leb v.generated_at row.generated_at

-- The tracker that the observation is given to: a new one, or the old one, which a gap resets.
unfoldable pub opened : Ident → ValidInput → Option CollectionTracker → CollectionTracker
opened pit v none = new_tracker pit v.scope v.observed v.simulated
opened pit v (some s) =
    if ltb (s.observed_at + seconds max_gap_seconds) v.observed then invalidate s else s

unfoldable pub stored : Ident → ValidInput → DetectionStore → Option Outcome → Option DetectionStore
stored pit v db none = none
stored pit v db (some (s, es)) = some (record {
  row = some (record { message_id = v.message_id; generated_at = v.generated_at; payload = s });
  transitions =
      db.transitions
      ++ map
          (λ e. record {
            occurred_at = v.observed;
            event = e;
            pit_id = pit;
            scope_token = v.scope;
            simulated = s.simulated;
          })
          es;
})

module _ (detection_id : Ident → Time → Ident) (c : DetectionSettings) where
  unfoldable pub process_valid : Ident → Bool → ValidInput → DetectionStore → Option DetectionStore
  unfolding is_replay opened stored
  process_valid pit simulation v db =
      let state = current_tracker pit (some v.scope) db.row in
      if is_replay v db.row state
      then some db
      else stored pit v db (
          advance detection_id c (opened pit v state) v.height v.observed
            (collection_settle_seconds c simulation))

  -- `if not valid`, and the rest.
  unfoldable pub sweep_with :
      Ident → Bool → CollectionInput → Option ValidInput → DetectionStore → Option DetectionStore
  unfolding process_valid invalidate_row
  sweep_with pit simulation input none db = some (record db {
    row = invalidate_row db.row (current_tracker pit (collection_scope c input) db.row);
  })
  sweep_with pit simulation input (some v) db = process_valid pit simulation v db

  unfoldable pub process_collection_source :
      Ident → Bool → CollectionInput → DetectionStore → Option DetectionStore
  unfolding sweep_with valid_input
  process_collection_source pit simulation input db =
      if c.detection_enabled
      then sweep_with pit simulation input (valid_input c simulation input) db
      else some db
