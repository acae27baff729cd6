-- ===== src/Operations/Starts.antt =====
-- `record_starts` of services/active_health_service.py: since when each condition holds.
-- The conditions of `health_conditions`, the digest `signature` of the snapshot and the alert policy
-- are arguments; a condition's state and its two fill conditions are identifiers.
pub mod Runs
use scrap_monitoring_backend.Base.{
  ℕ, zero, suc, ◌+◌, ◌-◌, ◌*◌, ◌/◌, ◌%◌, ◌≤◌, ◌<◌, min, max, ◌≡◌, refl, sym, ap, ◌∙◌, ◌≢◌, ◌↔◌, ◌⊎◌,
  inl, inr, Bool, true, false, not, ◌&&◌, ◌||◌, Option, none, some, List, [], ◌∷◌, ◌++◌, map, arith,
  ltb, leb, ◌==◌, if◌then◌else◌, ltb→lt, lt→ltb, leb→le, le→leb, ==_iff, ==_refl, Bool-cases,
  Option-cases, is_some, opt_eq, opt_eq→eq, bool_eq, Time, seconds, Ident, percent, length, take,
  drop, keep_if, find_first, any_of, All, length-append, length-drop, length-take, All-append,
  All-drop, Result, ok, err, ◌>>=◌, ◌>>◌, raise_if, is_ok, Returns, Returns-map,
}
use scrap_monitoring_backend.Base.Dict.{
  Dict, lookup, insert, erase, lookup-insert, lookup-insert_self, lookup-erase, Distinct,
  erase_absent, insert_absent, insert-Distinct, erase-Distinct,
}
use scrap_monitoring_backend.Operations.{
  OperationState, normal, warning, critical, is_critical, same_state, FilterState, disabled,
  warming, ready, unavailable, is_ready, is_disabled, InputSource, edge_state, height_sections,
  Settings, MonitoringSource, FillObservation, FillEstimate, Assessment, Snapshot, Filter,
  OperationRow, EpisodeRow, AlertLog, Kind, fill_state_changed, alert_created, alert_resolved,
  Transition, Store, from_edge, chosen_assessment, Reading, Input, gap, broken, usable,
  read_observation, read_input, same_source, is_replay, recovery_margin, valid_thresholds,
  previous_state, filter_stamp, or_else, confirmation, next_state,
}

pub record StartEntry : Type 0 where
  pub signature : Ident
  pub started_at : Time

-- The row of kind `active_alert_starts` of a device.
pub record StartsRow : Type 0 where
  pub message_id : Ident
  pub generated_at : Time
  pub pit_id : Ident
  pub evaluated_at : Time
  pub entries : Dict StartEntry

-- What `record_starts` reads of the snapshot and the policy.
pub record Health : Type 0 where
  pub snapshot_id : Ident
  pub fresh : Bool
  pub conditions : Dict Ident
  pub signature : Ident → Ident → Ident
  pub warning_condition : Ident
  pub critical_condition : Ident
  pub warning_state : Ident
  pub critical_state : Ident
  pub pre_alert_enabled : Option Bool

abbrev pub is_none_or_true : Option Bool → Bool
is_none_or_true none = true
is_none_or_true (some b) = b

-- The conditions with the one of the fill state.
unfoldable pub fill_conditions : Health → Option OperationState → Dict Ident
fill_conditions h none = h.conditions
fill_conditions h (some normal) = h.conditions
fill_conditions h (some warning) =
    if h.fresh && is_none_or_true h.pre_alert_enabled
    then insert h.warning_condition h.warning_state h.conditions
    else h.conditions
fill_conditions h (some critical) =
    if h.fresh then insert h.critical_condition h.critical_state h.conditions else h.conditions

abbrev pub window_seconds : ℕ → ℕ
window_seconds ttl = min 30 ttl

-- The entries that the new ones go on from: none where the last sweep is too old, or of another pit.
unfoldable pub old_entries : ℕ → Ident → Time → Option StartsRow → Dict StartEntry
old_entries ttl pit now none = []
old_entries ttl pit now (some row) =
    if row.pit_id == pit
      && leb row.evaluated_at now
      && ltb now (row.evaluated_at + seconds (window_seconds ttl))
    then row.entries
    else []

abbrev pub start_of : Ident → Time → Option StartEntry → Time
start_of token now none = now
start_of token now (some e) = if e.signature == token then e.started_at else now

unfoldable pub new_entries :
    (Ident → Ident → Ident) → Time → Dict StartEntry → Dict Ident → Dict StartEntry
new_entries signature now old [] = []
new_entries signature now old ((identifier, state) ∷ conditions) =
    let token = signature identifier state in
    (
      identifier,
      record { signature = token; started_at = start_of token now (lookup identifier old) },
    )
    ∷ new_entries signature now old conditions

abbrev pub same_entry : StartEntry → Option StartEntry → Bool
same_entry a none = false
same_entry a (some b) = a.signature == b.signature && a.started_at == b.started_at

-- Python's `==` on the payloads, whose entries have no order.
unfoldable pub all_same : Dict StartEntry → Dict StartEntry → Bool
all_same [] e = true
all_same ((k, a) ∷ d) e = same_entry a (lookup k e) && all_same d e

unfoldable pub same_payload : StartsRow → Option StartsRow → Bool
unfolding all_same
same_payload new none = false
same_payload new (some row) =
    row.pit_id == new.pit_id
    && row.evaluated_at == new.evaluated_at
    && length row.entries == length new.entries
    && all_same new.entries row.entries

abbrev pub starts_row :
    ℕ → Ident → Health → Time → Option OperationState → Option StartsRow → StartsRow
starts_row ttl pit h now fill row = record {
  message_id = h.snapshot_id;
  generated_at = now;
  pit_id = pit;
  evaluated_at = now;
  entries = new_entries h.signature now (old_entries ttl pit now row) (fill_conditions h fill);
}

-- Whether the row changed, and the row.
unfoldable pub record_starts :
    ℕ → Ident → Health → Time → Option OperationState → Option StartsRow → Bool × Option StartsRow
unfolding old_entries fill_conditions new_entries same_payload
record_starts ttl pit h now fill row =
    let new = starts_row ttl pit h now fill row in
    if same_payload new row then (false, row) else (true, some new)
