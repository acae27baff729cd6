-- ===== src/Operations/Sweep.antt =====
-- `process_source` of services/edge_v2_operations.py, on the pit's own rows: all but `record_starts`,
-- which writes another row and is added in Source. `none` is a failed `assert`.
use scrap_monitoring_backend.Base.{
  ◌+◌, Bool, true, false, not, ◌&&◌, ◌||◌, Option, none, some, ◌∷◌, leb, if◌then◌else◌, is_some,
  Time, seconds, Ident,
}
use scrap_monitoring_backend.Operations.{
  OperationState, is_critical, same_state, is_ready, Settings, MonitoringSource, Snapshot, Filter,
  OperationRow, AlertLog, fill_state_changed, Store, Reading, Input, gap, broken, usable,
  read_input, is_replay, valid_thresholds, previous_state, confirmation, next_state,
}
use scrap_monitoring_backend.Operations.Episode.{
  invalidate_episode, add_transition, advance_episode, record_alert,
}

-- `row.critical_since = None`
unfoldable pub clear_pending : Store → Bool × Store
clear_pending st = elim st.row [
  | none ↦ (false, st)
  | some row ↦
      if is_some row.critical_since
      then (true, record st { row = some (record row { critical_since = none }) })
      else (false, st)
]

-- A sweep without a usable input.
unfoldable pub lapse : MonitoringSource → Store → Store
lapse src st =
    let (dropped, st₁) = invalidate_episode src st in
    let (cleared, st₂) = clear_pending st₁ in if dropped || cleared then st₂ else st

abbrev pub alerted_at : Option OperationRow → Option Time
alerted_at none = none
alerted_at (some row) = row.last_alert_at

abbrev pub alerted_id : Option OperationRow → Option Ident
alerted_id none = none
alerted_id (some row) = row.last_alert_id

unfoldable pub write_row : MonitoringSource → Reading → OperationState → Option Time → Store → Store
write_row src r current pending st = record st {
  row = some (record {
    device = src.device;
    state = current;
    message_id = r.observation.message_id;
    generated_at = r.observation.generated_at;
    observed_at = r.observed;
    critical_since = pending;
    last_alert_at = alerted_at st.row;
    last_alert_id = alerted_id st.row;
  });
}

unfoldable pub log_change :
    MonitoringSource → Snapshot → Reading → OperationState → OperationState → Store → Store
log_change src snap r previous current st =
    if is_ready snap.filter_state && not (same_state previous current)
    then add_transition src.device r.observed (fill_state_changed previous current) st
    else st

-- Has the cooldown since the last alert passed?
abbrev pub is_due : Settings → Time → Option Time → Bool
is_due c now none = true
is_due c now (some last) = leb (last + seconds c.alert_cooldown_seconds) now

abbrev pub alert_log : Ident → Reading → Time → AlertLog
alert_log alert_id r now = record {
  id = alert_id;
  triggered_at = now;
  fill_ratio_percent = r.fill;
  observation_id = r.observation.observation_id;
  message_id = r.observation.message_id;
  observed_at = r.observed;
}

abbrev set_last_alert : Ident → Time → OperationRow → OperationRow
set_last_alert alert_id now row = record row {
  last_alert_at = some now;
  last_alert_id = some alert_id;
}

abbrev pub log_alert : Ident → Reading → Time → Store → Store
log_alert alert_id r now st = record st {
  alerts = alert_log alert_id r now ∷ st.alerts;
  row = elim st.row [ none ↦ none | some row ↦ some (set_last_alert alert_id now row) ];
}

-- The alert of a critical pit whose cooldown has passed; `assert episode is not None`.
unfoldable pub raise_alert :
    Settings
    → MonitoringSource
    → Ident
    → Reading
    → OperationState
    → Time
    → Ident
    → Option Ident
    → Store
    → Option Store
raise_alert c src scope r current now alert_id episode st =
    if is_critical current && is_due c now (alerted_at st.row)
    then (elim episode [
      | none ↦ none
      | some e ↦ some (record_alert src scope e alert_id r now (log_alert alert_id r now st))
    ])
    else some st

-- The writes of a sweep whose states and pending instant are known.
unfoldable pub apply_state :
    Settings
    → MonitoringSource
    → Snapshot
    → Reading
    → OperationState
    → OperationState
    → Option Time
    → Time
    → Ident
    → Ident
    → Store
    → Option Store
apply_state c src snap r previous current pending now fresh_id alert_id st =
    let st₁ = log_change src snap r previous current (write_row src r current pending st) in
    let (episode, st₂) = advance_episode c src snap.scope r previous current now fresh_id st₁ in
    raise_alert c src snap.scope r current now alert_id episode st₂

-- The state that the sweep gives the pit.
unfoldable pub current_state :
    Settings → Snapshot → Option Filter → OperationState → Reading → OperationState
unfolding confirmation next_state
current_state c snap filter previous r =
    next_state previous r.fill snap.warning_threshold snap.collection_threshold
      (confirmation c snap filter previous r).1

-- The sweep from the thresholds on.
unfoldable pub evaluate :
    Settings
    → MonitoringSource
    → Snapshot
    → Option Filter
    → Reading
    → Time
    → Ident
    → Ident
    → Store
    → Option Store
evaluate c src snap filter r now fresh_id alert_id st =
    let previous = previous_state src st.row in
    apply_state c src snap r previous (current_state c snap filter previous r)
      (confirmation c snap filter previous r).0 now fresh_id alert_id st

-- A usable input: a replay and bad thresholds do no more than drop the episode.
unfoldable pub process_reading :
    Settings
    → MonitoringSource
    → Snapshot
    → Option Filter
    → Reading
    → Time
    → Ident
    → Ident
    → Store
    → Option Store
process_reading c src snap filter r now fresh_id alert_id st =
    if is_replay src r st.row
    then some st
    else (if valid_thresholds snap.warning_threshold snap.collection_threshold
        then evaluate c src snap filter r now fresh_id alert_id st
        else some (invalidate_episode src st).1)

unfoldable pub process_input :
    Settings
    → MonitoringSource
    → Snapshot
    → Option Filter
    → Input
    → Time
    → Ident
    → Ident
    → Store
    → Option Store
process_input c src snap filter gap now fresh_id alert_id st = some (lapse src st)
process_input c src snap filter broken now fresh_id alert_id st = none
process_input c src snap filter (usable r) now fresh_id alert_id st =
    process_reading c src snap filter r now fresh_id alert_id st

unfoldable pub operate :
    Settings
    → MonitoringSource
    → Snapshot
    → Option Filter
    → Time
    → Ident
    → Ident
    → Store
    → Option Store
operate c src snap filter now fresh_id alert_id st =
    process_input c src snap filter (read_input c snap) now fresh_id alert_id st
