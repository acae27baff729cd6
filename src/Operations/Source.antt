-- ===== src/Operations/Source.antt =====
-- The whole of `process_source` of services/edge_v2_operations.py: `operate`, with `record_starts`
-- in the same transaction.
pub mod Sweeps
use scrap_monitoring_backend.Base.{
  ℕ, zero, suc, ◌+◌, ◌-◌, ◌*◌, ◌/◌, ◌%◌, ◌≤◌, ◌<◌, min, max, ◌≡◌, refl, sym, ap, ◌∙◌, ◌≢◌, ◌↔◌, ◌⊎◌,
  inl, inr, Bool, true, false, not, ◌&&◌, ◌||◌, Option, none, some, List, [], ◌∷◌, ◌++◌, map, arith,
  ltb, leb, ◌==◌, if◌then◌else◌, ltb→lt, lt→ltb, leb→le, le→leb, ==_iff, ==_refl, Bool-cases,
  Option-cases, is_some, opt_eq, opt_eq→eq, bool_eq, Time, seconds, Ident, percent, length, take,
  drop, keep_if, find_first, any_of, All, length-append, length-drop, length-take, All-append,
  All-drop, Result, ok, err, ◌>>=◌, ◌>>◌, raise_if, is_ok, Returns, Returns-map,
}
use scrap_monitoring_backend.Base.Dict.{
  Dict, lookup, insert, erase, lookup-insert, lookup-insert_self, lookup-erase, Distinct,
  erase_absent, insert_absent, insert-Distinct, erase-Distinct,
}
use scrap_monitoring_backend.Operations.{
  OperationState, Settings, MonitoringSource, Snapshot, Filter, OperationRow, Store, Input, gap,
  broken, usable, read_input, is_replay, valid_thresholds, previous_state,
}
use scrap_monitoring_backend.Operations.Sweep.{current_state, operate}
use scrap_monitoring_backend.Operations.Starts.{StartsRow, Health, record_starts}

pub record SourceStore : Type 0 where
  pub operations : Store
  pub starts : Dict StartsRow

-- The fill state that `record_starts` is given; `effective` is the one of the snapshot.
unfoldable pub started_state :
    Settings
    → MonitoringSource
    → Snapshot
    → Option Filter
    → Option OperationState
    → Input
    → Option OperationRow
    → Option OperationState
started_state c src snap filter effective gap row = none
started_state c src snap filter effective broken row = none
started_state c src snap filter effective (usable r) row =
    if is_replay src r row
    then effective
    else (if valid_thresholds snap.warning_threshold snap.collection_threshold
        then some (current_state c snap filter (previous_state src row) r)
        else none)

abbrev pub put_row : Ident → Option StartsRow → Dict StartsRow → Dict StartsRow
put_row device none starts = starts
put_row device (some row) starts = insert device row starts

abbrev pub with_operations : Dict StartsRow → Option Store → Option SourceStore
with_operations starts none = none
with_operations starts (some st) = some (record { operations = st; starts = starts })

unfoldable pub process_source :
    Settings
    → MonitoringSource
    → Snapshot
    → Option Filter
    → Health
    → Option OperationState
    → Time
    → Ident
    → Ident
    → SourceStore
    → Option SourceStore
process_source c src snap filter health effective now fresh_id alert_id st =
    let fill = started_state c src snap filter effective (read_input c snap) st.operations.row in
    let row =
      (record_starts c.assessment_ttl_seconds src.pit_id health now fill
        (lookup src.device st.starts)).1 in
    with_operations (put_row src.device row st.starts)
      (operate c src snap filter now fresh_id alert_id st.operations)

with_operations-Returns :
    (P : Store → Type 0) (starts : Dict StartsRow) (o : Option Store)
    → Returns P o
    → Returns (λ st'. P st'.operations) (with_operations starts o)
with_operations-Returns P starts none h = h
with_operations-Returns P starts (some st) h = h

-- What `operate` gives, `process_source` gives.
pub process_source-Returns :
    (P : Store → Type 0) (c : Settings) (src : MonitoringSource) (snap : Snapshot)
    (filter : Option Filter) (health : Health) (effective : Option OperationState) (now : Time)
    (fresh_id alert_id : Ident) (st : SourceStore)
    → Returns P (operate c src snap filter now fresh_id alert_id st.operations)
    → Returns
        (λ st'. P st'.operations)
        (process_source c src snap filter health effective now fresh_id alert_id st)
unfolding process_source
process_source-Returns P c src snap filter health effective now fresh_id alert_id st h =
    with_operations-Returns P _ (operate c src snap filter now fresh_id alert_id st.operations) h
