-- ===== src/Operations/Frame.antt =====
-- What each part of a sweep of services/edge_v2_operations.py leaves as it is.
use scrap_monitoring_backend.Operations.Sweep.{write_row, log_change}
use scrap_monitoring_backend.Base.{◌≡◌, ◌∙◌, Option, arith, Option-cases, is_some, Time, Ident}
use scrap_monitoring_backend.Base.Dict.{lookup}
use scrap_monitoring_backend.Operations.{
  Snapshot, OperationState, is_critical, Settings, MonitoringSource, Store, Reading,
}
use scrap_monitoring_backend.Operations.Episode.{
  drop_episode, invalidate_episode, advance_episode, record_alert,
}

-- The row and the alerts are the same.
abbrev pub SameAlerts : Store → Store → Type 0
SameAlerts st st' = (st'.row ≡ st.row) × (st'.alerts ≡ st.alerts)

pub invalidate_episode-SameAlerts :
    (src : MonitoringSource) (st : Store) → SameAlerts st (invalidate_episode src st).1
unfolding invalidate_episode drop_episode
invalidate_episode-SameAlerts src st = ground (arith, Option-cases (lookup src.device st.trackers))

pub advance_episode-SameAlerts :
    (c : Settings) (src : MonitoringSource) (scope : Ident) (r : Reading)
    (previous current : OperationState) (now : Time) (fresh_id : Ident) (st : Store)
    → SameAlerts st (advance_episode c src scope r previous current now fresh_id st).1
unfolding advance_episode
advance_episode-SameAlerts c src scope r previous current now fresh_id st = ground arith

-- There is an episode exactly in the critical state.
pub advance_episode-is_some :
    (c : Settings) (src : MonitoringSource) (scope : Ident) (r : Reading)
    (previous current : OperationState) (now : Time) (fresh_id : Ident) (st : Store)
    → is_some (advance_episode c src scope r previous current now fresh_id st).0
      ≡ is_critical current
unfolding advance_episode
advance_episode-is_some c src scope r previous current now fresh_id st = ground arith

pub record_alert-SameAlerts :
    (src : MonitoringSource) (scope episode alert_id : Ident) (r : Reading) (now : Time)
    (st : Store)
    → SameAlerts st (record_alert src scope episode alert_id r now st)
unfolding record_alert
record_alert-SameAlerts src scope episode alert_id r now st =
    ground (arith, Option-cases (lookup src.device st.trackers))

pub log_change-SameAlerts :
    (src : MonitoringSource) (snap : Snapshot) (r : Reading) (previous current : OperationState)
    (st : Store)
    → SameAlerts st (log_change src snap r previous current st)
unfolding log_change
log_change-SameAlerts src snap r previous current st = ground arith

-- The store as `apply_state` gives it to `raise_alert`: the new row, and the alerts as they were.
pub prepared_alerts :
    (c : Settings) (src : MonitoringSource) (snap : Snapshot) (r : Reading)
    (previous current : OperationState) (pending : Option Time) (now : Time) (fresh_id : Ident)
    (st : Store)
    → SameAlerts
        (write_row src r current pending st)
        (advance_episode c src snap.scope r previous current now fresh_id
          (log_change src snap r previous current (write_row src r current pending st))).1
prepared_alerts c src snap r previous current pending now fresh_id st =
    let st₀ = write_row src r current pending st in
    let st₁ = log_change src snap r previous current st₀ in
    let a = log_change-SameAlerts src snap r previous current st₀ in
    let b = advance_episode-SameAlerts c src snap.scope r previous current now fresh_id st₁ in
    (b.0 ∙ a.0, b.1 ∙ a.1)
