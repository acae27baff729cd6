-- ===== src/Operations/Levels.antt =====
-- The hysteresis and the confirmation of services/edge_v2_operations.py.
use scrap_monitoring_backend.Operations.Episode.{advance_episode}
use scrap_monitoring_backend.Operations.Frame.{
  advance_episode-is_some, prepared_alerts, record_alert-SameAlerts,
}
use mathlib.Core.Path.{subst⁻¹}
use scrap_monitoring_backend.Base.{
  ◌+◌, ◌≤◌, ◌<◌, ◌≡◌, refl, ap, ◌∙◌, ◌↔◌, inl, inr, true, false, ◌&&◌, Option, none, some, arith,
  Bool-cases, Option-cases, is_some, Time, seconds, Ident, percent, Returns, Returns-map,
}
use scrap_monitoring_backend.Operations.{
  confirmation, previous_state, is_replay, Store, OperationRow, MonitoringSource, OperationState,
  normal, is_critical, is_ready, Settings, Snapshot, Filter, Reading, valid_thresholds,
  filter_stamp, or_else,
}
use scrap_monitoring_backend.Operations.Sweep.{
  alerted_at, log_change, alerted_at, write_row, apply_state, log_alert, is_due, evaluate,
  process_reading, raise_alert, current_state,
}

-- Normal means below the warning threshold. Critical is kept down to 5 below its threshold; it
-- begins at the threshold, and with a ready filter only after the confirmation time there.
pub record IsLevelOf (c : Settings) (snap : Snapshot) (filter : Option Filter)
    (previous : OperationState) (r : Reading) (s : OperationState) : Type 0 where
  pub lowest : (s ≡ normal) ↔ (r.fill < snap.warning_threshold)
  pub kept :
      is_critical previous ≡ true
      → (is_critical s ≡ true) ↔ (snap.collection_threshold < r.fill + percent 5)
  pub begun :
      is_critical previous ≡ false
      → (is_critical s ≡ true) ↔ (
          (snap.collection_threshold ≤ r.fill)
          × (is_ready snap.filter_state ≡ true
              → or_else (filter_stamp r snap.collection_threshold filter) r.observed
                  + seconds c.critical_confirm_seconds
                ≤ r.observed))

module _ (c : Settings) where
  current_state-IsLevelOf :
      (snap : Snapshot) (filter : Option Filter) (previous : OperationState) (r : Reading)
      → valid_thresholds snap.warning_threshold snap.collection_threshold ≡ true
      → IsLevelOf c snap filter previous r (current_state c snap filter previous r)
  unfolding current_state valid_thresholds
  current_state-IsLevelOf snap filter previous r valid = record {
    lowest = ground arith;
    kept = ground arith;
    begun = ground arith;
  }

-- What a row says of the observation, its alerts aside.
pub record Assessed : Type 0 where
  pub device : Ident
  pub state : OperationState
  pub message_id : Ident
  pub generated_at : Time
  pub observed_at : Time
  pub critical_since : Option Time

abbrev pub assessed : Option OperationRow → Option Assessed
assessed none = none
assessed (some row) = some (record {
  device = row.device;
  state = row.state;
  message_id = row.message_id;
  generated_at = row.generated_at;
  observed_at = row.observed_at;
  critical_since = row.critical_since;
})

-- The row is of this source and observation, and its state is the one that the levels give.
abbrev pub RowAgrees :
    Settings
    → MonitoringSource
    → Snapshot
    → Option Filter
    → OperationState
    → Reading
    → Option Assessed
    → Type 0
RowAgrees c src snap filter previous r none = ⊥
RowAgrees c src snap filter previous r (some row) =
    (row.device ≡ src.device)
    × (row.message_id ≡ r.observation.message_id)
    × (row.generated_at ≡ r.observation.generated_at)
    × (row.observed_at ≡ r.observed)
    × IsLevelOf c snap filter previous r row.state

module _ (c : Settings) (src : MonitoringSource) where
  log_alert-assessed :
      (alert_id : Ident) (r : Reading) (now : Time) (st : Store)
      → assessed (log_alert alert_id r now st).row ≡ assessed st.row
  log_alert-assessed alert_id r now st = ground (arith, Option-cases st.row)

  raise_alert-assessed :
      (scope : Ident) (r : Reading) (current : OperationState) (now : Time) (alert_id : Ident)
      (episode : Option Ident) (st : Store)
      → is_some episode ≡ is_critical current
      → Returns
          (λ st'. assessed st'.row ≡ assessed st.row)
          (raise_alert c src scope r current now alert_id episode st)
  unfolding raise_alert
  raise_alert-assessed scope r current now alert_id none st e = ground (arith, e)
  raise_alert-assessed scope r current now alert_id (some id) st e =
      elim (Bool-cases (is_critical current && is_due c now (alerted_at st.row))) [
        | inl due ↦ rw due (
            ap assessed
              (record_alert-SameAlerts src scope id alert_id r now (log_alert alert_id r now st)).0
            ∙ log_alert-assessed alert_id r now st)
        | inr quiet ↦ rw quiet refl
      ]

  evaluate-RowAgrees :
      (snap : Snapshot) (filter : Option Filter) (r : Reading) (now : Time)
      (fresh_id alert_id : Ident) (st : Store)
      → valid_thresholds snap.warning_threshold snap.collection_threshold ≡ true
      → Returns
          (λ st'. RowAgrees c src snap filter (previous_state src st.row) r (assessed st'.row))
          (evaluate c src snap filter r now fresh_id alert_id st)
  unfolding evaluate apply_state write_row
  evaluate-RowAgrees snap filter r now fresh_id alert_id st valid =
      let previous = previous_state src st.row in
      let current = current_state c snap filter previous r in
      let pending = (confirmation c snap filter previous r).0 in
      let st₁ = log_change src snap r previous current (write_row src r current pending st) in
      let out = advance_episode c src snap.scope r previous current now fresh_id st₁ in
      let same = (prepared_alerts c src snap r previous current pending now fresh_id st).0 in
      Returns-map _ _
        (λ st' e.
          subst⁻¹ (RowAgrees c src snap filter previous r) (e ∙ ap assessed same)
            (refl, refl, refl, refl, current_state-IsLevelOf c snap filter previous r valid))
        (raise_alert c src snap.scope r current now alert_id out.0 out.1)
        (raise_alert-assessed snap.scope r current now alert_id out.0 out.1
          (advance_episode-is_some c src snap.scope r previous current now fresh_id st₁))

  -- A new observation with valid thresholds leaves the row of its source and observation. The row's
  -- state is normal exactly below the warning threshold; a critical pit stays so exactly above the
  -- recovery level; another turns critical exactly at the threshold, with a ready filter only when
  -- the confirmation time has passed there.
  pub process_reading-RowAgrees :
      (snap : Snapshot) (filter : Option Filter) (r : Reading) (now : Time)
      (fresh_id alert_id : Ident) (st : Store)
      → is_replay src r st.row ≡ false
      → valid_thresholds snap.warning_threshold snap.collection_threshold ≡ true
      → Returns
          (λ st'. RowAgrees c src snap filter (previous_state src st.row) r (assessed st'.row))
          (process_reading c src snap filter r now fresh_id alert_id st)
  unfolding process_reading
  process_reading-RowAgrees snap filter r now fresh_id alert_id st new valid =
      rw (new, valid) (evaluate-RowAgrees snap filter r now fresh_id alert_id st valid)
