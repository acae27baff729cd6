-- ===== src/Operations/Cooldown.antt =====
-- The cooldown of services/edge_v2_operations.py.
use scrap_monitoring_backend.Base.{
  ℕ, ◌+◌, ◌≤◌, ◌≡◌, ap, inl, inr, true, ◌&&◌, ◌||◌, Option, none, some, List, [], ◌∷◌, arith,
  Bool-cases, Option-cases, is_some, Time, seconds, Ident, Returns,
}
use scrap_monitoring_backend.Operations.{
  OperationState, is_critical, Settings, MonitoringSource, Snapshot, Filter, AlertLog, Store,
  Reading, Input, gap, broken, usable, read_input, previous_state, confirmation,
}
use scrap_monitoring_backend.Operations.Episode.{invalidate_episode, advance_episode, record_alert}
use scrap_monitoring_backend.Operations.Sweep.{
  alerted_id, alerted_at, current_state, apply_state, clear_pending, lapse, alerted_at, alerted_id,
  write_row, log_change, is_due, log_alert, raise_alert, evaluate, process_reading, process_input,
  operate,
}
use scrap_monitoring_backend.Operations.Frame.{
  prepared_alerts, SameAlerts, invalidate_episode-SameAlerts, advance_episode-is_some,
  record_alert-SameAlerts,
}

abbrev pub newest_at : List AlertLog → Option Time
newest_at [] = none
newest_at (a ∷ alerts) = some a.triggered_at

abbrev pub newest_id : List AlertLog → Option Ident
newest_id [] = none
newest_id (a ∷ alerts) = some a.id

abbrev pub IsAfter : ℕ → Time → Option Time → Type 0
IsAfter wait at none = Unit
IsAfter wait at (some before) = before + wait ≤ at

-- Successive alerts, newest first, are at least `wait` apart.
abbrev pub Spaced : ℕ → List AlertLog → Type 0
Spaced wait [] = Unit
Spaced wait (a ∷ alerts) = IsAfter wait a.triggered_at (newest_at alerts) × Spaced wait alerts

-- The row names the newest alert, and the alerts keep the cooldown.
abbrev pub KeepsCooldown : Settings → Store → Type 0
KeepsCooldown c st =
    (alerted_at st.row ≡ newest_at st.alerts)
    × (alerted_id st.row ≡ newest_id st.alerts)
    × Spaced (seconds c.alert_cooldown_seconds) st.alerts

-- `read_input` finds no missing instant or value in the observation it takes.
abbrev pub IsComplete : Input → Type 0
IsComplete gap = Unit
IsComplete broken = ⊥
IsComplete (usable r) = Unit

module _ (c : Settings) (src : MonitoringSource) where
  KeepsCooldown-SameAlerts :
      (st st' : Store) → SameAlerts st st' → KeepsCooldown c st → KeepsCooldown c st'
  KeepsCooldown-SameAlerts st st' same k = rw (same.0, same.1) k

  log_alert-KeepsCooldown :
      (alert_id : Ident) (r : Reading) (now : Time) (st : Store)
      → KeepsCooldown c st
      → is_some st.row ≡ true
      → is_due c now (alerted_at st.row) ≡ true
      → KeepsCooldown c (log_alert alert_id r now st)
  log_alert-KeepsCooldown alert_id r now st k there due = ground (arith, Option-cases st.row)

  raise_alert-KeepsCooldown :
      (scope : Ident) (r : Reading) (current : OperationState) (now : Time) (alert_id : Ident)
      (episode : Option Ident) (st : Store)
      → KeepsCooldown c st
      → is_some st.row ≡ true
      → is_some episode ≡ is_critical current
      → Returns (KeepsCooldown c) (raise_alert c src scope r current now alert_id episode st)
  unfolding raise_alert
  raise_alert-KeepsCooldown scope r current now alert_id episode st k there e =
      elim (Bool-cases (is_critical current && is_due c now (alerted_at st.row))) [
        | inl due ↦ elim (Option-cases episode) [
          | inl nobody ↦ ground arith
          | inr (e, some_e) ↦
              rw (due, some_e)
                (KeepsCooldown-SameAlerts (log_alert alert_id r now st)
                  (record_alert src scope e alert_id r now (log_alert alert_id r now st))
                  (record_alert-SameAlerts src scope e alert_id r now (log_alert alert_id r now st))
                  (log_alert-KeepsCooldown alert_id r now st k there (ground arith)))
        ]
        | inr quiet ↦ rw quiet k
      ]

  evaluate-KeepsCooldown :
      (snap : Snapshot) (filter : Option Filter) (r : Reading) (now : Time)
      (fresh_id alert_id : Ident) (st : Store)
      → KeepsCooldown c st
      → Returns (KeepsCooldown c) (evaluate c src snap filter r now fresh_id alert_id st)
  unfolding evaluate apply_state write_row
  evaluate-KeepsCooldown snap filter r now fresh_id alert_id st k =
      let previous = previous_state src st.row in
      let current = current_state c snap filter previous r in
      let pending = (confirmation c snap filter previous r).0 in
      let st₁ = log_change src snap r previous current (write_row src r current pending st) in
      let out = advance_episode c src snap.scope r previous current now fresh_id st₁ in
      let same = prepared_alerts c src snap r previous current pending now fresh_id st in
      raise_alert-KeepsCooldown snap.scope r current now alert_id out.0 out.1
        (KeepsCooldown-SameAlerts (write_row src r current pending st) out.1 same k)
        (ap (λ o. is_some o) same.0)
        (advance_episode-is_some c src snap.scope r previous current now fresh_id st₁)

  invalidate_episode-KeepsCooldown :
      (st : Store) → KeepsCooldown c st → KeepsCooldown c (invalidate_episode src st).1
  invalidate_episode-KeepsCooldown st k =
      KeepsCooldown-SameAlerts st (invalidate_episode src st).1
        (invalidate_episode-SameAlerts src st) k

  clear_pending-KeepsCooldown :
      (st : Store) → KeepsCooldown c st → KeepsCooldown c (clear_pending st).1
  unfolding clear_pending
  clear_pending-KeepsCooldown st k = ground (arith, Option-cases st.row)

  lapse-KeepsCooldown : (st : Store) → KeepsCooldown c st → KeepsCooldown c (lapse src st)
  unfolding lapse
  lapse-KeepsCooldown st k =
      let (dropped, st₁) = invalidate_episode src st in
      let k₁ = invalidate_episode-KeepsCooldown st k in
      let k₂ = clear_pending-KeepsCooldown st₁ k₁ in
      elim (Bool-cases (dropped || (clear_pending st₁).0)) [
        | inl changed ↦ rw changed k₂
        | inr same ↦ rw same k
      ]

  process_reading-KeepsCooldown :
      (snap : Snapshot) (filter : Option Filter) (r : Reading) (now : Time)
      (fresh_id alert_id : Ident) (st : Store)
      → KeepsCooldown c st
      → Returns (KeepsCooldown c) (process_reading c src snap filter r now fresh_id alert_id st)
  unfolding process_reading
  process_reading-KeepsCooldown snap filter r now fresh_id alert_id st k = ground (
    arith,
    evaluate-KeepsCooldown snap filter r now fresh_id alert_id st k,
    k,
    invalidate_episode-KeepsCooldown st k,
  )

  process_input-KeepsCooldown :
      (snap : Snapshot) (filter : Option Filter) (input : Input) (now : Time)
      (fresh_id alert_id : Ident) (st : Store)
      → IsComplete input
      → KeepsCooldown c st
      → Returns (KeepsCooldown c) (process_input c src snap filter input now fresh_id alert_id st)
  unfolding process_input
  process_input-KeepsCooldown snap filter gap now fresh_id alert_id st i k =
      lapse-KeepsCooldown st k
  process_input-KeepsCooldown snap filter broken now fresh_id alert_id st i k = absurd i
  process_input-KeepsCooldown snap filter (usable r) now fresh_id alert_id st i k =
      process_reading-KeepsCooldown snap filter r now fresh_id alert_id st k

  pub operate-KeepsCooldown :
      (snap : Snapshot) (filter : Option Filter) (now : Time) (fresh_id alert_id : Ident)
      (st : Store)
      → IsComplete (read_input c snap)
      → KeepsCooldown c st
      → Returns (KeepsCooldown c) (operate c src snap filter now fresh_id alert_id st)
  unfolding operate
  operate-KeepsCooldown snap filter now fresh_id alert_id st i k =
      process_input-KeepsCooldown snap filter (read_input c snap) now fresh_id alert_id st i k
