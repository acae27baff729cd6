-- ===== src/Operations/EventOrder.antt =====
-- Sweeps of services/edge_v2_operations.py keep the episode events in order.
use scrap_monitoring_backend.Base.{
  ◌≡◌, refl, inl, inr, false, not, ◌&&◌, ◌||◌, Option, none, some, arith, Bool-cases, Option-cases,
  is_some, Time, Ident, Returns,
}
use scrap_monitoring_backend.Base.Dict.{lookup}
use scrap_monitoring_backend.Operations.{
  OperationState, is_critical, same_state, is_ready, Settings, MonitoringSource, Snapshot, Filter,
  fill_state_changed, Transition, Store, Reading, Input, gap, broken, usable, read_input,
  previous_state, confirmation,
}
use scrap_monitoring_backend.Operations.Episode.{invalidate_episode, advance_episode}
use scrap_monitoring_backend.Operations.Sweep.{
  alerted_at, clear_pending, lapse, alerted_at, write_row, log_change, is_due, log_alert,
  raise_alert, apply_state, current_state, evaluate, process_reading, process_input, operate,
}
use scrap_monitoring_backend.Operations.Frame.{advance_episode-is_some}
use scrap_monitoring_backend.Operations.Lifecycle.{
  resolved_in, Lifecycle, invalidate_episode-Lifecycle, open_after,
}
use scrap_monitoring_backend.Operations.Episodes.{
  Holds, advance_episode-Lifecycle, record_alert-Lifecycle,
}
use scrap_monitoring_backend.Operations.Cooldown.{IsComplete}

module _ (c : Settings) (src : MonitoringSource) where
  log_change-Lifecycle :
      (snap : Snapshot) (r : Reading) (previous current : OperationState) (st : Store)
      (fresh_id : Ident)
      → resolved_in src.device fresh_id st.transitions ≡ false
      → Lifecycle st
      → let st' = log_change src snap r previous current st in
        Lifecycle st' × (resolved_in src.device fresh_id st'.transitions ≡ false)
  unfolding log_change resolved_in
  log_change-Lifecycle snap r previous current st fresh_id fresh l =
      let t : Transition = record {
        device = src.device;
        occurred_at = r.observed;
        kind = fill_state_changed previous current;
      } in
      elim (Bool-cases (is_ready snap.filter_state && not (same_state previous current))) [
        | inl changed ↦ rw changed (
          record {
            in_order = (tt, l.in_order);
            tracked = λ d.
                open_after src d (lookup d st.trackers) t st.transitions (λ x. refl) (l.tracked d);
          },
          ground (arith, fresh),
        )
        | inr same ↦ rw same (l, fresh)
      ]

  raise_alert-Lifecycle :
      (scope : Ident) (r : Reading) (current : OperationState) (now : Time) (alert_id : Ident)
      (episode : Option Ident) (st : Store)
      → Lifecycle st
      → Holds src scope episode st
      → is_some episode ≡ is_critical current
      → Returns Lifecycle (raise_alert c src scope r current now alert_id episode st)
  unfolding raise_alert
  raise_alert-Lifecycle scope r current now alert_id none st l h e = ground (arith, e, l)
  raise_alert-Lifecycle scope r current now alert_id (some id) st l h e =
      elim (Bool-cases (is_critical current && is_due c now (alerted_at st.row))) [
        | inl due ↦ rw due (
            record_alert-Lifecycle c src scope id alert_id r now (log_alert alert_id r now st)
              (record { in_order = l.in_order; tracked = l.tracked }) h)
        | inr quiet ↦ rw quiet l
      ]

  evaluate-Lifecycle :
      (snap : Snapshot) (filter : Option Filter) (r : Reading) (now : Time)
      (fresh_id alert_id : Ident) (st : Store)
      → resolved_in src.device fresh_id st.transitions ≡ false
      → Lifecycle st
      → Returns Lifecycle (evaluate c src snap filter r now fresh_id alert_id st)
  unfolding evaluate apply_state write_row
  evaluate-Lifecycle snap filter r now fresh_id alert_id st fresh l =
      let previous = previous_state src st.row in
      let current = current_state c snap filter previous r in
      let pending = (confirmation c snap filter previous r).0 in
      let st₀ = write_row src r current pending st in
      let st₁ = log_change src snap r previous current st₀ in
      let (l₁, fresh₁) =
        log_change-Lifecycle snap r previous current st₀ fresh_id fresh
          (record { in_order = l.in_order; tracked = l.tracked }) in
      let (l₂, holds) =
        advance_episode-Lifecycle c src snap.scope r previous current now fresh_id st₁ fresh₁ l₁ in
      let out = advance_episode c src snap.scope r previous current now fresh_id st₁ in
      raise_alert-Lifecycle snap.scope r current now alert_id out.0 out.1 l₂ holds
        (advance_episode-is_some c src snap.scope r previous current now fresh_id st₁)

  clear_pending_frame :
      (st : Store)
      → ((clear_pending st).1.trackers ≡ st.trackers)
        × ((clear_pending st).1.transitions ≡ st.transitions)
  unfolding clear_pending
  clear_pending_frame st = ground (arith, Option-cases st.row)

  clear_pending-Lifecycle : (st : Store) → Lifecycle st → Lifecycle (clear_pending st).1
  unfolding clear_pending
  clear_pending-Lifecycle st l =
      let (same, same_events) = clear_pending_frame st in
      record {
        in_order = rw same_events l.in_order;
        tracked = λ d. rw (same, same_events) (l.tracked d);
      }

  lapse-Lifecycle : (st : Store) → Lifecycle st → Lifecycle (lapse src st)
  unfolding lapse
  lapse-Lifecycle st l =
      let (dropped, st₁) = invalidate_episode src st in
      let l₁ = invalidate_episode-Lifecycle src st l in
      let l₂ = clear_pending-Lifecycle st₁ l₁ in
      elim (Bool-cases (dropped || (clear_pending st₁).0)) [
        | inl changed ↦ rw changed l₂
        | inr same ↦ rw same l
      ]

  process_reading-Lifecycle :
      (snap : Snapshot) (filter : Option Filter) (r : Reading) (now : Time)
      (fresh_id alert_id : Ident) (st : Store)
      → resolved_in src.device fresh_id st.transitions ≡ false
      → Lifecycle st
      → Returns Lifecycle (process_reading c src snap filter r now fresh_id alert_id st)
  unfolding process_reading
  process_reading-Lifecycle snap filter r now fresh_id alert_id st fresh l = ground (
    arith,
    evaluate-Lifecycle snap filter r now fresh_id alert_id st fresh l,
    l,
    invalidate_episode-Lifecycle src st l,
  )

  process_input-Lifecycle :
      (snap : Snapshot) (filter : Option Filter) (input : Input) (now : Time)
      (fresh_id alert_id : Ident) (st : Store)
      → IsComplete input
      → resolved_in src.device fresh_id st.transitions ≡ false
      → Lifecycle st
      → Returns Lifecycle (process_input c src snap filter input now fresh_id alert_id st)
  unfolding process_input
  process_input-Lifecycle snap filter gap now fresh_id alert_id st i fresh l = lapse-Lifecycle st l
  process_input-Lifecycle snap filter broken now fresh_id alert_id st i fresh l = absurd i
  process_input-Lifecycle snap filter (usable r) now fresh_id alert_id st i fresh l =
      process_reading-Lifecycle snap filter r now fresh_id alert_id st fresh l

  pub operate-Lifecycle :
      (snap : Snapshot) (filter : Option Filter) (now : Time) (fresh_id alert_id : Ident)
      (st : Store)
      → IsComplete (read_input c snap)
      → resolved_in src.device fresh_id st.transitions ≡ false
      → Lifecycle st
      → Returns Lifecycle (operate c src snap filter now fresh_id alert_id st)
  unfolding operate
  operate-Lifecycle snap filter now fresh_id alert_id st i fresh l =
      process_input-Lifecycle snap filter (read_input c snap) now fresh_id alert_id st i fresh l
