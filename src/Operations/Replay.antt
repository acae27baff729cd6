-- ===== src/Operations/Replay.antt =====
-- A repeated sweep of services/edge_v2_operations.py does nothing.
use scrap_monitoring_backend.Base.{
  ◌≡◌, refl, ap, ◌∙◌, inl, inr, true, false, ◌&&◌, ◌||◌, Option, none, some, arith, ◌==◌,
  Bool-cases, Option-cases, is_some, Time, Ident, Returns, Returns-map,
}
use scrap_monitoring_backend.Base.Dict.{lookup, lookup-insert_self}
use scrap_monitoring_backend.Operations.{
  OperationState, is_critical, Settings, MonitoringSource, Snapshot, Filter, EpisodeRow, Store,
  Reading, Input, gap, broken, usable, read_input, is_replay, valid_thresholds, previous_state,
  confirmation,
}
use scrap_monitoring_backend.Operations.Episode.{drop_episode, invalidate_episode, advance_episode}
use scrap_monitoring_backend.Operations.Sweep.{
  alerted_at, clear_pending, lapse, alerted_at, write_row, log_change, is_due, log_alert,
  raise_alert, apply_state, current_state, evaluate, process_reading, process_input, operate,
}
use scrap_monitoring_backend.Operations.Frame.{
  advance_episode-is_some, record_alert-SameAlerts, prepared_alerts,
}
use scrap_monitoring_backend.Operations.Cooldown.{IsComplete}

module _ (c : Settings) (src : MonitoringSource) where
  drop_episode_twice :
      (o : Option EpisodeRow) (st : Store)
      → lookup src.device st.trackers ≡ o
      → (invalidate_episode src (drop_episode src o st).1).0 ≡ false
  unfolding invalidate_episode drop_episode
  drop_episode_twice none st e = ground (arith, e)
  drop_episode_twice (some row) st e =
      elim (Bool-cases (row.pit_id == src.pit_id && (is_some row.episode_id || row.input_valid))) [
        | inl mine ↦ rw mine (
            ground (
              arith,
              lookup-insert_self src.device (record row { episode_id = none; input_valid = false })
                  st.trackers,
            ))
        | inr other ↦ rw other (ground (arith, e, other))
      ]

  invalidate_episode_twice :
      (st : Store) → (invalidate_episode src (invalidate_episode src st).1).0 ≡ false
  unfolding invalidate_episode
  invalidate_episode_twice st = drop_episode_twice (lookup src.device st.trackers) st refl

  invalidate_episode-unchanged :
      (st : Store) → (invalidate_episode src st).0 ≡ false → (invalidate_episode src st).1 ≡ st
  unfolding invalidate_episode drop_episode
  invalidate_episode-unchanged st e =
      ground (arith, e, Option-cases (lookup src.device st.trackers))

  clear_pending_twice : (st : Store) → (clear_pending (clear_pending st).1).0 ≡ false
  unfolding clear_pending
  clear_pending_twice st = ground (arith, Option-cases st.row)

  clear_pending-unchanged : (st : Store) → (clear_pending st).0 ≡ false → (clear_pending st).1 ≡ st
  unfolding clear_pending
  clear_pending-unchanged st e = ground (arith, e, Option-cases st.row)

  drops_by_trackers :
      (st st' : Store)
      → st'.trackers ≡ st.trackers
      → (invalidate_episode src st').0 ≡ (invalidate_episode src st).0
  unfolding invalidate_episode drop_episode
  drops_by_trackers st st' same =
      rw same (ground (arith, Option-cases (lookup src.device st.trackers)))

  clear_pending-trackers : (st : Store) → (clear_pending st).1.trackers ≡ st.trackers
  unfolding clear_pending
  clear_pending-trackers st = ground (arith, Option-cases st.row)

  lapse_quiet :
      (st : Store)
      → (invalidate_episode src st).0 ≡ false
      → (clear_pending st).0 ≡ false
      → lapse src st ≡ st
  unfolding lapse
  lapse_quiet st no_drop no_clear =
      let same = invalidate_episode-unchanged st no_drop in rw (no_drop, same, no_clear) refl

  lapse_twice : (st : Store) → lapse src (lapse src st) ≡ lapse src st
  unfolding lapse
  lapse_twice st =
      let (dropped, st₁) = invalidate_episode src st in
      let (cleared, st₂) = clear_pending st₁ in
      elim (Bool-cases (dropped || cleared)) [
        | inl changed ↦ rw changed (
            lapse_quiet st₂
              (drops_by_trackers st₁ st₂ (clear_pending-trackers st₁) ∙ invalidate_episode_twice st)
              (clear_pending_twice st₁))
        | inr same ↦ rw same (rw same refl)
      ]

  log_alert-is_replay :
      (r : Reading) (alert_id : Ident) (now : Time) (st : Store)
      → is_replay src r st.row ≡ true
      → is_replay src r (log_alert alert_id r now st).row ≡ true
  unfolding is_replay
  log_alert-is_replay r alert_id now st h = ground (arith, h, Option-cases st.row)

  raise_alert-is_replay :
      (scope : Ident) (r : Reading) (current : OperationState) (now : Time) (alert_id : Ident)
      (episode : Option Ident) (st : Store)
      → is_replay src r st.row ≡ true
      → is_some episode ≡ is_critical current
      → Returns
          (λ st'. is_replay src r st'.row ≡ true)
          (raise_alert c src scope r current now alert_id episode st)
  unfolding raise_alert
  raise_alert-is_replay scope r current now alert_id none st h e = ground (arith, e, h)
  raise_alert-is_replay scope r current now alert_id (some id) st h e =
      elim (Bool-cases (is_critical current && is_due c now (alerted_at st.row))) [
        | inl due ↦ rw due (
            ap (is_replay src r)
              (record_alert-SameAlerts src scope id alert_id r now (log_alert alert_id r now st)).0
            ∙ log_alert-is_replay r alert_id now st h)
        | inr quiet ↦ rw quiet h
      ]

  write_row-is_replay :
      (r : Reading) (current : OperationState) (pending : Option Time) (st : Store)
      → is_replay src r (write_row src r current pending st).row ≡ true
  unfolding is_replay write_row
  write_row-is_replay r current pending st = ground arith

  evaluate-is_replay :
      (snap : Snapshot) (filter : Option Filter) (r : Reading) (now : Time)
      (fresh_id alert_id : Ident) (st : Store)
      → Returns
          (λ st'. is_replay src r st'.row ≡ true)
          (evaluate c src snap filter r now fresh_id alert_id st)
  unfolding evaluate apply_state
  evaluate-is_replay snap filter r now fresh_id alert_id st =
      let previous = previous_state src st.row in
      let current = current_state c snap filter previous r in
      let pending = (confirmation c snap filter previous r).0 in
      let st₀ = write_row src r current pending st in
      let st₁ = log_change src snap r previous current st₀ in
      let out = advance_episode c src snap.scope r previous current now fresh_id st₁ in
      raise_alert-is_replay snap.scope r current now alert_id out.0 out.1
        (ap (is_replay src r)
            (prepared_alerts c src snap r previous current pending now fresh_id st).0
          ∙ write_row-is_replay r current pending st)
        (advance_episode-is_some c src snap.scope r previous current now fresh_id st₁)

  process_reading-replayed :
      (snap : Snapshot) (filter : Option Filter) (r : Reading) (now : Time)
      (fresh_id alert_id : Ident) (st : Store)
      → is_replay src r st.row ≡ true
      → process_reading c src snap filter r now fresh_id alert_id st ≡ some st
  unfolding process_reading
  process_reading-replayed snap filter r now fresh_id alert_id st old = rw old refl

  process_reading-unset :
      (snap : Snapshot) (filter : Option Filter) (r : Reading) (now : Time)
      (fresh_id alert_id : Ident) (st : Store)
      → valid_thresholds snap.warning_threshold snap.collection_threshold ≡ false
      → (invalidate_episode src st).0 ≡ false
      → process_reading c src snap filter r now fresh_id alert_id st ≡ some st
  unfolding process_reading
  process_reading-unset snap filter r now fresh_id alert_id st unset no_drop =
      rw (unset, invalidate_episode-unchanged st no_drop)
        (elim (Bool-cases (is_replay src r st.row)) [
          | inl old ↦ rw old refl
          | inr new ↦ rw new refl
        ])

  -- A usable input is a replay, is evaluated, or stops at the thresholds.
  process_reading-Returns :
      (P : Store → Type 0) (snap : Snapshot) (filter : Option Filter) (r : Reading) (now : Time)
      (fresh_id alert_id : Ident) (st : Store)
      → (is_replay src r st.row ≡ true → P st)
      → Returns P (evaluate c src snap filter r now fresh_id alert_id st)
      → (valid_thresholds snap.warning_threshold snap.collection_threshold ≡ false
          → P (invalidate_episode src st).1)
      → Returns P (process_reading c src snap filter r now fresh_id alert_id st)
  unfolding process_reading
  process_reading-Returns P snap filter r now fresh_id alert_id st old evaluated unset =
      elim (Bool-cases (is_replay src r st.row)) [
        | inl replay ↦ rw replay (old replay)
        | inr new ↦
            elim (Bool-cases (valid_thresholds snap.warning_threshold snap.collection_threshold)) [
              | inl set ↦ rw (new, set) evaluated
              | inr bad ↦ rw (new, bad) (unset bad)
            ]
      ]

  process_input_again :
      (snap : Snapshot) (filter : Option Filter) (input : Input) (now later : Time)
      (fresh_id alert_id fresh_id' alert_id' : Ident) (st : Store)
      → IsComplete input
      → Returns
          (λ st'. process_input c src snap filter input later fresh_id' alert_id' st' ≡ some st')
          (process_input c src snap filter input now fresh_id alert_id st)
  unfolding process_input
  process_input_again snap filter gap now later fresh_id alert_id fresh_id' alert_id' st i =
      ap (λ st'. some st') (lapse_twice st)
  process_input_again snap filter broken now later fresh_id alert_id fresh_id' alert_id' st i =
      absurd i
  process_input_again snap filter (usable r) now later fresh_id alert_id fresh_id' alert_id' st i =
      process_reading-Returns
        (λ st'. process_reading c src snap filter r later fresh_id' alert_id' st' ≡ some st') snap
        filter r now fresh_id alert_id st
        (λ replay. process_reading-replayed snap filter r later fresh_id' alert_id' st replay)
        (Returns-map _ _
          (λ st' h. process_reading-replayed snap filter r later fresh_id' alert_id' st' h)
          (evaluate c src snap filter r now fresh_id alert_id st)
          (evaluate-is_replay snap filter r now fresh_id alert_id st))
        (λ bad.
          process_reading-unset snap filter r later fresh_id' alert_id'
            (invalidate_episode src st).1 bad (invalidate_episode_twice st))

  pub operate_again :
      (snap : Snapshot) (filter : Option Filter) (now later : Time)
      (fresh_id alert_id fresh_id' alert_id' : Ident) (st : Store)
      → IsComplete (read_input c snap)
      → Returns
          (λ st'. operate c src snap filter later fresh_id' alert_id' st' ≡ some st')
          (operate c src snap filter now fresh_id alert_id st)
  unfolding operate
  operate_again snap filter now later fresh_id alert_id fresh_id' alert_id' st i =
      process_input_again snap filter (read_input c snap) now later fresh_id alert_id fresh_id'
        alert_id' st i
