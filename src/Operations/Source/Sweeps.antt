-- ===== src/Operations/Source/Sweeps.antt =====
-- Sweeps of `process_source` of services/edge_v2_operations.py.
use mathlib.Core.Path.{subst⁻¹}
use scrap_monitoring_backend.Base.{
  ◌≡◌, refl, false, Option, some, Time, Ident, Returns, Returns-map,
}
use scrap_monitoring_backend.Operations.{
  OperationState, Settings, MonitoringSource, Snapshot, Filter, Store, read_input,
}
use scrap_monitoring_backend.Operations.Sweep.{operate}
use scrap_monitoring_backend.Operations.Cooldown.{KeepsCooldown, IsComplete, operate-KeepsCooldown}
use scrap_monitoring_backend.Operations.Lifecycle.{resolved_in, Lifecycle}
use scrap_monitoring_backend.Operations.Starts.{Health}
use scrap_monitoring_backend.Operations.Source.{SourceStore, process_source, process_source-Returns}
use scrap_monitoring_backend.Operations.Replay.{operate_again}
use scrap_monitoring_backend.Operations.EventOrder.{operate-Lifecycle}

module _ (c : Settings) (src : MonitoringSource) where
  -- A sweep whose observation has its instant and its value returns, and keeps the alerts at least
  -- the cooldown apart, with the row naming the newest.
  pub process_source-KeepsCooldown :
      (snap : Snapshot) (filter : Option Filter) (health : Health)
      (effective : Option OperationState) (now : Time) (fresh_id alert_id : Ident)
      (st : SourceStore)
      → IsComplete (read_input c snap)
      → KeepsCooldown c st.operations
      → Returns
          (λ st'. KeepsCooldown c st'.operations)
          (process_source c src snap filter health effective now fresh_id alert_id st)
  process_source-KeepsCooldown snap filter health effective now fresh_id alert_id st i k =
      process_source-Returns (KeepsCooldown c) c src snap filter health effective now fresh_id
        alert_id st
        (operate-KeepsCooldown c src snap filter now fresh_id alert_id st.operations i k)

  -- A sweep whose observation has its instant and its value, and whose drawn identifier names no
  -- episode that the device has resolved, returns and keeps the episode events in order: an episode
  -- is resolved at most once, after an alert of its own in the same scope, and has no alert later.
  pub process_source-Lifecycle :
      (snap : Snapshot) (filter : Option Filter) (health : Health)
      (effective : Option OperationState) (now : Time) (fresh_id alert_id : Ident)
      (st : SourceStore)
      → IsComplete (read_input c snap)
      → resolved_in src.device fresh_id st.operations.transitions ≡ false
      → Lifecycle st.operations
      → Returns
          (λ st'. Lifecycle st'.operations)
          (process_source c src snap filter health effective now fresh_id alert_id st)
  process_source-Lifecycle snap filter health effective now fresh_id alert_id st i fresh l =
      process_source-Returns Lifecycle c src snap filter health effective now fresh_id alert_id st
        (operate-Lifecycle c src snap filter now fresh_id alert_id st.operations i fresh l)

  -- A sweep whose observation has its instant and its value returns, and a later sweep over the same
  -- snapshot and filter row returns too and adds nothing to the pit's row, alerts, episodes and events.
  pub process_source_again :
      (snap : Snapshot) (filter : Option Filter) (health : Health)
      (effective : Option OperationState) (health' : Health) (effective' : Option OperationState)
      (now later : Time) (fresh_id alert_id fresh_id' alert_id' : Ident) (st : SourceStore)
      → IsComplete (read_input c snap)
      → Returns
          (λ st'.
            Returns
              (λ st''. st''.operations ≡ st'.operations)
              (process_source c src snap filter health' effective' later fresh_id' alert_id' st'))
          (process_source c src snap filter health effective now fresh_id alert_id st)
  process_source_again snap filter health effective health' effective' now later fresh_id alert_id
        fresh_id' alert_id' st i =
      let P : Store → Type 0 =
        λ s. operate c src snap filter later fresh_id' alert_id' s ≡ some s in
      Returns-map _ _
        (λ st' h.
          process_source-Returns (λ s. s ≡ st'.operations) c src snap filter health' effective'
            later fresh_id' alert_id' st' (subst⁻¹ (Returns (λ s. s ≡ st'.operations)) h refl))
        (process_source c src snap filter health effective now fresh_id alert_id st)
        (process_source-Returns P c src snap filter health effective now fresh_id alert_id st (
          operate_again c src snap filter now later fresh_id alert_id fresh_id' alert_id'
            st.operations i))
