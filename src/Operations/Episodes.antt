-- ===== src/Operations/Episodes.antt =====
-- `advance_episode` and `record_alert` of services/alert_lifecycle_service.py keep trackers open
-- and events in order.
use mathlib.Core.Path.{subst}
use scrap_monitoring_backend.Base.{
  ◌≡◌, refl, inl, inr, Bool, true, false, Option, none, some, List, ◌∷◌, arith, Bool-cases, Time,
  Ident,
}
use scrap_monitoring_backend.Base.Dict.{lookup, lookup-insert_self}
use scrap_monitoring_backend.Operations.{
  OperationState, is_critical, Settings, MonitoringSource, EpisodeRow, alert_created, Transition,
  Store, Reading,
}
use scrap_monitoring_backend.Operations.Episode.{
  is_compatible, continued, episode_or, tracker_row, close_tracker, resolve_episode,
  advance_episode, record_alert,
}
use scrap_monitoring_backend.Operations.Lifecycle.{
  insert-TrackerIsOpen, resolved_in, created_in, EpisodeIsOpen, TrackerIsOpen, Lifecycle,
  open_after, continued-EpisodeIsOpen, elsewhere, put_tracker-Lifecycle, resolve_episode-Lifecycle,
  close_tracker-Lifecycle,
}

-- The tracker row holds the episode.
abbrev pub Holds : MonitoringSource → Ident → Option Ident → Store → Type 0
Holds src scope none st = Unit
Holds src scope (some e) st =
    (row : EpisodeRow) × (lookup src.device st.trackers ≡ some row)
    × (row.episode_id ≡ some e)
    × (row.scope_token ≡ scope)

module _ (c : Settings) (src : MonitoringSource) where
  episode_or-EpisodeIsOpen :
      (scope fresh_id : Ident) (has_alert : Bool) (o : Option Ident) (ts : List Transition)
      → resolved_in src.device fresh_id ts ≡ false
      → (o ≡ none → has_alert ≡ false)
      → EpisodeIsOpen src.device scope has_alert o ts
      → EpisodeIsOpen src.device scope has_alert (some (episode_or o fresh_id)) ts
  episode_or-EpisodeIsOpen scope fresh_id has_alert none ts fresh unset h =
      ground (arith, unset refl)
  episode_or-EpisodeIsOpen scope fresh_id has_alert (some e) ts fresh unset h = h

  continued-none :
      (scope : Ident) (observed : Time) (o : Option EpisodeRow)
      → (continued c src scope observed o).0 ≡ none
      → (continued c src scope observed o).1 ≡ false
  unfolding continued is_compatible
  continued-none scope observed none e = refl
  continued-none scope observed (some row) e = ground (arith, e)

  close-Lifecycle :
      (scope : Ident) (r : Reading) (previous : OperationState) (now : Time) (o : Option EpisodeRow)
      (st : Store)
      → Lifecycle st
      → TrackerIsOpen src.device o st.transitions
      → let (e, has_alert) = continued c src scope r.observed o in
        Lifecycle
          (close_tracker src scope r o (resolve_episode src scope r previous now e has_alert st))
  unfolding continued close_tracker resolve_episode
  close-Lifecycle scope r previous now none st l h = l
  close-Lifecycle scope r previous now (some row) st l h =
      let (e, has_alert) = continued c src scope r.observed (some row) in
      close_tracker-Lifecycle src scope r row
        (resolve_episode src scope r previous now e has_alert st)
        (resolve_episode-Lifecycle src scope r previous now e has_alert st l
          (continued-EpisodeIsOpen src c scope r.observed (some row) st.transitions h))

  pub advance_episode-Lifecycle :
      (scope : Ident) (r : Reading) (previous current : OperationState) (now : Time)
      (fresh_id : Ident) (st : Store)
      → resolved_in src.device fresh_id st.transitions ≡ false
      → Lifecycle st
      → let out = advance_episode c src scope r previous current now fresh_id st in
        Lifecycle out.1 × Holds src scope out.0 out.1
  unfolding advance_episode
  advance_episode-Lifecycle scope r previous current now fresh_id st fresh l =
      let o = lookup src.device st.trackers in
      let (e, has_alert) = continued c src scope r.observed o in
      let row = tracker_row src scope r (some (episode_or e fresh_id)) has_alert in
      elim (Bool-cases (is_critical current)) [
        | inl high ↦ rw high (
          put_tracker-Lifecycle src row st (elsewhere src st l) (
              episode_or-EpisodeIsOpen scope fresh_id has_alert e st.transitions fresh
                (continued-none scope r.observed o)
                (continued-EpisodeIsOpen src c scope r.observed o st.transitions
                  (l.tracked src.device))),
          (row, lookup-insert_self src.device row st.trackers, refl, refl),
        )
        | inr low ↦ rw low (close-Lifecycle scope r previous now o st l (l.tracked src.device), tt)
      ]

  held_unresolved :
      (d e : Ident) (o : Option EpisodeRow) (row : EpisodeRow) (ts : List Transition)
      → o ≡ some row
      → row.episode_id ≡ some e
      → TrackerIsOpen d o ts
      → resolved_in d e ts ≡ false
  held_unresolved d e none row ts p q h = cc
  held_unresolved d e (some row') row ts p q h = ground (arith, p, q, h)

  created_open :
      (d e alert_id : Ident) (row : EpisodeRow) (now at : Time) (ts : List Transition)
      → row.episode_id ≡ some e
      → resolved_in d e ts ≡ false
      → TrackerIsOpen d (some (record row { has_alert = true })) (
          record {
            device = d;
            occurred_at = now;
            kind = alert_created alert_id e row.scope_token at;
          }
          ∷ ts)
  unfolding resolved_in created_in
  created_open d e alert_id row now at ts holds fresh = rw holds (ground (arith, fresh))

  pub record_alert-Lifecycle :
      (scope e alert_id : Ident) (r : Reading) (now : Time) (st : Store)
      → Lifecycle st
      → Holds src scope (some e) st
      → Lifecycle (record_alert src scope e alert_id r now st)
  unfolding record_alert
  record_alert-Lifecycle scope e alert_id r now st l (row, there, holds, scoped) =
      let t : Transition = record {
        device = src.device;
        occurred_at = now;
        kind = alert_created alert_id e scope r.observed;
      } in
      let fresh =
        held_unresolved src.device e (lookup src.device st.trackers) row st.transitions there holds
          (l.tracked src.device) in
      rw (there, record_alert)
        (record {
          in_order = (fresh, l.in_order);
          tracked = λ d.
              insert-TrackerIsOpen src d src.device (record row { has_alert = true }) st.trackers
                (t ∷ st.transitions)
                (λ same.
                  subst
                    (λ k.
                      TrackerIsOpen k (some (record row { has_alert = true })) (t ∷ st.transitions))
                    same
                    (subst
                      (λ s. TrackerIsOpen src.device (some (record row { has_alert = true })) (
                        record {
                          device = src.device;
                          occurred_at = now;
                          kind = alert_created alert_id e s r.observed;
                        }
                        ∷ st.transitions))
                      scoped
                      (created_open src.device e alert_id row now r.observed st.transitions holds
                        fresh)))
                (open_after src d (lookup d st.trackers) t st.transitions (λ x. refl)
                  (l.tracked d));
        })
