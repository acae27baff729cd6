-- ===== src/Operations/Lifecycle.antt =====
-- The order of the episode events of services/alert_lifecycle_service.py.
use mathlib.Core.Path.{subst}
use scrap_monitoring_backend.Base.{
  ◌≡◌, ◌≢◌, inl, inr, Bool, true, false, ◌&&◌, ◌||◌, Option, none, some, List, [], ◌∷◌, arith, ◌==◌,
  Bool-cases, Option-cases, is_some, Time, Ident, any_of,
}
use scrap_monitoring_backend.Base.Dict.{Dict, lookup, insert, lookup-insert}
use scrap_monitoring_backend.Operations.{
  is_critical, OperationState, Reading, Settings, MonitoringSource, EpisodeRow, Kind,
  fill_state_changed, alert_created, alert_resolved, Transition, Store,
}
use scrap_monitoring_backend.Operations.Episode.{
  tracker_row, put_tracker, close_tracker, resolve_episode, drop_episode, invalidate_episode,
  is_compatible, continued,
}

abbrev pub kind_resolves : Ident → Kind → Bool
kind_resolves e (fill_state_changed p q) = false
kind_resolves e (alert_created a e' s at) = false
kind_resolves e (alert_resolved e' s at) = e' == e

abbrev pub kind_creates : Ident → Ident → Kind → Bool
kind_creates e s (fill_state_changed p q) = false
kind_creates e s (alert_created a e' s' at) = e' == e && s' == s
kind_creates e s (alert_resolved e' s' at) = false

unfoldable pub resolved_in : Ident → Ident → List Transition → Bool
resolved_in d e ts = any_of (λ t. t.device == d && kind_resolves e t.kind) ts

unfoldable pub created_in : Ident → Ident → Ident → List Transition → Bool
created_in d e s ts = any_of (λ t. t.device == d && kind_creates e s t.kind) ts

-- What an event may follow: an alert comes while its episode is unresolved, and an episode is
-- resolved once, after an alert of its own.
abbrev pub Follows : Ident → Kind → List Transition → Type 0
Follows d (fill_state_changed p q) ts = Unit
Follows d (alert_created a e s at) ts = resolved_in d e ts ≡ false
Follows d (alert_resolved e s at) ts = (resolved_in d e ts ≡ false) × (created_in d e s ts ≡ true)

abbrev pub InOrder : List Transition → Type 0
InOrder [] = Unit
InOrder (t ∷ ts) = Follows t.device t.kind ts × InOrder ts

abbrev pub EpisodeIsOpen : Ident → Ident → Bool → Option Ident → List Transition → Type 0
EpisodeIsOpen d scope has_alert none ts = Unit
EpisodeIsOpen d scope has_alert (some e) ts =
    (resolved_in d e ts ≡ false) × (has_alert ≡ true → created_in d e scope ts ≡ true)

-- The tracker's episode is unresolved, and has an alert where the row says so.
abbrev pub TrackerIsOpen : Ident → Option EpisodeRow → List Transition → Type 0
TrackerIsOpen d none ts = Unit
TrackerIsOpen d (some row) ts = EpisodeIsOpen d row.scope_token row.has_alert row.episode_id ts

pub record Lifecycle (st : Store) : Type 0 where
  pub in_order : InOrder st.transitions
  pub tracked : (d : Ident) → TrackerIsOpen d (lookup d st.trackers) st.transitions

module _ (src : MonitoringSource) where
  pub insert-TrackerIsOpen :
      (d k : Ident) (row : EpisodeRow) (trackers : Dict EpisodeRow) (ts : List Transition)
      → (k ≡ d → TrackerIsOpen d (some row) ts)
      → TrackerIsOpen d (lookup d trackers) ts
      → TrackerIsOpen d (lookup d (insert k row trackers)) ts
  insert-TrackerIsOpen d k row trackers ts at rest =
      rw (lookup-insert d k row trackers) (elim (Bool-cases (k == d)) [
        | inl same ↦ rw same (at (ground arith))
        | inr other ↦ rw other rest
      ])

  drop_episode-Lifecycle :
      (o : Option EpisodeRow) (st : Store) → Lifecycle st → Lifecycle (drop_episode src o st).1
  unfolding drop_episode
  drop_episode-Lifecycle none st l = l
  drop_episode-Lifecycle (some row) st l =
      elim (Bool-cases (row.pit_id == src.pit_id && (is_some row.episode_id || row.input_valid))) [
        | inl mine ↦ rw mine (record {
          in_order = l.in_order;
          tracked = λ d.
              insert-TrackerIsOpen d src.device _ st.trackers st.transitions (λ e. tt)
                (l.tracked d);
        })
        | inr other ↦ rw other l
      ]

  pub invalidate_episode-Lifecycle :
      (st : Store) → Lifecycle st → Lifecycle (invalidate_episode src st).1
  unfolding invalidate_episode
  invalidate_episode-Lifecycle st l = drop_episode-Lifecycle (lookup src.device st.trackers) st l

  -- An event that does not resolve keeps every tracker open.
  pub open_after :
      (d : Ident) (o : Option EpisodeRow) (t : Transition) (ts : List Transition)
      → ((e : Ident) → kind_resolves e t.kind ≡ false)
      → TrackerIsOpen d o ts
      → TrackerIsOpen d o (t ∷ ts)
  unfolding resolved_in created_in
  open_after d none t ts not_resolved h = tt
  open_after d (some row) t ts not_resolved h = elim (Option-cases row.episode_id) [
    | inl nobody ↦ rw nobody tt
    | inr (e, some_e) ↦ rw some_e (ground (arith, h, not_resolved e))
  ]

  -- The event that closes a tracker's episode concerns that device alone.
  pub open_elsewhere :
      (d k : Ident) (o : Option EpisodeRow) (at : Time) (kind : Kind) (ts : List Transition)
      → k ≢ d
      → TrackerIsOpen d o ts
      → TrackerIsOpen d o (record { device = k; occurred_at = at; kind = kind } ∷ ts)
  unfolding resolved_in created_in
  open_elsewhere d k none at kind ts other h = tt
  open_elsewhere d k (some row) at kind ts other h = elim (Option-cases row.episode_id) [
    | inl nobody ↦ rw nobody tt
    | inr (e, some_e) ↦ rw some_e (ground (arith, h, other))
  ]

  -- The episode that goes on is the tracker's.
  pub continued-EpisodeIsOpen :
      (c : Settings) (scope : Ident) (observed : Time) (o : Option EpisodeRow)
      (ts : List Transition)
      → TrackerIsOpen src.device o ts
      → let out = continued c src scope observed o in EpisodeIsOpen src.device scope out.1 out.0 ts
  unfolding continued is_compatible
  continued-EpisodeIsOpen c scope observed none ts h = tt
  continued-EpisodeIsOpen c scope observed (some row) ts h = elim (Option-cases row.episode_id) [
    | inl nobody ↦ ground (arith, nobody)
    | inr (e, some_e) ↦ ground (arith, h, some_e)
  ]

  -- As `Lifecycle`, the source's own tracker aside.
  pub record LifecycleElsewhere (st : Store) : Type 0 where
    pub in_order : InOrder st.transitions
    pub tracked :
        (d : Ident) → src.device ≢ d → TrackerIsOpen d (lookup d st.trackers) st.transitions

  pub elsewhere : (st : Store) → Lifecycle st → LifecycleElsewhere st
  elsewhere st l = record { in_order = l.in_order; tracked = λ d other. l.tracked d }

  pub put_tracker-Lifecycle :
      (row : EpisodeRow) (st : Store)
      → LifecycleElsewhere st
      → TrackerIsOpen src.device (some row) st.transitions
      → Lifecycle (put_tracker src.device row st)
  put_tracker-Lifecycle row st l h = record {
    in_order = l.in_order;
    tracked = λ d.
        rw (lookup-insert d src.device row st.trackers) (elim (Bool-cases (src.device == d)) [
          | inl same ↦
              rw same (subst (λ k. TrackerIsOpen k (some row) st.transitions) (ground arith) h)
          | inr other ↦ rw other (l.tracked d (ground arith))
        ]);
  }

  pub resolve_episode-Lifecycle :
      (scope : Ident) (r : Reading) (previous : OperationState) (now : Time) (o : Option Ident)
      (has_alert : Bool) (st : Store)
      → Lifecycle st
      → EpisodeIsOpen src.device scope has_alert o st.transitions
      → LifecycleElsewhere (resolve_episode src scope r previous now o has_alert st)
  unfolding resolve_episode
  resolve_episode-Lifecycle scope r previous now none has_alert st l h = elsewhere st l
  resolve_episode-Lifecycle scope r previous now (some e) has_alert st l h =
      elim (Bool-cases (has_alert && is_critical previous)) [
        | inl ends ↦ rw ends (record {
          in_order = ((h.0, h.1 (ground arith)), l.in_order);
          tracked = λ d other.
              open_elsewhere d src.device (lookup d st.trackers) now
                (alert_resolved e scope r.observed) st.transitions other (l.tracked d);
        })
        | inr goes_on ↦ rw goes_on (elsewhere st l)
      ]

  pub close_tracker-Lifecycle :
      (scope : Ident) (r : Reading) (old : EpisodeRow) (st : Store)
      → LifecycleElsewhere st
      → Lifecycle (close_tracker src scope r (some old) st)
  unfolding close_tracker
  close_tracker-Lifecycle scope r old st l =
      put_tracker-Lifecycle (tracker_row src scope r none false) st l tt
