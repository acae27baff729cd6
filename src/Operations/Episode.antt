-- ===== src/Operations/Episode.antt =====
-- `invalidate_episode`, `advance_episode` and `record_alert` of
-- services/alert_lifecycle_service.py, on the tracker row of the source's device.
use scrap_monitoring_backend.Base.{
  ◌+◌, Bool, true, false, ◌&&◌, ◌||◌, Option, none, some, ◌∷◌, ltb, ◌==◌, if◌then◌else◌, is_some,
  Time, seconds, Ident,
}
use scrap_monitoring_backend.Base.Dict.{lookup, insert}
use scrap_monitoring_backend.Operations.{
  OperationState, is_critical, Settings, MonitoringSource, EpisodeRow, Kind, alert_created,
  alert_resolved, Store, Reading,
}

-- A data gap is not a recovery: the row keeps its other fields.
unfoldable pub drop_episode : MonitoringSource → Option EpisodeRow → Store → Bool × Store
drop_episode src none st = (false, st)
drop_episode src (some row) st =
    if row.pit_id == src.pit_id && (is_some row.episode_id || row.input_valid)
    then (
      true,
      record st {
        trackers =
            insert src.device (record row { episode_id = none; input_valid = false }) st.trackers;
      },
    )
    else (false, st)

unfoldable pub invalidate_episode : MonitoringSource → Store → Bool × Store
invalidate_episode src st = drop_episode src (lookup src.device st.trackers) st

-- Does the tracker go on from its last observation?
unfoldable pub is_compatible : Settings → MonitoringSource → Ident → Time → EpisodeRow → Bool
is_compatible c src scope observed old =
    old.pit_id == src.pit_id
    && old.scope_token == scope
    && old.input_valid
    && ltb old.observed_at observed
    && ltb observed (old.observed_at + seconds c.assessment_ttl_seconds)

-- The episode that goes on, and whether it has an alert.
unfoldable pub continued :
    Settings → MonitoringSource → Ident → Time → Option EpisodeRow → Option Ident × Bool
unfolding is_compatible
continued c src scope observed none = (none, false)
continued c src scope observed (some old) =
    if is_compatible c src scope observed old
    then (old.episode_id, is_some old.episode_id && old.has_alert)
    else (none, false)

-- `uuid4` is drawn where there is no episode.
abbrev pub episode_or : Option Ident → Ident → Ident
episode_or none fresh = fresh
episode_or (some e) fresh = e

abbrev pub tracker_row : MonitoringSource → Ident → Reading → Option Ident → Bool → EpisodeRow
tracker_row src scope r identifier has_alert = record {
  message_id = r.observation.message_id;
  generated_at = r.observation.generated_at;
  pit_id = src.pit_id;
  scope_token = scope;
  episode_id = identifier;
  observed_at = r.observed;
  input_valid = true;
  has_alert = has_alert;
}

abbrev pub put_tracker : Ident → EpisodeRow → Store → Store
put_tracker device row st = record st { trackers = insert device row st.trackers }

abbrev pub add_transition : Ident → Time → Kind → Store → Store
add_transition device at kind st = record st {
  transitions = record { device = device; occurred_at = at; kind = kind } ∷ st.transitions;
}

-- A tracker row is made where there is an episode to keep.
unfoldable pub close_tracker :
    MonitoringSource → Ident → Reading → Option EpisodeRow → Store → Store
close_tracker src scope r none st = st
close_tracker src scope r (some old) st =
    put_tracker src.device (tracker_row src scope r none false) st

-- `ALERT_RESOLVED` is added where an episode with an alert leaves the critical state.
unfoldable pub resolve_episode :
    MonitoringSource → Ident → Reading → OperationState → Time → Option Ident → Bool → Store → Store
resolve_episode src scope r previous now none has_alert st = st
resolve_episode src scope r previous now (some e) has_alert st =
    if has_alert && is_critical previous
    then add_transition src.device now (alert_resolved e scope r.observed) st
    else st

-- The episode, where there is one, and the store.
unfoldable pub advance_episode :
    Settings
    → MonitoringSource
    → Ident
    → Reading
    → OperationState
    → OperationState
    → Time
    → Ident
    → Store
    → Option Ident × Store
unfolding continued close_tracker resolve_episode
advance_episode c src scope r previous current now fresh_id st =
    let (identifier, has_alert) =
      continued c src scope r.observed (lookup src.device st.trackers) in
    if is_critical current
    then (
      some (episode_or identifier fresh_id),
      put_tracker src.device
          (tracker_row src scope r (some (episode_or identifier fresh_id)) has_alert) st,
    )
    else (
      none,
      close_tracker src scope r (lookup src.device st.trackers)
          (resolve_episode src scope r previous now identifier has_alert st),
    )

abbrev with_alert : EpisodeRow → EpisodeRow
with_alert row = record row { has_alert = true }

abbrev mark_alert : Ident → Option EpisodeRow → Store → Store
mark_alert device none st = st
mark_alert device (some row) st = put_tracker device (with_alert row) st

unfoldable pub record_alert :
    MonitoringSource → Ident → Ident → Ident → Reading → Time → Store → Store
record_alert src scope episode alert_id r now st =
    add_transition src.device now (alert_created alert_id episode scope r.observed)
      (mark_alert src.device (lookup src.device st.trackers) st)
