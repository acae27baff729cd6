-- ===== src/WebRtc.antt =====
-- services/webrtc_service.py: the playback sessions of the camera stream, kept in memory.
-- The clock, the session identifier of `uuid4`, and what the media server answered are arguments;
-- SHA-256 and the expression for stream names are parameters. Forwarding to the media server changes
-- no session, and its failures are ignored.
pub mod Expiry
mod Tests
use scrap_monitoring_backend.Base.{
  ℕ, zero, suc, ◌+◌, ◌-◌, ◌*◌, ◌/◌, ◌%◌, ◌≤◌, ◌<◌, min, max, ◌≡◌, refl, sym, ap, ◌∙◌, ◌≢◌, ◌↔◌, ◌⊎◌,
  inl, inr, Bool, true, false, not, ◌&&◌, ◌||◌, Option, none, some, List, [], ◌∷◌, ◌++◌, map, arith,
  ltb, leb, ◌==◌, if◌then◌else◌, ltb→lt, lt→ltb, leb→le, le→leb, ==_iff, ==_refl, Bool-cases,
  Option-cases, is_some, opt_eq, opt_eq→eq, bool_eq, Time, seconds, Ident, percent, length, take,
  drop, keep_if, find_first, any_of, All, length-append, length-drop, length-take, All-append,
  All-drop, Result, ok, err, ◌>>=◌, ◌>>◌, raise_if, is_ok, Returns, Returns-map,
}
use scrap_monitoring_backend.Base.Dict.{
  Dict, lookup, insert, erase, lookup-insert, lookup-insert_self, lookup-erase, Distinct,
  erase_absent, insert_absent, insert-Distinct, erase-Distinct,
}

pub record WebRtcSession : Type 0 where
  pub session_id : Ident
  pub stream_id : Ident
  pub etag : Ident
  pub created_at : Time
  pub last_activity_at : Time
  pub upstream_location : Option Ident
  pub ice_candidates : List Ident

pub data WebRtcError : Type 0 where
  invalid_stream_id empty_offer upstream_unavailable session_not_found etag_mismatch : WebRtcError

-- The answer of the media server with status 201.
pub record Upstream : Type 0 where
  pub sdp_answer : Ident
  pub location : Option Ident
  pub etag : Option Ident

pub record WebRtcSettings : Type 0 where
  pub session_ttl_seconds : ℕ
  pub mock_fallback : Bool

abbrev pub SessionTable : Type 0
SessionTable = Dict WebRtcSession

-- `is_expired`
abbrev pub is_expired : WebRtcSettings → Time → WebRtcSession → Bool
is_expired c now s = ltb (s.last_activity_at + seconds c.session_ttl_seconds) now

-- `_purge_expired_sessions`
unfoldable pub purge : WebRtcSettings → Time → SessionTable → SessionTable
purge c now [] = []
purge c now ((k, s) ∷ d) = if is_expired c now s then purge c now d else (k, s) ∷ purge c now d

module _ (is_stream_id : Ident → Bool) (is_blank : Ident → Bool) (mock_answer : Ident)
    (mock_etag : Ident → Ident → Ident) (answer_etag : Ident → Ident) where
  abbrev pub etag_or : Option Ident → Ident → Ident
  etag_or none answer = answer_etag answer
  etag_or (some etag) answer = etag

  -- The answer, the entity tag and the location: the media server's, or the mock's.
  abbrev pub negotiated :
      WebRtcSettings → Ident → Ident → Option Upstream → Option (Ident × Ident × Option Ident)
  negotiated c session_id stream_id (some u) =
      some (u.sdp_answer, etag_or u.etag u.sdp_answer, u.location)
  negotiated c session_id stream_id none =
      if c.mock_fallback then some (mock_answer, mock_etag session_id stream_id, none) else none

  abbrev pub open_session : Ident → Ident → Ident → Option Ident → Time → WebRtcSession
  open_session session_id stream_id etag location now = record {
    session_id = session_id;
    stream_id = stream_id;
    etag = etag;
    created_at = now;
    last_activity_at = now;
    upstream_location = location;
    ice_candidates = [];
  }

  abbrev pub create_with :
      Ident
      → Ident
      → Time
      → SessionTable
      → Option (Ident × Ident × Option Ident)
      → Result WebRtcError (Ident × Ident) × SessionTable
  create_with session_id stream_id now sessions none = (err upstream_unavailable, sessions)
  create_with session_id stream_id now sessions (some (answer, etag, location)) = (
    ok (etag, answer),
    insert session_id (open_session session_id stream_id etag location now) sessions,
  )

  -- `create_session`
  unfoldable pub create_session :
      WebRtcSettings
      → Ident
      → Ident
      → Ident
      → Option Upstream
      → Time
      → SessionTable
      → Result WebRtcError (Ident × Ident) × SessionTable
  create_session c stream_id offer session_id upstream now sessions =
      let kept = purge c now sessions in
      if is_stream_id stream_id
      then (if is_blank offer
          then (err empty_offer, kept)
          else create_with session_id stream_id now kept
              (negotiated c session_id stream_id upstream))
      else (err invalid_stream_id, kept)

abbrev pub mismatches : Option Ident → Ident → Bool
mismatches none etag = false
mismatches (some if_match) etag = not (if_match == etag)

abbrev pub update_found :
    Ident
    → Ident
    → Option Ident
    → Time
    → SessionTable
    → Option WebRtcSession
    → Result {0, 0} WebRtcError Unit × SessionTable
update_found session_id ice if_match now sessions none = (err session_not_found, sessions)
update_found session_id ice if_match now sessions (some s) =
    if mismatches if_match s.etag then (err etag_mismatch, sessions) else (
      ok tt,
      insert session_id
          (record s { last_activity_at = now; ice_candidates = s.ice_candidates ++ ice ∷ [] })
          sessions,
    )

-- `update_ice_candidate`
unfoldable pub update_ice_candidate :
    WebRtcSettings
    → Ident
    → Ident
    → Option Ident
    → Time
    → SessionTable
    → Result {0, 0} WebRtcError Unit × SessionTable
update_ice_candidate c session_id ice if_match now sessions =
    let kept = purge c now sessions in
    update_found session_id ice if_match now kept (lookup session_id kept)

-- `delete_session`: an expired session that is still there is deleted too.
unfoldable pub delete_session : Ident → SessionTable → Result {0, 0} WebRtcError Unit × SessionTable
delete_session session_id sessions =
    if is_some (lookup session_id sessions)
    then (ok tt, erase session_id sessions)
    else (err session_not_found, sessions)

abbrev pub get_found :
    WebRtcSettings
    → Ident
    → Time
    → SessionTable
    → Option WebRtcSession
    → Option WebRtcSession × SessionTable
get_found c session_id now sessions none = (none, sessions)
get_found c session_id now sessions (some s) =
    if is_expired c now s then (none, erase session_id sessions) else (some s, sessions)

-- `get_session`
unfoldable pub get_session :
    WebRtcSettings → Ident → Time → SessionTable → Option WebRtcSession × SessionTable
get_session c session_id now sessions =
    get_found c session_id now sessions (lookup session_id sessions)
