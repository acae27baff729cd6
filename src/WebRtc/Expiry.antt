-- ===== src/WebRtc/Expiry.antt =====
-- Which sessions of services/webrtc_service.py are alive.
use scrap_monitoring_backend.Base.{
  ◌≤◌, ◌≡◌, refl, ap, ◌∙◌, inl, inr, Option, none, some, [], ◌∷◌, ◌++◌, arith, ◌==◌, if◌then◌else◌,
  Bool-cases, Option-cases, is_some, Time, Ident, Result, ok, err, is_ok,
}
use scrap_monitoring_backend.Base.Dict.{lookup, lookup-insert, lookup-erase, Distinct}
use scrap_monitoring_backend.WebRtc.{
  WebRtcSession, WebRtcError, session_not_found, etag_mismatch, WebRtcSettings, SessionTable,
  is_expired, purge, mismatches, update_found, update_ice_candidate, delete_session, get_found,
  get_session,
}

-- A session that has not expired.
abbrev pub live : WebRtcSettings → Time → Option WebRtcSession → Option WebRtcSession
live c now none = none
live c now (some s) = if is_expired c now s then none else some s

-- The session that a call at `now` finds.
abbrev pub seen : WebRtcSettings → Ident → Time → SessionTable → Option WebRtcSession
seen c k now sessions = live c now (lookup k sessions)

absent-purge :
    (c : WebRtcSettings) (now : Time) (k : Ident) (d : SessionTable)
    → lookup k d ≡ none
    → lookup k (purge c now d) ≡ none
unfolding lookup purge
absent-purge c now k [] e = refl
absent-purge c now k ((j, s) ∷ d) e = ground (arith, absent-purge c now k d)

lookup-purge :
    (c : WebRtcSettings) (now : Time) (k : Ident) (d : SessionTable)
    → Distinct d
    → lookup k (purge c now d) ≡ live c now (lookup k d)
unfolding lookup purge
lookup-purge c now k [] h = refl
lookup-purge c now k ((j, s) ∷ d) h =
    ground (arith, lookup-purge c now k d h.1, absent-purge c now j d h.0)

live_later :
    (c : WebRtcSettings) (now later : Time) (o : Option WebRtcSession)
    → now ≤ later
    → live c later (live c now o) ≡ live c later o
live_later c now later none h = refl
live_later c now later (some s) h = ground (arith, h)

get_found-live :
    (c : WebRtcSettings) (k : Ident) (now : Time) (sessions : SessionTable)
    (o : Option WebRtcSession)
    → (get_found c k now sessions o).0 ≡ live c now o
get_found-live c k now sessions none = refl
get_found-live c k now sessions (some s) = ground arith

get_session-seen :
    (c : WebRtcSettings) (k : Ident) (now : Time) (sessions : SessionTable)
    → (get_session c k now sessions).0 ≡ seen c k now sessions
unfolding get_session
get_session-seen c k now sessions = get_found-live c k now sessions (lookup k sessions)

-- The update that `update_ice_candidate` makes of a session that it finds.
abbrev pub refreshed : Ident → Option Ident → Time → Option WebRtcSession → Option WebRtcSession
refreshed ice if_match now none = none
refreshed ice if_match now (some s) =
    if mismatches if_match s.etag
    then some s
    else some (record s { last_activity_at = now; ice_candidates = s.ice_candidates ++ ice ∷ [] })

-- Whether `update_ice_candidate` succeeds.
abbrev pub answers : Option Ident → Option WebRtcSession → Result {0, 0} WebRtcError Unit
answers if_match none = err session_not_found
answers if_match (some s) = if mismatches if_match s.etag then err etag_mismatch else ok tt

update_found-lookup :
    (c : WebRtcSettings) (k ice j : Ident) (if_match : Option Ident) (now : Time)
    (sessions : SessionTable) (o : Option WebRtcSession)
    → lookup k sessions ≡ o
    → let out = update_found k ice if_match now sessions o in
      (out.0 ≡ answers if_match o)
      × (lookup j out.1 ≡ (if k == j then refreshed ice if_match now o else lookup j sessions))
update_found-lookup c k ice j if_match now sessions none e = (refl, ground (arith, e))
update_found-lookup c k ice j if_match now sessions (some s) e =
    elim (Bool-cases (mismatches if_match s.etag)) [
      | inl wrong ↦ rw wrong (refl, ground (arith, e))
      | inr right ↦ rw right (refl, lookup-insert j k _ sessions)
    ]

live-refreshed :
    (c : WebRtcSettings) (k j : Ident) (x y : Option WebRtcSession) (later : Time)
    → live c later (if k == j then x else y) ≡ (if k == j then live c later x else live c later y)
live-refreshed c k j x y later = ground arith

-- A candidate at `now` is answered by the session that is alive then: it is refused where there is
-- none or the entity tag differs. Later calls find that session with the candidate and its activity at
-- `now`, and every other session as before, although expired ones are purged; and no call finds an
-- expired session. The identifiers in the table are distinct, and later is not before `now`.
pub update_ice_candidate-seen :
    (c : WebRtcSettings) (k ice j : Ident) (if_match : Option Ident) (now later : Time)
    (sessions : SessionTable)
    → Distinct sessions
    → now ≤ later
    → let out = update_ice_candidate c k ice if_match now sessions in
      (out.0 ≡ answers if_match (seen c k now sessions))
      × ((get_session c j later out.1).0 ≡ (
          if k == j
          then live c later (refreshed ice if_match now (seen c k now sessions))
          else seen c j later sessions))
unfolding update_ice_candidate
update_ice_candidate-seen c k ice j if_match now later sessions h after =
    let kept = purge c now sessions in
    let (answered, found) = update_found-lookup c k ice j if_match now kept (lookup k kept) refl in
    let at = lookup-purge c now k sessions h in
    (
      answered ∙ ap (answers if_match) at,
      get_session-seen c j later _
          ∙ ap (live c later) found
          ∙ live-refreshed c k j _ _ later
          ∙ ap
              (λ o.
                if k == j
                then live c later (refreshed ice if_match now o)
                else live c later (lookup j kept))
              at
          ∙ ap
              (λ o.
                if k == j
                then live c later (refreshed ice if_match now (seen c k now sessions))
                else o)
              (ap (live c later) (lookup-purge c now j sessions h)
                ∙ live_later c now later (lookup j sessions) after),
    )

lookup-delete_session :
    (k j : Ident) (sessions : SessionTable)
    → (is_ok (delete_session k sessions).0 ≡ is_some (lookup k sessions))
      × (lookup j (delete_session k sessions).1 ≡ (if k == j then none else lookup j sessions))
unfolding delete_session
lookup-delete_session k j sessions = elim (Bool-cases (is_some (lookup k sessions))) [
  | inl there ↦ rw there (refl, lookup-erase j k sessions)
  | inr absent ↦ rw absent (refl, ground (arith, absent, Option-cases (lookup k sessions)))
]

-- After a deletion no call finds the session, and every other is found as before; the deletion is
-- refused exactly where the table has no such session.
pub delete_session-seen :
    (c : WebRtcSettings) (k j : Ident) (now : Time) (sessions : SessionTable)
    → let out = delete_session k sessions in
      (is_ok out.0 ≡ is_some (lookup k sessions))
      × ((get_session c j now out.1).0 ≡ (if k == j then none else seen c j now sessions))
delete_session-seen c k j now sessions =
    let (answered, found) = lookup-delete_session k j sessions in
    (answered, get_session-seen c j now _ ∙ ap (live c now) found ∙ live-refreshed c k j none _ now)
