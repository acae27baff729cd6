-- ===== src/WebRtc/Tests.antt =====
-- Runs of the model of services/webrtc_service.py at concrete inputs.
use scrap_monitoring_backend.Base.{
  ◌+◌, ◌≡◌, refl, true, false, none, some, [], ◌∷◌, arith, ◌==◌, if◌then◌else◌, is_some, seconds,
  ok, is_ok,
}
use scrap_monitoring_backend.Base.Dict.{lookup, Distinct}
use scrap_monitoring_backend.WebRtc.{
  WebRtcSettings, SessionTable, purge, open_session, create_session, update_ice_candidate,
  delete_session, get_session,
}
use scrap_monitoring_backend.WebRtc.Expiry.{
  live, seen, refreshed, answers, update_ice_candidate-seen, delete_session-seen,
}

abbrev settings : WebRtcSettings
settings = record { session_ttl_seconds = 60; mock_fallback = true }

abbrev table : SessionTable
table =
    (1, open_session (λ x. true) (λ x. false) 0 (λ x y. x + y) (λ x. x) 1 2 3 none (seconds 5)) ∷ []

table-Distinct : Distinct table
unfolding lookup
table-Distinct = (refl, tt)

-- A session of the mock is found until its time to live has passed.
created :
    (create_session
      (λ x. true)
      (λ x. false)
      0
      (λ x y. x + y)
      (λ x. x)
      settings
      2
      8
      4
      none
      (seconds 6)
      table).0
    ≡ ok (6, 0)
unfolding create_session purge
created = refl

update_ice_candidate-seen_example :
    let out = update_ice_candidate settings 1 9 (some 3) (seconds 10) table in
    (out.0 ≡ answers (some 3) (seen settings 1 (seconds 10) table))
    × ((get_session settings 1 (seconds 70) out.1).0 ≡ (
        if 1 == 1
        then live settings
            (seconds 70)
            (refreshed 9 (some 3) (seconds 10) (seen settings 1 (seconds 10) table))
        else seen settings 1 (seconds 70) table))
update_ice_candidate-seen_example =
    update_ice_candidate-seen settings 1 9 1 (some 3) (seconds 10) (seconds 70) table table-Distinct
      (ground arith)

delete_session-seen_example :
    let out = delete_session 1 table in
    (is_ok out.0 ≡ is_some (lookup 1 table))
    × ((get_session settings 1 (seconds 70) out.1).0
        ≡ (if 1 == 1 then none else seen settings 1 (seconds 70) table))
delete_session-seen_example = delete_session-seen settings 1 1 (seconds 70) table
