-- ===== src/Lib.antt =====
-- The scrap monitoring backend (src/app): a FastAPI service that takes measurements of scrap pits from
-- edge devices, judges how full the pits are, detects collections, raises alerts and serves a
-- dashboard.
--
-- How the parts interact. A device posts messages to the edge receiver, which keeps each message and
-- its artifacts once. A worker sweeps the monitored sources: from the current snapshot of a source it
-- derives the level of the pit, with its alerts and alert episodes, and then the collections. The
-- dashboard reads these tables under a session, and pages through long event lists that are frozen in
-- memory. A forecast reads the same snapshot; administrators replace the alert settings that the sweeps
-- judge by. An older path judges plain metric posts in memory.
--
-- Files and the code that they model, by paths from the repository's root:
--   Base                  shared names, tests, lists, results, and a Python dict (Base.Dict)
--   EdgeReceiver          src/app/services/edge_v2_service.py: validate_scope, store_artifacts (Accept),
--                         accept_message (Accept); Receipts is about repeated and racing messages
--   Operations            src/app/services/edge_v2_operations.py: process_source; the inputs and tests
--                         are in Operations and Operations/Data, the writes in Sweep, the handler in
--                         Source
--     Episode             src/app/services/alert_lifecycle_service.py: invalidate_episode,
--                         advance_episode, record_alert
--     Starts              src/app/services/active_health_service.py: record_starts
--   HealthConditions      src/app/services/active_health_service.py: health_conditions
--   CollectionDetection   src/app/services/collection_detection_service.py: advance (Advance),
--                         invalidate, sustained_reference, process_collection_source (Source)
--   StateEngine           src/app/services/state_engine.py: evaluate_state, reset_pit_state
--   Sessions              src/app/services/session_service.py: authenticate, create_session,
--                         get_session, delete_session, reset_password
--   EventPageStore        src/app/services/event_page_store.py: begin, end, _prune, get, put
--   MediaJobs             src/app/services/media_job_service.py: enqueue_event_clip, requested_event_time;
--                         apply_snapshot and process_job (Process); automatic_request_block of
--                         src/app/services/v2_event_clip_service.py
--   ObservationWindow     src/app/services/observation_window.py: observation_slots
--   Projection            src/app/services/edge_v2_projection.py: project_input (Input), its filter, its
--                         minute rows (Minutes); project for status reports (Status); device_status of
--                         src/app/services/edge_v2_service.py (Device)
--   CompactHistory        src/app/services/compact_history_stream.py: whole minutes and groups;
--                         src/app/services/compact_history_summary.py (Summary), which also fills the
--                         summary column of the minute rows
--   AlertSettings         src/app/services/alert_policy_service.py: replace_settings and the reading of
--                         settings; record_change of src/app/services/settings_history_service.py
--   Forecast              src/app/services/fill_forecast_service.py: recent_points, project_trend;
--                         fill_forecast (Answer)
--   StablePages           src/app/services/stable_event_pages.py: stable_event_page, _freeze, _page
--   Notifications         src/app/services/notification_service.py: the list, update_notification,
--                         mark_all_as_read
--   WebRtc                src/app/services/webrtc_service.py: the session table and its expiry
-- A child module named for what it shows (Cooldown, EventOrder, Bounds) holds lemmas about its
-- parent's definitions; Tests holds runs at concrete inputs.
--
-- Representation. Instants and durations are natural numbers of microseconds, as datetime counts
-- them. Strings that the code only compares are identifiers, natural numbers; a pair (site_id, edge_id)
-- is one of them. Percentages count thousandths. Heights count thousandths of a centimetre. A number
-- is never negative where the code's schema says so; a difference that the code compares with a bound
-- is written as a sum on the other side. An assert that fails, or a loop that does not end on the
-- values drawn, is `none`; a raised error is `err`. A database transaction is a function from the rows
-- to the rows; what a rollback undoes is not in its result.
--
-- Parameters. SHA-256 (`digest`, `token_digest`, `detection_id`), Argon2id (`verify`, `hash`), the
-- clock, drawn tokens and identifiers, and what other processes commit meanwhile are arguments.
--
-- Bounds. Loops are structural recursion on the list that they consume, with the source's test at each
-- step; the source's three attempts to store artifacts are the number 3. No fuel is chosen anywhere
-- else.
--
-- Not modelled: HTTP routing, database sessions and migrations, background task scheduling, the media
-- client, time range exports and history reports; the SQL that selects event rows; titles and
-- messages; and the building of the snapshot that the sweeps and the forecast read, which is their
-- argument.
pub mod Base
pub mod StateEngine
pub mod CollectionDetection
pub mod EventPageStore
pub mod Operations
pub mod Sessions
pub mod EdgeReceiver
pub mod MediaJobs
pub mod WebRtc
pub mod ObservationWindow
pub mod Projection
pub mod CompactHistory
pub mod AlertSettings
pub mod Forecast
pub mod StablePages
pub mod Notifications
pub mod HealthConditions
