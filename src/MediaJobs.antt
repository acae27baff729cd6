-- ===== src/MediaJobs.antt =====
-- services/media_job_service.py, with `automatic_request_block` of
-- services/v2_event_clip_service.py: requests for a clip of an event, and their polling.
-- The answers of the media service and the clock are arguments. The jobs are those of events; the
-- export of a time range (services/event_export_service.py) has further checks of its own.
pub mod Process
pub mod Identity
pub mod Requests
pub mod Schedule
mod Tests
use scrap_monitoring_backend.Base.{
  ℕ, zero, suc, ◌+◌, ◌-◌, ◌*◌, ◌/◌, ◌%◌, ◌≤◌, ◌<◌, min, max, ◌≡◌, refl, sym, ap, ◌∙◌, ◌≢◌, ◌↔◌, ◌⊎◌,
  inl, inr, Bool, true, false, not, ◌&&◌, ◌||◌, Option, none, some, List, [], ◌∷◌, ◌++◌, map, arith,
  ltb, leb, ◌==◌, if◌then◌else◌, ltb→lt, lt→ltb, leb→le, le→leb, ==_iff, ==_refl, Bool-cases,
  Option-cases, is_some, opt_eq, opt_eq→eq, bool_eq, Time, seconds, Ident, percent, length, take,
  drop, keep_if, find_first, any_of, All, length-append, length-drop, length-take, All-append,
  All-drop, Result, ok, err, ◌>>=◌, ◌>>◌, raise_if, is_ok, Returns, Returns-map,
}

pub data ClipStatus : Type 0 where
  collecting processing ready failed deleted expired : ClipStatus

pub data JobStatus : Type 0 where
  pending : JobStatus
  blocked : JobStatus
  accepted : ClipStatus → JobStatus

pub data Category : Type 0 where
  alert collection error v2_alert v2_collection v2_error : Category

-- `job.category in AUTO_CATEGORIES`
abbrev pub is_auto : Category → Bool
is_auto alert = false
is_auto collection = false
is_auto error = false
is_auto v2_alert = true
is_auto v2_collection = true
is_auto v2_error = true

-- `_eventTimeRequest`
pub record TimeRequest : Type 0 where
  pub version : ℕ
  pub event_at : Time
  pub source_token : Ident

-- What the job's snapshot holds: the request's context, the v2 context, and the remote metadata.
pub record JobSnapshot : Type 0 where
  pub time_request : Option TimeRequest
  pub v2_context : Option Ident
  pub metadata : Option Ident

pub data ErrorCode : Type 0 where
  time_context_invalid source_changed identity_mismatch time_basis_mismatch clips_disabled
        window_expired :
      ErrorCode
  upstream : ℕ → ErrorCode

pub record MediaClipJob : Type 0 where
  pub event_id : Ident
  pub camera_id : Ident
  pub pit_id : Ident
  pub category : Category
  pub occurred_at : Time
  pub clip_id : Option Ident
  pub status : JobStatus
  pub attempts : ℕ
  pub next_attempt_at : Option Time
  pub error_code : Option ErrorCode
  pub snapshot : JobSnapshot

pub record MediaServiceError : Type 0 where
  pub code : ErrorCode
  pub retryable : Bool

-- `ClipReceipt`, and whether it is a `ClipDetail`.
pub record ClipReceipt : Type 0 where
  pub clip_id : Ident
  pub event_id : Ident
  pub camera_id : Ident
  pub status : ClipStatus
  pub event_at : Option Time
  pub is_detail : Bool
  pub metadata : Ident

-- The settings; `source_token` is `event_time_source`, `clip_context` the digest of that function.
pub record MediaSettings : Type 0 where
  pub service_configured : Bool
  pub camera_id : Ident
  pub pit_id : Ident
  pub poll_interval_seconds : ℕ
  pub v2_event_clips_enabled : Bool
  pub max_delay_seconds : ℕ
  pub source_token : Ident
  pub clip_context : Option Ident

-- The service's answers to a GET of the clip, a list of the event's clips, and a POST.
pub record Remote : Type 0 where
  pub get_clip : Result MediaServiceError ClipReceipt
  pub list_clips : Result MediaServiceError (Option ClipReceipt)
  pub create_clip : Result MediaServiceError ClipReceipt

-- The requests that were sent.
pub data Call : Type 0 where
  get_call list_call create_call : Call

abbrev pub refuse : ErrorCode → MediaServiceError
refuse code = record { code = code; retryable = false }

-- `event_time_utc`: whole milliseconds.
abbrev pub event_time : Time → Time
event_time t = t / 1000 * 1000

-- `enqueue_event_clip`: a job for the configured pit, once for an event and camera.
unfoldable pub find_job : Ident → Ident → List MediaClipJob → Option MediaClipJob
find_job event_id camera_id jobs =
    find_first (λ j. j.event_id == event_id && j.camera_id == camera_id) jobs

abbrev pub new_job : MediaSettings → Ident → Ident → Category → Time → Bool → Time → MediaClipJob
new_job c event_id pit_id category occurred_at use_event_time now = record {
  event_id = event_id;
  camera_id = c.camera_id;
  pit_id = pit_id;
  category = category;
  occurred_at = occurred_at;
  clip_id = none;
  status = pending;
  attempts = 0;
  next_attempt_at = some now;
  error_code = none;
  snapshot = record {
    time_request =
        if use_event_time
        then some (record {
          version = 1;
          event_at = event_time occurred_at;
          source_token = c.source_token;
        })
        else none;
    v2_context = none;
    metadata = none;
  };
}

unfoldable pub enqueue_event_clip :
    MediaSettings
    → Ident
    → Ident
    → Category
    → Time
    → Bool
    → Time
    → List MediaClipJob
    → Option MediaClipJob × List MediaClipJob
unfolding find_job
enqueue_event_clip c event_id pit_id category occurred_at use_event_time now jobs =
    if c.service_configured && pit_id == c.pit_id
    then (elim (find_job event_id c.camera_id jobs) [
      | some job ↦ (some job, jobs)
      | none ↦
          (let job = new_job c event_id pit_id category occurred_at use_event_time now in
            (some job, jobs ++ job ∷ []))
    ])
    else (none, jobs)

-- `requested_event_time`
abbrev pub time_of :
    MediaSettings → Time → Option TimeRequest → Result MediaServiceError (Option Time)
time_of c occurred_at none = ok none
time_of c occurred_at (some r) =
    if r.version == 1
    then (if r.source_token == c.source_token
        then (if r.event_at == event_time occurred_at
            then ok (some (event_time occurred_at))
            else err (refuse time_context_invalid))
        else err (refuse source_changed))
    else err (refuse time_context_invalid)

unfoldable pub requested_event_time :
    MediaSettings → MediaClipJob → Result MediaServiceError (Option Time)
requested_event_time c job = time_of c job.occurred_at job.snapshot.time_request

-- `automatic_request_block`
unfoldable pub automatic_request_block : MediaSettings → MediaClipJob → Time → Option ErrorCode
automatic_request_block c job now =
    if is_some c.clip_context
      && job.pit_id == c.pit_id
      && job.camera_id == c.camera_id
      && opt_eq job.snapshot.v2_context c.clip_context
    then (if c.v2_event_clips_enabled
        then (if leb job.occurred_at now && leb now (job.occurred_at + seconds c.max_delay_seconds)
            then none
            else some window_expired)
        else some clips_disabled)
    else some source_changed
