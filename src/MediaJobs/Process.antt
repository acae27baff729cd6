-- ===== src/MediaJobs/Process.antt =====
-- `apply_snapshot` and `process_job` of services/media_job_service.py.
use scrap_monitoring_backend.Base.{
  ℕ, zero, suc, ◌+◌, ◌-◌, ◌*◌, min, Bool, true, false, not, ◌&&◌, ◌||◌, Option, none, some, List,
  [], ◌∷◌, ltb, ◌==◌, if◌then◌else◌, opt_eq, Time, seconds, Ident, Result, ok, err,
}
use scrap_monitoring_backend.MediaJobs.{
  time_context_invalid, source_changed, identity_mismatch, time_basis_mismatch, clips_disabled,
  window_expired, upstream, ClipStatus, collecting, processing, ready, failed, deleted, expired,
  blocked, accepted, is_auto, JobSnapshot, ErrorCode, MediaClipJob, MediaServiceError, ClipReceipt,
  MediaSettings, Remote, Call, get_call, list_call, create_call, refuse, requested_event_time,
  automatic_request_block,
}

abbrev pub is_working : ClipStatus → Bool
is_working collecting = true
is_working processing = true
is_working ready = false
is_working failed = false
is_working deleted = false
is_working expired = false

-- A receipt is polled again, and a detail while the service works on the clip.
abbrev pub next_poll : MediaSettings → ClipReceipt → Time → Option Time
next_poll c r now =
    if not r.is_detail || is_working r.status
    then some (now + seconds c.poll_interval_seconds)
    else none

-- The snapshot keeps the request's context, and an automatic job its v2 context.
abbrev pub merged : MediaClipJob → ClipReceipt → JobSnapshot
merged job r = record {
  time_request = job.snapshot.time_request;
  v2_context = if is_auto job.category then job.snapshot.v2_context else none;
  metadata = some r.metadata;
}

abbrev pub applied : MediaSettings → MediaClipJob → ClipReceipt → Time → MediaClipJob
applied c job r now = record job {
  clip_id = some r.clip_id;
  status = accepted r.status;
  snapshot = merged job r;
  error_code = none;
  next_attempt_at = next_poll c r now;
}

abbrev pub other_clip : Option Ident → Ident → Bool
other_clip none clip = false
other_clip (some known) clip = not (known == clip)

abbrev pub apply_at :
    MediaSettings
    → MediaClipJob
    → ClipReceipt
    → Time
    → Result MediaServiceError (Option Time)
    → Result MediaServiceError MediaClipJob
apply_at c job r now (err e) = err e
apply_at c job r now (ok expected) =
    if opt_eq r.event_at expected
    then ok (applied c job r now)
    else err (refuse time_basis_mismatch)

unfoldable pub apply_snapshot :
    MediaSettings → MediaClipJob → ClipReceipt → Time → Result MediaServiceError MediaClipJob
apply_snapshot c job r now =
    if r.event_id == job.event_id && r.camera_id == job.camera_id
    then (if other_clip job.clip_id r.clip_id
        then err (refuse identity_mismatch)
        else apply_at c job r now (requested_event_time c job))
    else err (refuse identity_mismatch)

abbrev pub Answer : Type 0
Answer = Result MediaServiceError ClipReceipt × List Call

abbrev pub is_source_changed : ErrorCode → Bool
is_source_changed source_changed = true
is_source_changed time_context_invalid = false
is_source_changed identity_mismatch = false
is_source_changed time_basis_mismatch = false
is_source_changed clips_disabled = false
is_source_changed window_expired = false
is_source_changed (upstream n) = false

-- A lost answer to a POST is recovered by a list, never by a late POST.
abbrev pub recovered : ErrorCode → Result MediaServiceError (Option ClipReceipt) → Answer
recovered code (err e) = (err e, list_call ∷ [])
recovered code (ok none) = (err (refuse code), list_call ∷ [])
recovered code (ok (some r)) = (ok r, list_call ∷ [])

abbrev pub create : Remote → Option ErrorCode → ℕ → Answer
create remote none attempts = (remote.create_clip, create_call ∷ [])
create remote (some code) attempts =
    if ltb 1 attempts && not (is_source_changed code)
    then recovered code remote.list_clips
    else (err (refuse code), [])

abbrev pub ask : MediaSettings → Remote → MediaClipJob → Time → Option Ident → Answer
ask c remote job now (some clip) = (remote.get_clip, get_call ∷ [])
ask c remote job now none =
    create remote (if is_auto job.category then automatic_request_block c job now else none)
      job.attempts

abbrev pub request_with :
    MediaSettings → Remote → MediaClipJob → Time → Result MediaServiceError (Option Time) → Answer
request_with c remote job now (err e) = (err e, [])
request_with c remote job now (ok event_at) = ask c remote job now job.clip_id

-- The requests of a job whose attempt is counted_attempt.
unfoldable pub request : MediaSettings → Remote → MediaClipJob → Time → Answer
request c remote job now = request_with c remote job now (requested_event_time c job)

unfoldable pub power_of_two : ℕ → ℕ
power_of_two zero = 1
power_of_two (suc n) = 2 * power_of_two n

unfoldable pub retry_seconds : ℕ → ℕ
retry_seconds attempts = min 30 (power_of_two (min (attempts - 1) 5))

-- The handler of `MediaServiceError`.
abbrev pub failed_job : MediaServiceError → MediaClipJob → Time → MediaClipJob
failed_job e job now =
    if e.retryable
    then record job {
      error_code = some e.code;
      next_attempt_at = some (now + seconds (retry_seconds job.attempts));
    }
    else record job { error_code = some e.code; next_attempt_at = none; status = blocked }

abbrev pub settled_job :
    MediaClipJob
    → Time
    → Result MediaServiceError MediaClipJob
    → Option MediaServiceError × MediaClipJob
settled_job job now (err e) = (some e, failed_job e job now)
settled_job job now (ok job') = (none, job')

abbrev pub received :
    MediaSettings
    → MediaClipJob
    → Time
    → Result MediaServiceError ClipReceipt
    → Option MediaServiceError × MediaClipJob
received c job now (err e) = (some e, failed_job e job now)
received c job now (ok r) = settled_job job now (apply_snapshot c job r now)

abbrev pub counted_attempt : MediaClipJob → MediaClipJob
counted_attempt job = record job { attempts = job.attempts + 1 }

-- `process_job`: the error that it raises after recording it, the job, and the requests it sent.
-- `now` is the clock at the guard, `later` at the write.
unfoldable pub process_job :
    MediaSettings
    → Remote
    → Time
    → Time
    → MediaClipJob
    → (Option MediaServiceError × MediaClipJob) × List Call
process_job c remote now later job =
    let (answer, calls) = request c remote (counted_attempt job) now in
    (received c (counted_attempt job) later answer, calls)
