-- ===== src/MediaJobs/Requests.antt =====
-- Which requests an attempt of services/media_job_service.py sends, and when the next one comes.
use scrap_monitoring_backend.Base.{
  ◌+◌, ◌≤◌, ◌<◌, ◌≡◌, refl, inl, inr, true, not, ◌&&◌, Option, none, some, arith, ltb,
  if◌then◌else◌, Bool-cases, is_some, opt_eq, Time, seconds, Ident, All, Result, ok, err,
}
use scrap_monitoring_backend.MediaJobs.{
  is_auto, ErrorCode, MediaClipJob, MediaServiceError, ClipReceipt, MediaSettings, Remote, Call,
  get_call, list_call, create_call, requested_event_time, automatic_request_block,
}
use scrap_monitoring_backend.MediaJobs.Process.{
  is_source_changed, recovered, create, ask, request_with, request, counted_attempt, process_job,
}

-- A first request of an automatic job is within its source, its switch and its delay.
abbrev pub MayCreate : MediaSettings → MediaClipJob → Time → Type 0
MayCreate c job now =
    (job.clip_id ≡ none)
    × (is_auto job.category ≡ true
        → (opt_eq job.snapshot.v2_context c.clip_context ≡ true)
          × (c.v2_event_clips_enabled ≡ true)
          × (job.occurred_at ≤ now)
          × (now ≤ job.occurred_at + seconds c.max_delay_seconds))

-- Each request is a GET of the known clip, or, without one, a list after a first attempt or a POST.
abbrev pub Permitted : MediaSettings → MediaClipJob → Time → Call → Type 0
Permitted c job now get_call = is_some job.clip_id ≡ true
Permitted c job now list_call =
    (job.clip_id ≡ none) × (is_auto job.category ≡ true) × (1 < job.attempts)
Permitted c job now create_call = MayCreate c job now

module _ (c : MediaSettings) (service : Remote) where
  recovered-calls :
      (job : MediaClipJob) (now : Time) (code : ErrorCode)
      (answer : Result MediaServiceError (Option ClipReceipt))
      → Permitted c job now list_call
      → All (Permitted c job now) (recovered code answer).1
  recovered-calls job now code (err e) h = (h, tt)
  recovered-calls job now code (ok none) h = (h, tt)
  recovered-calls job now code (ok (some r)) h = (h, tt)

  create-calls :
      (job : MediaClipJob) (now : Time) (block : Option ErrorCode)
      → job.clip_id ≡ none
      → (if is_auto job.category then automatic_request_block c job now else none) ≡ block
      → All (Permitted c job now) (create service block job.attempts).1
  unfolding automatic_request_block
  create-calls job now none new verdict = ((new, λ auto. ground (arith, auto, verdict)), tt)
  create-calls job now (some code) new verdict =
      elim (Bool-cases (ltb 1 job.attempts && not (is_source_changed code))) [
        | inl again ↦ rw again (
            recovered-calls job now code service.list_clips
              (new, ground (arith, verdict), ground (arith, again)))
        | inr first ↦ rw first tt
      ]

  ask-calls :
      (job : MediaClipJob) (now : Time) (clip : Option Ident)
      → job.clip_id ≡ clip
      → All (Permitted c job now) (ask c service job now clip).1
  ask-calls job now (some clip) e = (ground (arith, e), tt)
  ask-calls job now none e = create-calls job now _ e refl

  request_with-calls :
      (job : MediaClipJob) (now : Time) (time : Result MediaServiceError (Option Time))
      → All (Permitted c job now) (request_with c service job now time).1
  request_with-calls job now (err e) = tt
  request_with-calls job now (ok event_at) = ask-calls job now job.clip_id refl

  -- Every request that an attempt sends is permitted: a GET only for a known clip, a list only to
  -- recover an automatic job after a first attempt, and a POST only without a known clip and, for an
  -- automatic job, with its source unchanged, its switch on and its delay not passed.
  pub process_job-Permitted :
      (now later : Time) (job : MediaClipJob)
      → All (Permitted c (counted_attempt job) now) (process_job c service now later job).1
  unfolding process_job request
  process_job-Permitted now later job =
      request_with-calls (counted_attempt job) now (requested_event_time c (counted_attempt job))
