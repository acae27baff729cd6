-- ===== src/MediaJobs/Identity.antt =====
-- A job of services/media_job_service.py keeps its identity, and is retried or given up.
use scrap_monitoring_backend.Base.{
  ◌+◌, ◌≡◌, refl, inl, inr, false, ◌&&◌, Option, some, arith, ◌==◌, Bool-cases, opt_eq, Time, Ident,
  Result, ok, err,
}
use scrap_monitoring_backend.MediaJobs.{
  identity_mismatch, time_basis_mismatch, MediaClipJob, MediaServiceError, ClipReceipt,
  MediaSettings, Remote, refuse, requested_event_time,
}
use scrap_monitoring_backend.MediaJobs.Process.{
  other_clip, apply_at, apply_snapshot, request, failed_job, settled_job, received, counted_attempt,
  process_job,
}

-- What an attempt keeps: the event, its camera and instant, the request's context, a known clip.

pub record Follows (job job' : MediaClipJob) : Type 0 where
  pub event : job'.event_id ≡ job.event_id
  pub camera : job'.camera_id ≡ job.camera_id
  pub instant : job'.occurred_at ≡ job.occurred_at
  pub context : job'.snapshot.time_request ≡ job.snapshot.time_request
  pub clip : (k : Ident) → job.clip_id ≡ some k → job'.clip_id ≡ some k
  pub attempts : job'.attempts ≡ job.attempts + 1

module _ (c : MediaSettings) where
  failed_job-Follows :
      (e : MediaServiceError) (job : MediaClipJob) (later : Time)
      → Follows job (failed_job e (counted_attempt job) later)
  failed_job-Follows e job later = elim (Bool-cases e.retryable) [
    | inl again ↦ rw again (record {
      event = refl;
      camera = refl;
      instant = refl;
      context = refl;
      clip = λ k h. h;
      attempts = refl;
    })
    | inr given_up ↦ rw given_up (record {
      event = refl;
      camera = refl;
      instant = refl;
      context = refl;
      clip = λ k h. h;
      attempts = refl;
    })
  ]

  apply_at-Follows :
      (job : MediaClipJob) (r : ClipReceipt) (later : Time)
      (expected : Result MediaServiceError (Option Time))
      → other_clip job.clip_id r.clip_id ≡ false
      → Follows job
          (settled_job
            (counted_attempt job)
            later
            (apply_at c (counted_attempt job) r later expected)).1
  apply_at-Follows job r later (err e) known = failed_job-Follows e job later
  apply_at-Follows job r later (ok expected) known =
      elim (Bool-cases (opt_eq r.event_at expected)) [
        | inl same ↦ rw same (record {
          event = refl;
          camera = refl;
          instant = refl;
          context = refl;
          clip = λ k h. ground (arith, h, known);
          attempts = refl;
        })
        | inr other ↦ rw other (failed_job-Follows (refuse time_basis_mismatch) job later)
      ]

  received-Follows :
      (job : MediaClipJob) (later : Time) (answer : Result MediaServiceError ClipReceipt)
      → Follows job (received c (counted_attempt job) later answer).1
  unfolding apply_snapshot
  received-Follows job later (err e) = failed_job-Follows e job later
  received-Follows job later (ok r) =
      elim (Bool-cases (r.event_id == job.event_id && r.camera_id == job.camera_id)) [
        | inl same ↦ elim (Bool-cases (other_clip job.clip_id r.clip_id)) [
          | inl other ↦ rw (same, other) (failed_job-Follows (refuse identity_mismatch) job later)
          | inr known ↦
              rw (same, known)
                (apply_at-Follows job r later (requested_event_time c (counted_attempt job)) known)
        ]
        | inr foreign ↦ rw foreign (failed_job-Follows (refuse identity_mismatch) job later)
      ]

  -- Whatever the media service answers, an attempt counts one, keeps the job's event, camera, instant
  -- and time context, and never changes a clip that is known.
  pub process_job-Follows :
      (remote : Remote) (now later : Time) (job : MediaClipJob)
      → Follows job (process_job c remote now later job).0.1
  unfolding process_job
  process_job-Follows remote now later job =
      received-Follows job later (request c remote (counted_attempt job) now).0
