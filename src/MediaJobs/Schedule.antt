-- ===== src/MediaJobs/Schedule.antt =====
-- When a job of services/media_job_service.py is tried again.
use scrap_monitoring_backend.Base.{
  ℕ, zero, suc, ◌+◌, ◌-◌, min, ◌≡◌, refl, ap, ◌≢◌, inl, inr, Bool, true, false, not, ◌&&◌, ◌||◌,
  Option, none, some, arith, ◌==◌, if◌then◌else◌, Bool-cases, opt_eq, Time, seconds, Result, ok,
  err,
}
use scrap_monitoring_backend.MediaJobs.{
  identity_mismatch, time_basis_mismatch, ClipStatus, collecting, processing, ready, failed,
  deleted, expired, blocked, accepted, MediaClipJob, MediaServiceError, ClipReceipt, MediaSettings,
  Remote, refuse, requested_event_time,
}
use scrap_monitoring_backend.MediaJobs.Process.{
  is_working, other_clip, apply_at, apply_snapshot, request, power_of_two, retry_seconds,
  failed_job, settled_job, received, counted_attempt, process_job, next_poll,
}

-- The wait after so many attempts before the one that failed: it doubles from one second to thirty.
abbrev pub backoff : ℕ → ℕ
backoff zero = 1
backoff (suc zero) = 2
backoff (suc (suc zero)) = 4
backoff (suc (suc (suc zero))) = 8
backoff (suc (suc (suc (suc zero)))) = 16
backoff (suc (suc (suc (suc (suc n))))) = 30

-- The service has finished the clip of a full answer.
abbrev pub IsFinished : Bool → ClipStatus → Type 0
IsFinished is_detail status = (is_detail ≡ true) × (status ≢ collecting) × (status ≢ processing)

-- What an attempt at `job` whose request was answered leaves. A failure for good blocks the job; one
-- that may be retried is tried again after the backoff; without an error the answer was a receipt,
-- whose status the job has, and it is polled after the interval exactly until the clip is finished.
abbrev pub Scheduled :
    MediaSettings
    → MediaClipJob
    → Time
    → Result MediaServiceError ClipReceipt
    → Option MediaServiceError
    → MediaClipJob
    → Type 0
Scheduled c job later answer none after =
    (after.attempts ≡ job.attempts + 1)
    × (after.error_code ≡ none)
    × ((r : ClipReceipt) × (answer ≡ ok r)
        × (after.status ≡ accepted r.status)
        × (IsFinished r.is_detail r.status → after.next_attempt_at ≡ none)
        × (¬ IsFinished r.is_detail r.status
            → after.next_attempt_at ≡ some (later + seconds c.poll_interval_seconds)))
Scheduled c job later answer (some e) after =
    (after.attempts ≡ job.attempts + 1)
    × (after.error_code ≡ some e.code)
    × (e.retryable ≡ true
        → (after.status ≡ job.status)
          × (after.next_attempt_at ≡ some (later + seconds (backoff job.attempts))))
    × (e.retryable ≡ false → (after.next_attempt_at ≡ none) × (after.status ≡ blocked))

retry_seconds-backoff : (n : ℕ) → retry_seconds (n + 1) ≡ backoff n
unfolding retry_seconds power_of_two
retry_seconds-backoff zero = refl
retry_seconds-backoff (suc zero) = refl
retry_seconds-backoff (suc (suc zero)) = refl
retry_seconds-backoff (suc (suc (suc zero))) = refl
retry_seconds-backoff (suc (suc (suc (suc zero)))) = refl
retry_seconds-backoff (suc (suc (suc (suc (suc n))))) =
    let five : min (suc (suc (suc (suc (suc n)))) + 1 - 1) 5 ≡ 5 = omega arith in
    ap (λ k. min 30 (power_of_two k)) five

polled :
    (d : Bool) (s : ClipStatus)
    → (IsFinished d s → (not d || is_working s) ≡ false)
      × (¬ IsFinished d s → (not d || is_working s) ≡ true)
polled false s = ((λ h. cc), (λ h. refl))
polled true collecting = ((λ h. absurd (h.1 refl)), (λ h. refl))
polled true processing = ((λ h. absurd (h.2 refl)), (λ h. refl))
polled true ready = ((λ h. refl), (λ h. absurd (h (refl, (λ e. cc), (λ e. cc)))))
polled true failed = ((λ h. refl), (λ h. absurd (h (refl, (λ e. cc), (λ e. cc)))))
polled true deleted = ((λ h. refl), (λ h. absurd (h (refl, (λ e. cc), (λ e. cc)))))
polled true expired = ((λ h. refl), (λ h. absurd (h (refl, (λ e. cc), (λ e. cc)))))

module _ (c : MediaSettings) (job : MediaClipJob) (later : Time) where
  failed_job-Scheduled :
      (e : MediaServiceError) (answer : Result MediaServiceError ClipReceipt)
      → Scheduled c job later answer (some e) (failed_job e (counted_attempt job) later)
  failed_job-Scheduled e answer = elim (Bool-cases e.retryable) [
    | inl again ↦ rw again (
      refl,
      refl,
      (λ h. (refl, ap (λ s. some (later + seconds s)) (retry_seconds-backoff job.attempts))),
      (λ h. cc),
    )
    | inr given_up ↦ rw given_up (refl, refl, (λ h. cc), (λ h. (refl, refl)))
  ]

  next_poll-IsFinished :
      (r : ClipReceipt)
      → (IsFinished r.is_detail r.status → next_poll c r later ≡ none)
        × (¬ IsFinished r.is_detail r.status
            → next_poll c r later ≡ some (later + seconds c.poll_interval_seconds))
  next_poll-IsFinished r =
      let poll = λ (b : Bool). if b then some (later + seconds c.poll_interval_seconds) else none in
      (
        (λ h. ap poll ((polled r.is_detail r.status).0 h)),
        (λ h. ap poll ((polled r.is_detail r.status).1 h)),
      )

  apply_at-Scheduled :
      (r : ClipReceipt) (expected : Result MediaServiceError (Option Time))
      → let out =
          settled_job
            (counted_attempt job)
            later
            (apply_at c (counted_attempt job) r later expected) in
        Scheduled c job later (ok r) out.0 out.1
  apply_at-Scheduled r (err e) = failed_job-Scheduled e (ok r)
  apply_at-Scheduled r (ok expected) = elim (Bool-cases (opt_eq r.event_at expected)) [
    | inl same ↦
        rw same
          (refl, refl, (r, refl, refl, (next_poll-IsFinished r).0, (next_poll-IsFinished r).1))
    | inr other ↦ rw other (failed_job-Scheduled (refuse time_basis_mismatch) (ok r))
  ]

  received-Scheduled :
      (answer : Result MediaServiceError ClipReceipt)
      → let out = received c (counted_attempt job) later answer in
        Scheduled c job later answer out.0 out.1
  unfolding apply_snapshot
  received-Scheduled (err e) = failed_job-Scheduled e (err e)
  received-Scheduled (ok r) =
      elim (Bool-cases (r.event_id == job.event_id && r.camera_id == job.camera_id)) [
        | inl same ↦ elim (Bool-cases (other_clip job.clip_id r.clip_id)) [
          | inl other ↦ rw (same, other) (failed_job-Scheduled (refuse identity_mismatch) (ok r))
          | inr known ↦
              rw (same, known) (apply_at-Scheduled r (requested_event_time c (counted_attempt job)))
        ]
        | inr foreign ↦ rw foreign (failed_job-Scheduled (refuse identity_mismatch) (ok r))
      ]

  -- An attempt is counted. One that fails for good blocks the job; one that may be retried leaves the
  -- status and is tried again 1, 2, 4, 8 or 16 seconds later after none to four attempts before it, and
  -- 30 after more; one that succeeds takes the status that the service answered, and is polled after
  -- the poll interval exactly when the answer is no full one or the service still works on the clip.
  pub process_job-Scheduled :
      (service : Remote) (now : Time)
      → let out = (process_job c service now later job).0 in
        Scheduled c job later (request c service (counted_attempt job) now).0 out.0 out.1
  unfolding process_job
  process_job-Scheduled service now =
      received-Scheduled (request c service (counted_attempt job) now).0
