-- ===== src/MediaJobs/Tests.antt =====
-- Runs of the model of services/media_job_service.py at concrete inputs.
use scrap_monitoring_backend.Base.{◌≡◌, refl, true, false, some, seconds, All, ok, err}
use scrap_monitoring_backend.MediaJobs.{
  collecting, alert, upstream, MediaClipJob, MediaServiceError, ClipReceipt, MediaSettings, Remote,
  new_job, requested_event_time,
}
use scrap_monitoring_backend.MediaJobs.Process.{
  apply_snapshot, request, power_of_two, retry_seconds, counted_attempt, process_job,
}
use scrap_monitoring_backend.MediaJobs.Identity.{Follows, process_job-Follows}
use scrap_monitoring_backend.MediaJobs.Requests.{Permitted, process_job-Permitted}
use scrap_monitoring_backend.MediaJobs.Schedule.{Scheduled, process_job-Scheduled}

abbrev settings : MediaSettings
settings = record {
  service_configured = true;
  camera_id = 1;
  pit_id = 2;
  poll_interval_seconds = 2;
  v2_event_clips_enabled = true;
  max_delay_seconds = 30;
  source_token = 3;
  clip_context = some 4;
}

abbrev timeout : MediaServiceError
timeout = record { code = upstream 504; retryable = true }

abbrev clip : ClipReceipt
clip = record {
  clip_id = 9;
  event_id = 5;
  camera_id = 1;
  status = collecting;
  event_at = some (seconds 10);
  is_detail = false;
  metadata = 0;
}

abbrev service : Remote
service = record { get_clip = ok clip; list_clips = ok (some clip); create_clip = err timeout }

abbrev job : MediaClipJob
job = new_job settings 5 2 alert (seconds 10) true (seconds 11)

-- A timeout is retried, first after one second.
first_attempt :
    (process_job settings service (seconds 12) (seconds 13) job).0.1.next_attempt_at
    ≡ some (seconds 14)
unfolding process_job request requested_event_time apply_snapshot retry_seconds power_of_two
first_attempt = refl

process_job-Follows_example :
    Follows job (process_job settings service (seconds 12) (seconds 13) job).0.1
process_job-Follows_example = process_job-Follows settings service (seconds 12) (seconds 13) job

process_job-Permitted_example :
    All
      (Permitted settings (counted_attempt job) (seconds 12))
      (process_job settings service (seconds 12) (seconds 13) job).1
process_job-Permitted_example = process_job-Permitted settings service (seconds 12) (seconds 13) job

process_job-Scheduled_example :
    Scheduled settings job
      (seconds 13)
      (request settings service (counted_attempt job) (seconds 12)).0
      (process_job settings service (seconds 12) (seconds 13) job).0.0
      (process_job settings service (seconds 12) (seconds 13) job).0.1
process_job-Scheduled_example = process_job-Scheduled settings job (seconds 13) service (seconds 12)

-- A clip that the service works on is polled after the interval.
polled_again :
    (process_job settings
      (record service { create_clip = ok clip })
      (seconds 12)
      (seconds 13)
      job).0.1.next_attempt_at
    ≡ some (seconds 15)
unfolding process_job request requested_event_time apply_snapshot retry_seconds power_of_two
polled_again = refl
