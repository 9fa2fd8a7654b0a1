-- ===== src/Examples/Workers.antt =====
-- Runs of the task on the sample notification.
use tiber.Prelude.{◌≡◌, ◌≤◌, ◌*◌, if◌then◌else◌, refl, some, none, false, arith, min}
use tiber.Result.{other}
use tiber.Time.{utc}
use tiber.Notification.Lifecycle.{written, mark_failed}
use tiber.Store.{Store, save}
use tiber.Worker.{
  Settings, Job, exponential_backoff, dead_lettered, retried, is_exhausted, next_attempt,
  exhausted_text, retry_or_dead_letter,
}
use tiber.Worker.Backoff.{exponential_backoff-bounds}
use tiber.Worker.Retries.{is_retried, run_job, run_job-ends}
use tiber.Worker.Failure.{retry_or_dead_letter-eq-if}
use tiber.Examples.{row, ports, store, row-IsConsistent}

abbrev settings : Settings
settings = record {
  retry_max_attempts = 4;
  retry_base_delay = 30;
  retry_backoff_factor = 2;
  retry_max_delay = 3_600;
  processing_lease = 300_000_000;
  error_text = λ e. "it broke";
}

abbrev job : Job
job = record {
  notification_id = 7;
  project_id = 1;
  send_at = none;
  retry = record { attempt = 4; max_attempts = 4 };
}

exponential_backoff-bounds_example :
    (exponential_backoff 0 30 2 3_600 ≡ min 3_600 30)
    × (exponential_backoff 3 30 2 3_600 ≡ min 3_600 (2 * exponential_backoff 2 30 2 3_600))
    × (exponential_backoff 2 30 2 3_600 ≤ exponential_backoff 9 30 2 3_600)
    × (exponential_backoff 9 30 2 3_600 ≤ 3_600)
exponential_backoff-bounds_example =
    exponential_backoff-bounds 2 9 30 2 3_600 (ground arith) (ground arith)

run_job-ends_example :
    is_retried ((run_job 1 (λ i. 5_000) (λ i. ports) settings 0 job store).0) ≡ false
run_job-ends_example = run_job-ends 1 (λ i. 5_000) (λ i. ports) settings 0 job store (ground arith)

retry_or_dead_letter-eq-if_example : retry_or_dead_letter settings 5_000 job other store ≡ (
    if is_exhausted job.retry
    then (
      dead_lettered other,
      save (written 5_000 (mark_failed (exhausted_text settings other)) row) store,
    )
    else (retried (exponential_backoff 4 30 2 3_600) (next_attempt job.retry), store))
unfolding tiber.Store.get_by_id
retry_or_dead_letter-eq-if_example =
    retry_or_dead_letter-eq-if settings 5_000 job other store row refl refl row-IsConsistent refl

abbrev later_job : Job
later_job = record job { send_at = some (utc 9_000) }
