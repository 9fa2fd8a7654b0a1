-- ===== src/Worker/Failure.antt =====
-- What the task records of a failure (backend/src/tiber/worker/tasks/notification.py).
use tiber.Prelude.{
  ℕ, String, some, true, false, ◌≡◌, ◌⊎◌, inl, inr, refl, is_empty, if◌then◌else◌, Bool-cases,
}
use tiber.Result.{Error, ok}
use tiber.Notification.{Notification, is_open}
use tiber.Notification.Invariant.{IsConsistent}
use tiber.Notification.Lifecycle.{written, mark_failed}
use tiber.Notification.Direct.{mark_failed_ok}
use tiber.Store.{Store, get_by_id, save}
use tiber.Delivery.{Ports}
use tiber.Delivery.Idle.{IsIdle, process-idle}
use tiber.Worker.{
  Settings, Job, dead_lettered, retried, is_exhausted, next_attempt, exponential_backoff, is_later,
  exhausted_text, mark_permanent_failure, retry_or_dead_letter, process_notification,
}

-- For a row of the project that is consistent, and a reason that is not empty, a permanent failure
-- fails the row if it is PENDING or PROCESSING, and else leaves the store as it is, also for a row
-- that is POSTPONED.
mark_permanent_failure-eq-if :
    (now id project_id : ℕ) (reason : String) (s : Store) (n : Notification)
    → get_by_id id project_id s ≡ some n
    → IsConsistent n
    → is_empty reason ≡ false
    → mark_permanent_failure now id project_id reason s
      ≡ ok (if is_open n.status then save (written now (mark_failed reason) n) s else s)
unfolding mark_permanent_failure
mark_permanent_failure-eq-if now id project_id reason s n f h given =
    elim (Bool-cases (is_open n.status)) [
      | inl o ↦ rw (f, o, mark_failed_ok now n h reason o given) refl
      | inr o ↦ rw (f, o) refl
    ]

exhausted_text-nonempty : (c : Settings) (e : Error) → is_empty (exhausted_text c e) ≡ false
unfolding exhausted_text
exhausted_text-nonempty c e = refl

-- For a payload whose ceiling is the one of the settings, a transient error of a job whose row is
-- consistent and PENDING or PROCESSING goes to the dead-letter queue exactly where the retry state
-- is exhausted, and the row is then failed with the text of the exhausted budget. Else the job is
-- retried after the backoff of its attempt, one attempt further, and the store is left as it is.
pub retry_or_dead_letter-eq-if :
    (c : Settings) (now : ℕ) (job : Job) (e : Error) (s : Store) (n : Notification)
    → job.retry.max_attempts ≡ c.retry_max_attempts
    → get_by_id job.notification_id job.project_id s ≡ some n
    → IsConsistent n
    → is_open n.status ≡ true
    → retry_or_dead_letter c now job e s ≡ (
        if is_exhausted job.retry
        then (dead_lettered e, save (written now (mark_failed (exhausted_text c e)) n) s)
        else (
          retried
              (exponential_backoff job.retry.attempt c.retry_base_delay c.retry_backoff_factor
                c.retry_max_delay)
              (next_attempt job.retry),
          s,
        ))
unfolding retry_or_dead_letter is_exhausted
retry_or_dead_letter-eq-if c now job e s n ceiling f h o =
    rw
      (
        ceiling,
        mark_permanent_failure-eq-if now job.notification_id job.project_id (exhausted_text c e) s n
            f h (exhausted_text-nonempty c e),
        o,
      )
      refl

-- A job whose payload is scheduled for later leaves the store as it was, and so does a job that is
-- due on a row of the project that is finished, scheduled for later, or held by a worker within its
-- lease.
process_notification-idle :
    (c : Settings) (now : ℕ) (p : Ports) (job : Job) (s : Store) (n : Notification)
    → get_by_id job.notification_id job.project_id s ≡ some n
    → (is_later job.send_at now ≡ ok true) ⊎ ((is_later job.send_at now ≡ ok false) × IsIdle p n)
    → (process_notification c now p job s).1 ≡ s
unfolding process_notification
process_notification-idle c now p job s n f (inl later) = rw later refl
process_notification-idle c now p job s n f (inr (due, h)) =
    rw (due, f, process-idle p job.notification_id job.project_id s n f h) refl
