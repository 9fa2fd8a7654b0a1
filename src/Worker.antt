-- ===== src/Worker.antt =====
-- The task that delivers one notification (backend/src/tiber/worker/tasks/notification.py), its backoff
-- (backend/src/tiber/worker/retry.py) and the retry state of its payload
-- (backend/src/tiber/events/job_payload.py). A run reads the clock once, and Celery's own count of the
-- retries is not modelled.
pub mod Backoff
pub mod Retries
pub mod Failure
use tiber.Prelude.{
  ℕ, ◌+◌, ◌-◌, ◌*◌, ◌/◌, ◌^◌, min, max, String, Option, none, some, Bool, true, false,
  if◌then◌else◌, leb, ltb, ◌<>◌,
}
use tiber.Enums.{NotificationStatus, pending, postponed, status_eq}
use tiber.Result.{
  Result, Error, ok, err, entity_not_found, invalid_transition, invalid_intake_transition,
  invalid_attribute, value_error, ◌>>=◌,
}
use tiber.Time.{DateTime, utc, seconds, is_after}
use tiber.Notification.{Notification, is_open, is_status, mark_failed}
use tiber.Store.{Store, get_by_id, save}
use tiber.Delivery.{Ports}
use tiber.Delivery.Process.{process}

-- `exponential_backoff`, for attempts that are not negative
unfoldable pub exponential_backoff : ℕ → ℕ → ℕ → ℕ → ℕ
exponential_backoff attempt base_delay factor max_delay =
    min max_delay (base_delay * factor ^ attempt)

pub record RetryState : Type 0 where
  pub attempt : ℕ
  pub max_attempts : ℕ

unfoldable pub next_attempt : RetryState → RetryState
next_attempt r = record { attempt = r.attempt + 1; max_attempts = r.max_attempts }

unfoldable pub is_exhausted : RetryState → Bool
is_exhausted r = leb r.max_attempts r.attempt

-- The settings that the task reads, and the text of an exception.
pub record Settings : Type 0 where
  pub retry_max_attempts : ℕ
  pub retry_base_delay : ℕ
  pub retry_backoff_factor : ℕ
  pub retry_max_delay : ℕ
  -- in microseconds
  pub processing_lease : ℕ
  pub error_text : Error → String

pub record Job : Type 0 where
  pub notification_id : ℕ
  pub project_id : ℕ
  pub send_at : Option DateTime
  pub retry : RetryState

-- How a run of the task ends.
pub data Outcome : Type 0 where
  done : Outcome
  -- dispatched again, with a countdown in seconds and the same payload
  deferred : ℕ → Outcome
  -- `task.retry`, with a countdown and the next payload
  retried : ℕ → RetryState → Outcome
  -- the exception is raised again, with the retry budget spent
  dead_lettered : Error → Outcome
  -- another exception leaves the task
  raised : Error → Outcome

-- `isinstance(exc, PERMANENT_DELIVERY_ERRORS)`, of the errors that the modelled code raises
abbrev pub is_permanent : Error → Bool
is_permanent (entity_not_found _) = true
is_permanent (invalid_transition _ _) = true
is_permanent (invalid_intake_transition _ _) = true
is_permanent invalid_attribute = true
is_permanent _ = false

-- `_seconds_until`
abbrev pub seconds_until : DateTime → ℕ → ℕ
seconds_until send_at now = (send_at.at - now) / seconds

-- `send_at > now`, where it is given
abbrev pub is_later : Option DateTime → ℕ → Result Bool
is_later none now = ok false
is_later (some t) now = is_after t (utc now)

-- `_should_defer`
unfoldable pub should_defer : ℕ → Notification → Result Bool
should_defer now n =
    if is_status n.status postponed
    then ok true
    else if is_status n.status NotificationStatus.processing
    then ok true
    else if is_status n.status pending
    then is_later n.send_at now
    else ok false

abbrev pub fail_row : ℕ → String → Option Notification → Store → Result Store
fail_row now reason none s = ok s
fail_row now reason (some n) s =
    if is_open n.status then (mark_failed now reason n >>= λ failed. ok (save failed s)) else ok s

-- `_mark_permanent_failure`
unfoldable pub mark_permanent_failure : ℕ → ℕ → ℕ → String → Store → Result Store
mark_permanent_failure now id project_id reason s =
    fail_row now reason (get_by_id id project_id s) s

-- What follows a write of the failure, which may itself raise.
abbrev pub after_failure : Outcome → Result Store → Store → Outcome × Store
after_failure o (ok s') s = (o, s')
after_failure o (err e) s = (raised e, s)

-- f"retry budget exhausted: {type(exc).__name__}: {exc}"
unfoldable pub exhausted_text : Settings → Error → String
unfolding ◌<>◌
exhausted_text c e = "retry budget exhausted: " <> c.error_text e

-- `_retry_or_dead_letter`
unfoldable pub retry_or_dead_letter : Settings → ℕ → Job → Error → Store → Outcome × Store
unfolding exponential_backoff next_attempt mark_permanent_failure
retry_or_dead_letter c now job e s =
    if leb c.retry_max_attempts job.retry.attempt
    then after_failure (dead_lettered e)
        (mark_permanent_failure now job.notification_id job.project_id (exhausted_text c e) s) s
    else (
      retried
          (exponential_backoff job.retry.attempt c.retry_base_delay c.retry_backoff_factor
            c.retry_max_delay)
          (next_attempt job.retry),
      s,
    )

-- the countdown of a run that is deferred
abbrev pub countdown : Settings → ℕ → Notification → Outcome
countdown c now n =
    if is_status n.status NotificationStatus.processing
    then deferred (max 1 ((n.updated_at.at + c.processing_lease - now) / seconds))
    else elim n.send_at [ none ↦ raised value_error | some t ↦ deferred (seconds_until t now) ]

abbrev pub on_defer : Settings → ℕ → Notification → Result Bool → Outcome
on_defer c now n (err e) = raised e
on_defer c now n (ok true) = countdown c now n
on_defer c now n (ok false) = done

abbrev pub after_process : Settings → ℕ → Notification → Outcome
after_process c now n = on_defer c now n (should_defer now n)

-- What the task makes of `_process`.
abbrev pub on_result : Settings → ℕ → Job → Result Notification × Store → Outcome × Store
on_result c now job (ok n, s) = (after_process c now n, s)
on_result c now job (err e, s) =
    if is_permanent e
    then after_failure done
        (mark_permanent_failure now job.notification_id job.project_id (c.error_text e) s) s
    else retry_or_dead_letter c now job e s

abbrev pub on_found : Settings → ℕ → Ports → Job → Store → Option Notification → Outcome × Store
on_found c now p job s none = (done, s)
on_found c now p job s (some n) =
    on_result c now job (process p job.notification_id job.project_id s)

-- the countdown to the payload's own `send_at`
abbrev pub wait : Option DateTime → ℕ → Outcome
wait none now = done
wait (some t) now = deferred (seconds_until t now)

abbrev pub on_time : Settings → ℕ → Ports → Job → Store → Result Bool → Outcome × Store
on_time c now p job s (err e) = (raised e, s)
on_time c now p job s (ok true) = (wait job.send_at now, s)
on_time c now p job s (ok false) =
    on_found c now p job s (get_by_id job.notification_id job.project_id s)

-- `process_notification`
unfoldable pub process_notification : Settings → ℕ → Ports → Job → Store → Outcome × Store
process_notification c now p job s = on_time c now p job s (is_later job.send_at now)
