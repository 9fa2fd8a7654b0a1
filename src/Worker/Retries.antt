-- ===== src/Worker/Retries.antt =====
-- How often a job is tried (backend/src/tiber/worker/tasks/notification.py).
use tiber.Prelude.{
  ℕ, zero, suc, ◌+◌, ◌<◌, ◌≤◌, Option, none, some, Bool, true, false, ◌≡◌, arith, refl, leb,
  Bool-cases, inl, inr,
}
use tiber.Result.{Result, Error, ok, err}
use tiber.Time.{DateTime}
use tiber.Notification.{Notification}
use tiber.Store.{Store}
use tiber.Delivery.{Ports}
use tiber.Worker.{
  RetryState, Settings, Job, Outcome, done, deferred, retried, dead_lettered, raised, on_result,
  on_found, after_failure, after_process, retry_or_dead_letter, mark_permanent_failure,
  process_notification, next_attempt, exhausted_text, countdown, on_defer, on_time, wait,
  is_permanent,
}

abbrev pub is_retried : Outcome → Bool
is_retried (retried _ _) = true
is_retried _ = false

after_failure-retried :
    (o : Outcome) (r : Result Store) (s : Store)
    → is_retried o ≡ false
    → is_retried ((after_failure o r s).0) ≡ false
after_failure-retried o (ok s') s h = h
after_failure-retried o (err e) s h = refl

countdown-retried :
    (c : Settings) (now : ℕ) (n : Notification) → is_retried (countdown c now n) ≡ false
countdown-retried c now n = ground arith

on_defer-retried :
    (c : Settings) (now : ℕ) (n : Notification) (d : Result Bool)
    → is_retried (on_defer c now n d) ≡ false
on_defer-retried c now n (err e) = refl
on_defer-retried c now n (ok true) = countdown-retried c now n
on_defer-retried c now n (ok false) = refl

after_process-retried :
    (c : Settings) (now : ℕ) (n : Notification) → is_retried (after_process c now n) ≡ false
after_process-retried c now n = on_defer-retried c now n _

-- a retry counts one attempt more, below the limit
abbrev Counts : Settings → Job → Outcome → Type 0
Counts c job o =
    (delay : ℕ) (r : RetryState)
    → o ≡ retried delay r
    → (job.retry.attempt < c.retry_max_attempts) × (r.attempt ≡ job.retry.attempt + 1)

not_retried : (c : Settings) (job : Job) (o : Outcome) → is_retried o ≡ false → Counts c job o
not_retried c job o h delay r e = absurd (cc)

retry_or_dead_letter-Counts :
    (c : Settings) (now : ℕ) (job : Job) (e : Error) (s : Store)
    → Counts c job ((retry_or_dead_letter c now job e s).0)
unfolding retry_or_dead_letter next_attempt
retry_or_dead_letter-Counts c now job e s =
    elim (Bool-cases (leb c.retry_max_attempts job.retry.attempt)) [
      | inl spent ↦ rw spent (
          not_retried c job _ (
            after_failure-retried (dead_lettered e)
              (mark_permanent_failure now job.notification_id job.project_id (exhausted_text c e) s)
              s refl))
      | inr left ↦ rw left (λ delay r q. ground arith)
    ]

wait-retried : (t : Option DateTime) (now : ℕ) → is_retried (wait t now) ≡ false
wait-retried none now = refl
wait-retried (some t) now = refl

on_result-Counts :
    (c : Settings) (now : ℕ) (job : Job) (r : Result Notification × Store)
    → Counts c job ((on_result c now job r).0)
on_result-Counts c now job (ok n, s) = not_retried c job _ (after_process-retried c now n)
on_result-Counts c now job (err e, s) = elim (Bool-cases (is_permanent e)) [
  | inl p ↦ rw p (
      not_retried c job _ (
        after_failure-retried done
          (mark_permanent_failure now job.notification_id job.project_id (c.error_text e) s) s
          refl))
  | inr t ↦ rw t (retry_or_dead_letter-Counts c now job e s)
]

on_found-Counts :
    (c : Settings) (now : ℕ) (p : Ports) (job : Job) (s : Store) (found : Option Notification)
    → Counts c job ((on_found c now p job s found).0)
on_found-Counts c now p job s none = not_retried c job done refl
on_found-Counts c now p job s (some n) = on_result-Counts c now job _

on_time-Counts :
    (c : Settings) (now : ℕ) (p : Ports) (job : Job) (s : Store) (later : Result Bool)
    → Counts c job ((on_time c now p job s later).0)
on_time-Counts c now p job s (err e) = not_retried c job (raised e) refl
on_time-Counts c now p job s (ok true) = not_retried c job _ (wait-retried job.send_at now)
on_time-Counts c now p job s (ok false) = on_found-Counts c now p job s _

process_notification-Counts :
    (c : Settings) (now : ℕ) (p : Ports) (job : Job) (s : Store)
    → Counts c job ((process_notification c now p job s).0)
unfolding process_notification
process_notification-Counts c now p job s = on_time-Counts c now p job s _

abbrev again : (RetryState → Store → Outcome × Store) → Outcome × Store → Outcome × Store
again rerun (retried delay r, s) = rerun r s
again rerun (o, s) = (o, s)

-- One job and the retries that it asks for, run `i` at its own time and with its own ports.
unfoldable pub run_job : ℕ → (ℕ → ℕ) → (ℕ → Ports) → Settings → ℕ → Job → Store → Outcome × Store
run_job zero clock ports c i job s = process_notification c (clock i) (ports i) job s
run_job (suc fuel) clock ports c i job s =
    again (λ r s'. run_job fuel clock ports c (i + 1) (record job { retry = r }) s')
      (process_notification c (clock i) (ports i) job s)

spent-retried :
    (c : Settings) (job : Job) (o : Outcome)
    → Counts c job o
    → c.retry_max_attempts ≤ job.retry.attempt
    → is_retried o ≡ false
spent-retried c job (retried delay r) k h = let (l, _) = k delay r refl in absurd (ground arith)
spent-retried c job done k h = refl
spent-retried c job (deferred _) k h = refl
spent-retried c job (dead_lettered _) k h = refl
spent-retried c job (raised _) k h = refl

again-retried :
    (c : Settings) (job : Job) (rerun : RetryState → Store → Outcome × Store) (r : Outcome × Store)
    → Counts c job (r.0)
    → ((next : RetryState) (s : Store)
        → next.attempt ≡ job.retry.attempt + 1
        → is_retried ((rerun next s).0) ≡ false)
    → is_retried ((again rerun r).0) ≡ false
again-retried c job rerun (retried delay r, s) k h = h r s ((k delay r refl).1)
again-retried c job rerun (done, s) k h = refl
again-retried c job rerun (deferred _, s) k h = refl
again-retried c job rerun (dead_lettered _, s) k h = refl
again-retried c job rerun (raised _, s) k h = refl

-- However often delivery raises, a job is retried at most as often as the limit leaves, and then
-- ends: with as many reruns as the limit exceeds its attempts, the last run asks for no retry.
pub run_job-ends :
    (fuel : ℕ) (clock : ℕ → ℕ) (ports : ℕ → Ports) (c : Settings) (i : ℕ) (job : Job) (s : Store)
    → c.retry_max_attempts ≤ job.retry.attempt + fuel
    → is_retried ((run_job fuel clock ports c i job s).0) ≡ false
unfolding run_job
run_job-ends zero clock ports c i job s h =
    spent-retried c job _ (process_notification-Counts c (clock i) (ports i) job s) (ground arith)
run_job-ends (suc fuel) clock ports c i job s h =
    again-retried c job _ _ (process_notification-Counts c (clock i) (ports i) job s) (λ r s' q.
      run_job-ends fuel clock ports c (i + 1) (record job { retry = r }) s' (ground arith))
