-- ===== src/Intake/Record/Lifecycle.antt =====
-- What the methods of an intake keep (backend/src/tiber/domain/entities/notification_intake.py).
use tiber.Prelude.{
  ℕ, ◌+◌, ◌<◌, ◌≤◌, String, none, some, true, false, ◌≡◌, ◌≢◌, ◌⊎◌, arith, is_missing,
}
use tiber.Enums.{IntakeStatus, received, completed}
use tiber.Result.{Result, ok, err, invalid_intake_transition}
use tiber.Time.{DateTime, utc}
use tiber.Intake.{NotificationPlan}
use tiber.Intake.Record
use tiber.Intake.Record.{
  NotificationIntake, NewIntake, new_received, intake_post_init, create_intake, is_blank_key,
  is_received, is_processing,
}

-- What `__post_init__` accepts.
pub record IsValidIntake (i : NotificationIntake) : Type 0 where
  pub key : is_blank_key i.idempotency_key ≡ false
  pub claim_aware : (t : DateTime) → i.claimed_at ≡ some t → t.aware ≡ true
  pub completion_aware : (t : DateTime) → i.completed_at ≡ some t → t.aware ≡ true
  pub unplanned : i.status ≡ received → (i.plan ≡ none) × (i.claimed_at ≡ none)
  pub claimed : i.status ≡ IntakeStatus.processing → i.claimed_at ≢ none
  pub planned : i.status ≡ completed → (i.plan ≢ none) × (i.completed_at ≢ none)
  pub incomplete : i.status ≢ completed → i.completed_at ≡ none
  pub reasoned : i.status ≡ IntakeStatus.failed → is_missing i.failure_reason ≡ false
  pub unfailed : i.status ≢ IntakeStatus.failed → i.failure_reason ≡ none

intake_post_init_iff :
    (i : NotificationIntake) {j : NotificationIntake}
    → intake_post_init i ≡ ok j
    → (j ≡ i) × IsValidIntake i
unfolding intake_post_init
intake_post_init_iff i e = ground arith

-- A call of one of the methods.
pub data Call : Type 0 where
  claim : ℕ → DateTime → ℕ → Call
  with_plan : ℕ → NotificationPlan → Call
  complete : ℕ → DateTime → Call
  fail : ℕ → String → Call

unfoldable pub call : Call → NotificationIntake → Result NotificationIntake
call (claim clock now lease) i = Record.claim clock now lease i
call (with_plan clock plan) i = Record.with_plan clock plan i
call (complete clock now) i = Record.complete clock now i
call (fail clock reason) i = Record.fail clock reason i

-- What a call that returns does: a claim counts an attempt and keeps the plan, so that a retry
-- uses the decision that was stored; a plan is stored, and an intake completed, while it is
-- claimed; it fails only before it ends.
pub data Advances (i j : NotificationIntake) : Type 0 where
  claims :
      (i.status ≡ received) ⊎ (i.status ≡ IntakeStatus.processing)
      → j.status ≡ IntakeStatus.processing
      → j.attempts ≡ i.attempts + 1
      → j.plan ≡ i.plan
      → Advances i j
  plans :
      i.status ≡ IntakeStatus.processing
      → j.status ≡ IntakeStatus.processing
      → j.attempts ≡ i.attempts
      → j.plan ≢ none
      → Advances i j
  completes :
      i.status ≡ IntakeStatus.processing
      → j.status ≡ completed
      → j.plan ≡ i.plan
      → j.plan ≢ none
      → Advances i j
  fails :
      (i.status ≡ received) ⊎ (i.status ≡ IntakeStatus.processing)
      → j.status ≡ IntakeStatus.failed
      → j.plan ≡ i.plan
      → is_missing j.failure_reason ≡ false
      → Advances i j

claim-Advances :
    (clock : ℕ) (now : DateTime) (lease : ℕ) (i j : NotificationIntake)
    → Record.claim clock now lease i ≡ ok j
    → IsValidIntake j × Advances i j
unfolding Record.claim Record.is_claimable intake_post_init
claim-Advances clock now lease i j e = ground arith

with_plan-Advances :
    (clock : ℕ) (plan : NotificationPlan) (i j : NotificationIntake)
    → Record.with_plan clock plan i ≡ ok j
    → IsValidIntake j × Advances i j
unfolding Record.with_plan intake_post_init
with_plan-Advances clock plan i j e = ground arith

complete-Advances :
    (clock : ℕ) (now : DateTime) (i j : NotificationIntake)
    → Record.complete clock now i ≡ ok j
    → IsValidIntake j × Advances i j
unfolding Record.complete intake_post_init
complete-Advances clock now i j e = ground arith

fail-Advances :
    (clock : ℕ) (reason : String) (i j : NotificationIntake)
    → Record.fail clock reason i ≡ ok j
    → IsValidIntake j × Advances i j
unfolding Record.fail intake_post_init
fail-Advances clock reason i j e = ground arith

-- Creating an intake with no idempotency key, or with one that is not blank, succeeds, and the
-- intake is valid.
pub create_intake_lem :
    (clock : ℕ) (f : NewIntake)
    → is_blank_key f.idempotency_key ≡ false
    → (create_intake clock f ≡ ok (new_received clock f)) × IsValidIntake (new_received clock f)
unfolding create_intake intake_post_init
create_intake_lem clock f h = ground arith

-- A call of a method that returns leaves a valid intake and advances it: it is claimed, planned,
-- completed or failed, from the statuses from which the program allows that.
pub call-Advances :
    (c : Call) (i : NotificationIntake) {j : NotificationIntake}
    → call c i ≡ ok j
    → IsValidIntake j × Advances i j
unfolding call
call-Advances (claim clock now lease) i e = claim-Advances clock now lease i _ e
call-Advances (with_plan clock plan) i e = with_plan-Advances clock plan i _ e
call-Advances (complete clock now) i e = complete-Advances clock now i _ e
call-Advances (fail clock reason) i e = fail-Advances clock reason i _ e

-- After a claim that returns, a claim with an aware time before the end of its lease raises
-- `InvalidStateTransitionError`, and one at or after that end takes the intake over, with one
-- attempt more.
pub claim-lease :
    (clock clock' lease lease' : ℕ) (now now' : DateTime) (i j : NotificationIntake)
    → Record.claim clock now lease i ≡ ok j
    → now'.aware ≡ true
    → ((now'.at < now.at + lease')
        × (Record.claim clock' now' lease' j
            ≡ err (invalid_intake_transition IntakeStatus.processing IntakeStatus.processing)))
      ⊎ ((now.at + lease' ≤ now'.at)
          × (Record.claim clock' now' lease' j
              ≡ ok (record j {
                updated_at = utc clock';
                claimed_at = some now';
                attempts = j.attempts + 1;
              })))
unfolding Record.claim Record.is_claimable intake_post_init
claim-lease clock clock' lease lease' now now' i j e aware = ground arith

-- A completed or failed intake refuses every call.
call-ended :
    (c : Call) (i : NotificationIntake)
    → (i.status ≡ completed) ⊎ (i.status ≡ IntakeStatus.failed)
    → (j : NotificationIntake) → call c i ≢ ok j
unfolding call Record.claim Record.is_claimable Record.with_plan Record.complete Record.fail
call-ended (claim clock now lease) i ended j = ground arith
call-ended _ i ended j = ground arith
