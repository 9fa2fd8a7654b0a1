-- ===== src/Intake/Record.antt =====
-- The accepted request before it is expanded (backend/src/tiber/domain/entities/notification_intake.py).
-- The instant that a method reads with `datetime.now(UTC)` is its argument `clock`; `now` and
-- `lease` are its own arguments.
pub mod Lifecycle
use tiber.Prelude.{
  ℕ, ◌+◌, leb, String, Option, none, some, Bool, true, false, ◌&&◌, ◌||◌, not, is_none, is_some,
  is_empty, is_missing, is_missing_or_blank, if◌then◌else◌,
}
use tiber.Enums.{IntakeStatus, received, completed}
use tiber.Result.{
  Result, ok, err, raise_if, require, invalid_attribute, invalid_intake_transition, type_error,
  ◌>>=◌, ◌>>◌,
}
use tiber.Time.{DateTime, utc, is_at_most}
use tiber.Intake.{IntakePayload, DecisionConstraints, NotificationPlan, is_naive}

pub record NotificationIntake : Type 0 where
  pub id : ℕ
  pub project_id : ℕ
  pub transaction_id : ℕ
  pub recipient_id : ℕ
  pub payload : IntakePayload
  pub constraints : DecisionConstraints
  pub request_fingerprint : String
  pub idempotency_key : Option String
  pub status : IntakeStatus
  pub plan : Option NotificationPlan
  -- a natural number, so that the check `attempts < 0` never holds
  pub attempts : ℕ
  pub claimed_at : Option DateTime
  pub completed_at : Option DateTime
  pub failure_reason : Option String
  pub created_at : DateTime
  pub updated_at : DateTime

abbrev pub is_received : IntakeStatus → Bool
is_received received = true
is_received _ = false

abbrev pub is_processing : IntakeStatus → Bool
is_processing IntakeStatus.processing = true
is_processing _ = false

abbrev pub is_completed : IntakeStatus → Bool
is_completed completed = true
is_completed _ = false

abbrev pub is_failed : IntakeStatus → Bool
is_failed IntakeStatus.failed = true
is_failed _ = false

-- `key is not None and not key.strip()`
abbrev pub is_blank_key : Option String → Bool
is_blank_key none = false
is_blank_key (some key) = is_missing_or_blank (some key)

-- `__post_init__`, check by check
unfoldable pub intake_post_init : NotificationIntake → Result NotificationIntake
intake_post_init i = do
  raise_if (is_blank_key i.idempotency_key) invalid_attribute
  raise_if (is_naive i.claimed_at) invalid_attribute
  raise_if (is_naive i.completed_at) invalid_attribute
  raise_if (is_received i.status && (is_some i.plan || is_some i.claimed_at)) invalid_attribute
  raise_if (is_processing i.status && is_none i.claimed_at) invalid_attribute
  raise_if (is_completed i.status && (is_none i.plan || is_none i.completed_at)) invalid_attribute
  raise_if (not (is_completed i.status) && is_some i.completed_at) invalid_attribute
  raise_if (is_failed i.status && is_missing i.failure_reason) invalid_attribute
  raise_if (not (is_failed i.status) && is_some i.failure_reason) invalid_attribute
  ok i

-- The arguments of `create`, and the fresh identifiers.
pub record NewIntake : Type 0 where
  pub id : ℕ
  pub project_id : ℕ
  pub transaction_id : ℕ
  pub recipient_id : ℕ
  pub payload : IntakePayload
  pub constraints : DecisionConstraints
  pub request_fingerprint : String
  pub idempotency_key : Option String

abbrev pub new_received : ℕ → NewIntake → NotificationIntake
new_received clock f = record {
  id = f.id;
  project_id = f.project_id;
  transaction_id = f.transaction_id;
  recipient_id = f.recipient_id;
  payload = f.payload;
  constraints = f.constraints;
  request_fingerprint = f.request_fingerprint;
  idempotency_key = f.idempotency_key;
  status = received;
  plan = none;
  attempts = 0;
  claimed_at = none;
  completed_at = none;
  failure_reason = none;
  created_at = utc clock;
  updated_at = utc clock;
}

unfoldable pub create_intake : ℕ → NewIntake → Result NotificationIntake
create_intake clock f = intake_post_init (new_received clock f)

-- `claimed_at + lease`
abbrev pub add : DateTime → ℕ → DateTime
add t lease = record { at = t.at + lease; aware = t.aware }

abbrev pub lease_expired : Option DateTime → DateTime → ℕ → Result Bool
lease_expired none now lease = ok false
lease_expired (some t) now lease = is_at_most (add t lease) now

unfoldable pub is_claimable : DateTime → ℕ → NotificationIntake → Result Bool
is_claimable now lease i =
    if is_received i.status
    then ok true
    else if is_processing i.status
    then lease_expired i.claimed_at now lease
    else ok false

unfoldable pub claim : ℕ → DateTime → ℕ → NotificationIntake → Result NotificationIntake
unfolding is_claimable
claim clock now lease i = do
  claimable ← is_claimable now lease i
  require claimable (invalid_intake_transition i.status IntakeStatus.processing)
  require now.aware invalid_attribute
  intake_post_init (record i {
    status = IntakeStatus.processing;
    updated_at = utc clock;
    claimed_at = some now;
    attempts = i.attempts + 1;
  })

unfoldable pub with_plan : ℕ → NotificationPlan → NotificationIntake → Result NotificationIntake
with_plan clock plan i = do
  require (is_processing i.status) invalid_attribute
  intake_post_init (record i { plan = some plan; updated_at = utc clock })

unfoldable pub complete : ℕ → DateTime → NotificationIntake → Result NotificationIntake
complete clock now i = do
  require (is_processing i.status) (invalid_intake_transition i.status completed)
  raise_if (is_none i.plan) invalid_attribute
  intake_post_init
      (record i { status = completed; updated_at = utc clock; completed_at = some now })

unfoldable pub fail : ℕ → String → NotificationIntake → Result NotificationIntake
fail clock reason i = do
  require (is_received i.status || is_processing i.status)
      (invalid_intake_transition i.status IntakeStatus.failed)
  raise_if (is_empty reason) invalid_attribute
  intake_post_init (record i {
    status = IntakeStatus.failed;
    updated_at = utc clock;
    failure_reason = some reason;
  })
