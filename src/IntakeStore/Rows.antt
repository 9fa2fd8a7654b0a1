-- ===== src/IntakeStore/Rows.antt =====
-- The rows of the intake table and the queries of `SQLAlchemyNotificationIntakeRepository`
-- (backend/src/tiber/infrastructure/repositories/sqlalchemy_notification_intake_repository.py).
-- The table is a list of rows. A row lock and a failed statement are the database's and not
-- modelled: `get_for_update` finds no row that another transaction holds.
use tiber.Prelude.{
  ℕ, String, List, [], ◌∷◌, Option, none, some, Bool, false, ◌&&◌, ◌||◌, if◌then◌else◌, is_none,
}
use tiber.Prelude.Eq.{◌==◌, nat_eq, string_eq}
use tiber.Result.{Result, ok, err, ◌>>=◌, intake_already_exists, other}
use tiber.Time.{DateTime}
use tiber.Intake.{NotificationPlan}
use tiber.Intake.Record.{NotificationIntake, intake_post_init}
use tiber.Json.{Json, Codec}
use tiber.Json.Enums.{intake_status_value, intake_status_of}
use tiber.IntakeStore.Shapes.{
  payload_to_json, payload_from_json, constraints_to_json, constraints_from_json, plan_to_json,
  plan_from_json,
}

-- A row: `NotificationIntakeModel`.
pub record Row : Type 0 where
  pub id : ℕ
  pub project_id : ℕ
  pub transaction_id : ℕ
  pub recipient_id : ℕ
  pub request_fingerprint : String
  pub idempotency_key : Option String
  pub payload : Json
  pub constraints : Json
  pub plan : Option Json
  pub status : String
  pub attempts : ℕ
  pub claimed_at : Option DateTime
  pub completed_at : Option DateTime
  pub failure_reason : Option String
  pub created_at : DateTime
  pub updated_at : DateTime

abbrev pub Table : Type 0
Table = List Row

-- both keys are given and equal: the partial unique index compares no missing keys
abbrev pub same_key : Option String → Option String → Bool
same_key (some k) (some j) = k == j
same_key _ _ = false

-- the first row that passes a test
abbrev pub row_where : (Row → Bool) → Table → Option Row
row_where p [] = none
row_where p (r ∷ rows) = let rest = row_where p rows in if p r then some r else rest

-- `session.merge` and `flush`: the row with that identifier is replaced, or the row is added
unfoldable pub merge : Row → Table → Table
merge r [] = r ∷ []
merge r (r' ∷ rows) = let rest = merge r rows in if r'.id == r.id then r ∷ rows else r' ∷ rest

abbrev pub has_key : ℕ → Option String → Row → Bool
has_key project key r = (r.project_id == project) && same_key r.idempotency_key key

abbrev pub has_id : ℕ → Row → Bool
has_id id r = r.id == id

abbrev pub has_transaction : ℕ → ℕ → Row → Bool
has_transaction transaction project r =
    (r.project_id == project) && (r.transaction_id == transaction)

module _ (c : Codec) where
  -- `_plan_to_json(plan) if plan else None`
  abbrev pub plan_column : Option NotificationPlan → Option Json
  plan_column none = none
  plan_column (some p) = some (plan_to_json c p)

  -- `_plan_from_json(plan) if plan is not None else None`
  abbrev pub stored_plan : Option Json → Result (Option NotificationPlan)
  stored_plan none = ok none
  stored_plan (some v) = plan_from_json c v >>= λ p. ok (some p)

  -- `_values`
  unfoldable pub values : NotificationIntake → Row
  values i = record {
    id = i.id;
    project_id = i.project_id;
    transaction_id = i.transaction_id;
    recipient_id = i.recipient_id;
    request_fingerprint = i.request_fingerprint;
    idempotency_key = i.idempotency_key;
    payload = payload_to_json c i.payload;
    constraints = constraints_to_json c i.constraints;
    plan = plan_column i.plan;
    status = intake_status_value i.status;
    attempts = i.attempts;
    claimed_at = i.claimed_at;
    completed_at = i.completed_at;
    failure_reason = i.failure_reason;
    created_at = i.created_at;
    updated_at = i.updated_at;
  }

  -- `_to_entity`
  unfoldable pub to_entity : Row → Result NotificationIntake
  to_entity r = do
    payload ← payload_from_json c r.payload
    constraints ← constraints_from_json c r.constraints
    status ← intake_status_of r.status
    plan ← stored_plan r.plan
    intake_post_init (record {
      id = r.id;
      project_id = r.project_id;
      transaction_id = r.transaction_id;
      recipient_id = r.recipient_id;
      payload = payload;
      constraints = constraints;
      request_fingerprint = r.request_fingerprint;
      idempotency_key = r.idempotency_key;
      status = status;
      plan = plan;
      attempts = r.attempts;
      claimed_at = r.claimed_at;
      completed_at = r.completed_at;
      failure_reason = r.failure_reason;
      created_at = r.created_at;
      updated_at = r.updated_at;
    })

  -- `self._to_entity(model) if model else None`
  unfoldable pub entity_of : Option Row → Result (Option NotificationIntake)
  unfolding to_entity
  entity_of none = ok none
  entity_of (some r) = to_entity r >>= λ i. ok (some i)

  unfoldable pub add : NotificationIntake → Table → Result Table
  unfolding values
  add i rows =
      if is_none (row_where (has_key i.project_id i.idempotency_key) rows)
      then if is_none
          (row_where (λ r. has_id i.id r || has_transaction i.transaction_id i.project_id r) rows)
        then ok (values i ∷ rows)
        else err other
      else err intake_already_exists

  unfoldable pub get_by_transaction_id : ℕ → ℕ → Table → Result (Option NotificationIntake)
  unfolding entity_of
  get_by_transaction_id transaction project rows =
      entity_of (row_where (has_transaction transaction project) rows)

  unfoldable pub get_by_idempotency_key : ℕ → String → Table → Result (Option NotificationIntake)
  unfolding entity_of
  get_by_idempotency_key project key rows = entity_of (row_where (has_key project (some key)) rows)

  -- the row of an intake that no other transaction holds
  unfoldable pub get_for_update : ℕ → Table → Result (Option NotificationIntake)
  unfolding entity_of
  get_for_update id rows = entity_of (row_where (has_id id) rows)

  unfoldable pub save : NotificationIntake → Table → Table
  unfolding values merge
  save i rows = merge (values i) rows
