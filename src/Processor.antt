-- ===== src/Processor.antt =====
-- The worker half of the creation of notifications
-- (backend/src/tiber/application/services/intake_processor.py): its ports, the tables that it
-- writes, and the claim and the failure of an intake. A `process` runs beside no other transaction
-- on its intake, since it holds the lease; what is read outside of it is a port.
pub mod FanOut
pub mod Process
pub mod Children
pub mod Spread
pub mod Channels
pub mod Queue
pub mod Ends
use tiber.Prelude.{
  ℕ, ◌+◌, String, Option, none, some, List, [], ◌∷◌, ◌++◌, Bool, true, false, ◌&&◌, ◌||◌, not, ltb,
  if◌then◌else◌, is_none, is_missing, contains, map,
}
use tiber.Prelude.Eq.{◌==◌, nat_eq, Eq, nat_beq, beq_by}
use tiber.Enums.{DeliveryChannel, channel_eq}
use tiber.Result.{
  Result, Error, ok, err, ◌>>=◌, entity_not_found, a_recipient, type_error, key_error, other,
}
use tiber.Time.{DateTime, utc}
use tiber.Template.{Template}
use tiber.Template.Render.{Placeholders}
use tiber.Notification.{Notification}
use tiber.Recipient.{Recipient, DeliveryConstraint}
use tiber.Policy.{PolicyRule}
use tiber.Intake.{
  IntakePayload, DecisionConstraints, MlSuggestion, NotificationPlan, ResolvedTopic, Want, topic,
}
use tiber.Intake.Plan.{wanted_decisions, assemble_plan}
use tiber.Intake.Record
use tiber.Intake.Record.{NotificationIntake, is_claimable, is_completed, is_failed}

-- The places where `process` reads a clock; what is done for a child has the child's channel.
pub data Moment : Type 0 where
  starting claiming planning storing completing finishing failing : Moment
  creating rendering scheduling checking deciding : DeliveryChannel → Moment

pub record IntakePorts : Type 0 where
  pub get_recipient : ℕ → ℕ → Option Recipient
  pub get_topic : String → ℕ → Option ResolvedTopic
  pub get_template : ℕ → ℕ → Option Template
  pub re : Placeholders
  -- the rules of `PolicyResolver`
  pub rules : List PolicyRule
  -- `none` for a project without one, or without a repository
  pub load_constraint : ℕ → Option DeliveryConstraint
  -- what the engine returns; `err` where it raises or its time is over
  pub decide :
      Recipient → IntakePayload → DecisionConstraints → List Want → Result (Option MlSuggestion)
  pub lease : ℕ
  pub max_attempts : ℕ
  pub clock : Moment → ℕ
  -- the `uuid4()` of the child for a channel
  pub new_id : DeliveryChannel → ℕ
  -- the texts of a failure: of an exception, and of too many attempts
  pub error_text : Error → String
  pub exceeded_text : ℕ → String

-- What `enqueue_dispatch` writes to the outbox (`sqlalchemy_outbox.py`); without `available_at`
-- the row is due at once.
pub record Dispatch : Type 0 where
  pub notification_id : ℕ
  pub project_id : ℕ
  pub channel : DeliveryChannel
  pub high : Bool
  pub available_at : Option DateTime

pub record Tables : Type 0 where
  pub intakes : ℕ → Option NotificationIntake
  pub notifications : List Notification
  pub dispatches : List Dispatch

unfoldable pub save_intake : NotificationIntake → Tables → Tables
save_intake i w = record w { intakes = λ id. if id == i.id then some i else w.intakes id }

abbrev pub claim_if :
    IntakePorts → Tables → NotificationIntake → Bool → Result (Option NotificationIntake × Tables)
claim_if p w i false = ok (none, w)
claim_if p w i true = do
  c ← Record.claim (p.clock claiming) (utc (p.clock starting)) p.lease i
  ok (some c, save_intake c w)

-- T1, on the row that `get_for_update` found
unfoldable pub claim_found :
    IntakePorts → Tables → Option NotificationIntake → Result (Option NotificationIntake × Tables)
unfolding save_intake
claim_found p w none = ok (none, w)
claim_found p w (some i) = do
  claimable ← is_claimable (utc (p.clock starting)) p.lease i
  claim_if p w i claimable

-- `_claim`
unfoldable pub claim_intake : IntakePorts → ℕ → Tables → Result (Option NotificationIntake × Tables)
unfolding claim_found
claim_intake p id w = claim_found p w (w.intakes id)

-- `_load_recipient`
unfoldable pub load_recipient : IntakePorts → NotificationIntake → Result Recipient
load_recipient p i = elim (p.get_recipient i.recipient_id i.project_id) [
  | none ↦ err (entity_not_found a_recipient)
  | some r ↦ ok r
]

-- `_ask_engine`: a failure is no suggestion
abbrev pub or_none : Result (Option MlSuggestion) → Option MlSuggestion
or_none (err _) = none
or_none (ok s) = s

abbrev pub wants_topic : List Want → Bool
wants_topic [] = false
wants_topic (topic ∷ _) = true
wants_topic (_ ∷ rest) = wants_topic rest

-- the topic that the model suggests, if the project has it
unfoldable pub suggested_topic :
    IntakePorts → NotificationIntake → List Want → Option MlSuggestion → Option ResolvedTopic
suggested_topic p i want none = none
suggested_topic p i want (some s) =
    if wants_topic want
    then elim s.topic_slug [
      | none ↦ none
      | some slug ↦ if is_missing (some slug) then none else p.get_topic slug i.project_id
    ]
    else none

-- the engine is asked if something is open
abbrev pub ask : IntakePorts → NotificationIntake → Recipient → List Want → Option MlSuggestion
ask p i r [] = none
ask p i r (w ∷ want) = or_none (p.decide r i.payload i.constraints (w ∷ want))

-- `_decide`, with T2
unfoldable pub decide_plan :
    IntakePorts → NotificationIntake → Recipient → Tables → Result (NotificationIntake × Tables)
unfolding suggested_topic save_intake
decide_plan p i r w = do
  let want = wanted_decisions i.payload i.constraints
  let suggestion = ask p i r want
  let ml_topic = suggested_topic p i want suggestion
  plan ← assemble_plan i.payload i.constraints suggestion ml_topic (p.clock planning)
  j ← Record.with_plan (p.clock storing) plan i
  ok (j, save_intake j w)

abbrev pub is_over : NotificationIntake → Bool
is_over i = is_completed i.status || is_failed i.status

abbrev pub save_failed : Tables → Result NotificationIntake → Result (Unit {0}) × Tables
save_failed w (err e) = (err e, w)
save_failed w (ok i) = (ok tt, save_intake i w)

abbrev pub fail_found :
    IntakePorts → String → Tables → Option NotificationIntake → Result (Unit {0}) × Tables
fail_found p reason w none = (ok tt, w)
fail_found p reason w (some i) =
    if is_over i then (ok tt, w) else save_failed w (Record.fail (p.clock failing) reason i)

-- `_fail`
unfoldable pub fail_intake : IntakePorts → ℕ → String → Tables → Result (Unit {0}) × Tables
unfolding save_intake
fail_intake p id reason w = fail_found p reason w (w.intakes id)

-- what `except TemplateRenderError` and `except (TiberError, ValueError)` catch
abbrev pub is_caught : Error → Bool
is_caught type_error = false
is_caught key_error = false
is_caught other = false
is_caught _ = true
