-- ===== src/Accept.antt =====
-- The acceptance of a request (backend/src/tiber/application/services/notification_intake.py).
-- One `accept` is one transaction: an exception leaves the tables as they were. What another
-- transaction commits to the intakes between the lookup of the key and the insert is a port.
pub mod Replay
pub mod Later
pub mod Again
use tiber.Prelude.{
  ℕ, String, Option, none, some, List, [], ◌∷◌, ◌++◌, Bool, true, false, not, is_nil, is_some,
  is_none, if◌then◌else◌, map,
}
use tiber.Prelude.Eq.{◌==◌, string_eq}
use tiber.Enums.{DeliveryChannel, NotificationCategory, critical}
use tiber.Result.{
  Result, Error, ok, err, ◌>>=◌, entity_not_found, a_template, a_topic, idempotency_conflict,
  intake_already_exists,
}
use tiber.Time.{DateTime}
use tiber.Content.{NotificationContent}
use tiber.Template.{Template}
use tiber.Notification.{Variables}
use tiber.Recipient.{Recipient, Addresses}
use tiber.Recipient.Entity.{channels}
use tiber.Recipient.Book.{Book}
use tiber.Recipient.Resolution.{Resolver, resolve_recipient}
use tiber.Json.{Json, Codec}
use tiber.Command.{AcceptCommand, request_fingerprint}
use tiber.Intake.{
  IntakePayload, payload_post_init, DecisionConstraints, ResolvedTopic, is_some_critical,
}
use tiber.Intake.Constraints.{Request, compute_constraints}
use tiber.Intake.Record.{NotificationIntake, NewIntake, create_intake}
use tiber.IntakeStore.Rows.{Table, add, get_by_idempotency_key}

-- `AcceptedIntake`
pub record AcceptedIntake : Type 0 where
  pub transaction_id : ℕ
  pub project_id : ℕ
  pub replayed : Bool

-- What `enqueue_intake` writes to the outbox.
pub record IntakeMessage : Type 0 where
  pub intake_id : ℕ
  pub project_id : ℕ
  pub high : Bool

-- The tables of the transaction.
pub record Desk : Type 0 where
  pub intakes : Table
  pub messages : List IntakeMessage
  pub recipients : Book

pub record AcceptPorts : Type 0 where
  pub codec : Codec
  -- `send_at.astimezone(UTC).isoformat()`, and the encoding and the hash of a document
  pub utc_text : DateTime → String
  pub digest : Json → String
  pub get_topic : String → ℕ → Option ResolvedTopic
  pub get_template : String → ℕ → Option Template
  pub resolver : Resolver
  pub findall : String → List String
  pub clock : ℕ
  pub intake_id : ℕ
  pub transaction_id : ℕ
  -- the intakes when the insert runs, where the lookup saw others
  pub between : Table → Table

-- `tuple(cmd.channels) if cmd.channels else None`
abbrev pub given_channels : Option (List DeliveryChannel) → Option (List DeliveryChannel)
given_channels none = none
given_channels (some ds) = if is_nil ds then none else some ds

abbrev pub replay_of : AcceptCommand → String → NotificationIntake → Result AcceptedIntake
replay_of cmd fingerprint existing =
    if existing.request_fingerprint == fingerprint
    then ok (record {
      transaction_id = existing.transaction_id;
      project_id = existing.project_id;
      replayed = true;
    })
    else err idempotency_conflict

abbrev pub replay_found :
    AcceptCommand → String → Option NotificationIntake → Result (Option AcceptedIntake)
replay_found cmd fingerprint none = ok none
replay_found cmd fingerprint (some existing) =
    replay_of cmd fingerprint existing >>= λ a. ok (some a)

abbrev pub template_id : Option Template → Option ℕ
template_id none = none
template_id (some t) = some t.id

abbrev pub template_slug_of : Option Template → Option String
template_slug_of none = none
template_slug_of (some t) = t.template_slug

module _ (p : AcceptPorts) where
  unfoldable pub fingerprint : AcceptCommand → String
  unfolding request_fingerprint
  fingerprint cmd = request_fingerprint p.resolver.locale p.utc_text p.digest cmd

  abbrev pub replay_key :
      AcceptCommand → String → Table → Option String → Result (Option AcceptedIntake)
  replay_key cmd hash rows none = ok none
  replay_key cmd hash rows (some key) = do
    existing ← get_by_idempotency_key p.codec cmd.project_id key rows
    replay_found cmd hash existing

  -- `_replay`
  unfoldable pub replay : AcceptCommand → String → Table → Result (Option AcceptedIntake)
  replay cmd hash rows = replay_key cmd hash rows cmd.idempotency_key

  -- `_require_topic`
  unfoldable pub require_topic : AcceptCommand → Result (Option ResolvedTopic)
  require_topic cmd = elim cmd.topic_slug [
    | none ↦ ok none
    | some slug ↦ elim (p.get_topic slug cmd.project_id) [
      | none ↦ err (entity_not_found a_topic)
      | some t ↦ ok (some t)
    ]
  ]

  -- `_require_template`
  unfoldable pub require_template : AcceptCommand → Result (Option Template)
  require_template cmd = elim cmd.template_slug [
    | none ↦ ok none
    | some slug ↦ elim (p.get_template slug cmd.project_id) [
      | none ↦ err (entity_not_found a_template)
      | some t ↦ ok (some t)
    ]
  ]

  abbrev pub request_of : AcceptCommand → Option Template → Recipient → Request
  request_of cmd template r = record {
    available_channels =
        if is_none cmd.recipient_id then channels cmd.addresses else channels r.addresses;
    adhoc = is_none cmd.recipient_id;
    requested_channels = cmd.channels;
    opted_out = r.preferences.opted_out_channels;
    client_category = cmd.category;
    template = template;
    template_variables = cmd.template_variables;
    content = cmd.content;
  }

  abbrev pub payload_of : AcceptCommand → Option ResolvedTopic → Option Template → IntakePayload
  payload_of cmd topic template = record {
    category = cmd.category;
    topic = topic;
    channels = given_channels cmd.channels;
    adhoc_channels = if is_none cmd.recipient_id then some (channels cmd.addresses) else none;
    template_id = template_id template;
    template_slug = template_slug_of template;
    template_variables = cmd.template_variables;
    content = cmd.content;
    group_key = cmd.group_key;
    send_at = cmd.send_at;
  }

  -- the intake of a request that is not a replay, and the recipients with the one it needs
  unfoldable pub make_intake : AcceptCommand → Book → Result (NotificationIntake × Book)
  unfolding require_topic require_template
  make_intake cmd book = do
    topic ← require_topic cmd
    template ← require_template cmd
    resolved ← resolve_recipient p.resolver cmd.project_id cmd.recipient_id cmd.addresses book
    constraints ← compute_constraints p.findall (request_of cmd template resolved.0)
    payload ← payload_post_init (payload_of cmd topic template)
    intake ← create_intake p.clock (record {
      id = p.intake_id;
      project_id = cmd.project_id;
      transaction_id = p.transaction_id;
      recipient_id = resolved.0.id;
      payload = payload;
      constraints = constraints;
      request_fingerprint = fingerprint cmd;
      idempotency_key = cmd.idempotency_key;
    })
    ok (intake, resolved.1)

  abbrev pub message_of : AcceptCommand → NotificationIntake → IntakeMessage
  message_of cmd intake = record {
    intake_id = intake.id;
    project_id = intake.project_id;
    high = is_some_critical cmd.category;
  }

  -- the replay of the request that won the race for the key
  abbrev pub replay_winner : Desk → Option AcceptedIntake → Result (AcceptedIntake × Desk)
  replay_winner desk none = err intake_already_exists
  replay_winner desk (some a) = ok (a, desk)

  abbrev pub after_add :
      AcceptCommand → NotificationIntake → Desk → Result Table → Result (AcceptedIntake × Desk)
  after_add cmd intake desk (ok rows) = ok (
    record {
      transaction_id = intake.transaction_id;
      project_id = intake.project_id;
      replayed = false;
    },
    record desk { intakes = rows; messages = message_of cmd intake ∷ desk.messages },
  )
  after_add cmd intake desk (err intake_already_exists) =
      replay cmd (fingerprint cmd) desk.intakes >>= replay_winner desk
  after_add cmd intake desk (err e) = err e

  abbrev pub after_replay :
      AcceptCommand → Desk → Option AcceptedIntake → Result (AcceptedIntake × Desk)
  after_replay cmd desk (some a) = ok (a, desk)
  after_replay cmd desk none = do
    made ← make_intake cmd desk.recipients
    let present = record desk { intakes = p.between desk.intakes; recipients = made.1 }
    after_add cmd made.0 present (add p.codec made.0 present.intakes)

  unfoldable pub accept : AcceptCommand → Desk → Result (AcceptedIntake × Desk)
  unfolding replay make_intake
  accept cmd desk = replay cmd (fingerprint cmd) desk.intakes >>= after_replay cmd desk
