-- ===== src/Notification.antt =====
-- The notification entity (backend/src/tiber/domain/entities/notification.py). A frozen dataclass
-- is a record, `replace` builds a new one and validates it, and the instant that a method reads
-- with `datetime.now(UTC)` is its argument `now`. Identifiers are numbers.
pub mod Invariant
pub mod Lifecycle
pub mod Calls
pub mod History
pub mod Direct
use tiber.Prelude.{
  ℕ, String, Option, none, some, List, Bool, true, false, ◌&&◌, ◌||◌, not, is_none, is_some,
  is_empty,
}
use tiber.Prelude.Eq.{◌==◌}
use tiber.Enums.{
  DeliveryChannel, NotificationCategory, NotificationStatus, pending, delivered, bounced,
  suppressed, postponed, cancelled, SendTimeBasis, ml_predicted, status_eq,
}
use tiber.Result.{
  Result, ok, err, raise_if, require, invalid_attribute, invalid_transition, ◌>>=◌, ◌>>◌,
}
use tiber.Time.{DateTime, utc}
use tiber.Content.{NotificationContent}

-- `dict[str, Any]`: a value is `None`, or its `str`.
abbrev pub Variables : Type 0
Variables = List (String × Option String)

pub record Notification : Type 0 where
  pub id : ℕ
  pub project_id : ℕ
  pub recipient_id : ℕ
  pub transaction_id : ℕ
  pub channel : DeliveryChannel
  pub category : NotificationCategory
  pub content : NotificationContent
  pub send_time_basis : SendTimeBasis
  pub status : NotificationStatus
  pub topic_id : Option ℕ
  pub template_id : Option ℕ
  pub template_variables : Option Variables
  pub group_key : Option String
  pub idempotency_key : Option String
  pub send_at : Option DateTime
  pub suppression_reason : Option String
  pub cancellation_reason : Option String
  pub failure_reason : Option String
  pub delivered_at : Option DateTime
  pub created_at : DateTime
  pub updated_at : DateTime

abbrev pub is_status : NotificationStatus → NotificationStatus → Bool
is_status a b = a == b

-- `self.status in (PENDING, PROCESSING)`
abbrev pub is_open : NotificationStatus → Bool
is_open s = is_status s pending || is_status s NotificationStatus.processing

-- `status is FAILED or status is BOUNCED`
abbrev pub is_failure : NotificationStatus → Bool
is_failure s = is_status s NotificationStatus.failed || is_status s bounced

-- `__post_init__`, check by check
unfoldable pub post_init : Notification → Result Notification
post_init n = do
  raise_if (is_status n.status suppressed && is_none n.suppression_reason) invalid_attribute
  raise_if (not (is_status n.status suppressed) && is_some n.suppression_reason) invalid_attribute
  raise_if (not (is_status n.status cancelled) && is_some n.cancellation_reason) invalid_attribute
  raise_if (is_failure n.status && is_none n.failure_reason) invalid_attribute
  raise_if (not (is_failure n.status) && is_some n.failure_reason) invalid_attribute
  raise_if (is_status n.status delivered && is_none n.delivered_at) invalid_attribute
  raise_if (not (is_status n.status delivered) && is_some n.delivered_at) invalid_attribute
  raise_if (is_status n.status postponed && is_none n.send_at) invalid_attribute
  ok n

-- The arguments of `create`; `id` is the fresh `uuid4()`.
pub record NewNotification : Type 0 where
  pub project_id : ℕ
  pub recipient_id : ℕ
  pub transaction_id : ℕ
  pub channel : DeliveryChannel
  pub category : NotificationCategory
  pub topic_id : Option ℕ
  pub template_id : Option ℕ
  pub template_variables : Option Variables
  pub group_key : Option String
  pub idempotency_key : Option String
  pub send_at : Option DateTime
  pub send_time_basis : SendTimeBasis

-- The instance that `create` builds, before it is validated.
abbrev pub new_pending : ℕ → ℕ → NotificationContent → NewNotification → Notification
new_pending now id content f = record {
  id = id;
  project_id = f.project_id;
  recipient_id = f.recipient_id;
  transaction_id = f.transaction_id;
  channel = f.channel;
  category = f.category;
  content = content;
  send_time_basis = f.send_time_basis;
  status = pending;
  topic_id = f.topic_id;
  template_id = f.template_id;
  template_variables = f.template_variables;
  group_key = f.group_key;
  idempotency_key = f.idempotency_key;
  send_at = f.send_at;
  suppression_reason = none;
  cancellation_reason = none;
  failure_reason = none;
  delivered_at = none;
  created_at = utc now;
  updated_at = utc now;
}

unfoldable pub create : ℕ → ℕ → NotificationContent → NewNotification → Result Notification
create now id content f = post_init (new_pending now id content f)

abbrev pub is_ml_predicted : SendTimeBasis → Bool
is_ml_predicted ml_predicted = true
is_ml_predicted _ = false

unfoldable pub schedule : ℕ → DateTime → Notification → Result Notification
schedule now send_at n = do
  require (is_ml_predicted n.send_time_basis) invalid_attribute
  require (is_status n.status pending) invalid_attribute
  require send_at.aware invalid_attribute
  post_init (record n { send_at = some send_at; updated_at = utc now })

unfoldable pub with_content : ℕ → NotificationContent → Notification → Result Notification
with_content now content n = post_init (record n { content = content; updated_at = utc now })

-- `_transition` with no further change
unfoldable pub transition : ℕ → NotificationStatus → Notification → Result Notification
transition now status n = post_init (record n { status = status; updated_at = utc now })

unfoldable pub mark_processing : ℕ → Notification → Result Notification
unfolding transition
mark_processing now n = do
  require (is_status n.status pending || is_status n.status postponed)
      (invalid_transition n.status NotificationStatus.processing)
  transition now NotificationStatus.processing n

unfoldable pub retry_delivery : ℕ → Notification → Result Notification
unfolding transition
retry_delivery now n = do
  require (is_status n.status NotificationStatus.processing) (invalid_transition n.status pending)
  transition now pending n

unfoldable pub reclaim_processing : ℕ → Notification → Result Notification
unfolding transition
reclaim_processing now n = do
  require (is_status n.status NotificationStatus.processing)
      (invalid_transition n.status NotificationStatus.processing)
  transition now NotificationStatus.processing n

unfoldable pub mark_cancelled : ℕ → Option String → Notification → Result Notification
unfolding transition
mark_cancelled now reason n = do
  require (is_status n.status pending) (invalid_transition n.status cancelled)
  transition now cancelled (record n { cancellation_reason = reason })

unfoldable pub mark_suppressed : ℕ → String → Notification → Result Notification
unfolding transition
mark_suppressed now reason n = do
  require (is_open n.status) (invalid_transition n.status suppressed)
  raise_if (is_empty reason) invalid_attribute
  transition now suppressed (record n { suppression_reason = some reason })

unfoldable pub mark_postponed : ℕ → DateTime → Notification → Result Notification
unfolding transition
mark_postponed now resume_at n = do
  require (is_open n.status) (invalid_transition n.status postponed)
  require resume_at.aware invalid_attribute
  transition now postponed (record n { send_at = some resume_at })

unfoldable pub resume : ℕ → Notification → Result Notification
unfolding transition
resume now n = do
  require (is_status n.status postponed) (invalid_transition n.status pending)
  transition now pending n

unfoldable pub mark_delivered : ℕ → Notification → Result Notification
unfolding transition
mark_delivered now n = do
  require (is_open n.status) (invalid_transition n.status delivered)
  transition now delivered (record n { delivered_at = some (utc now) })

unfoldable pub mark_failed : ℕ → String → Notification → Result Notification
unfolding transition
mark_failed now reason n = do
  require (is_open n.status) (invalid_transition n.status NotificationStatus.failed)
  raise_if (is_empty reason) invalid_attribute
  transition now NotificationStatus.failed (record n { failure_reason = some reason })

unfoldable pub mark_bounced : ℕ → String → Notification → Result Notification
unfolding transition
mark_bounced now reason n = do
  require (is_open n.status) (invalid_transition n.status bounced)
  raise_if (is_empty reason) invalid_attribute
  transition now bounced (record n { failure_reason = some reason })
