-- ===== src/Store.antt =====
-- The tables that delivery reads and writes: notifications, by id, and delivery attempts
-- (backend/src/tiber/infrastructure/repositories/sqlalchemy_notification_repository.py,
-- backend/src/tiber/domain/entities/delivery_attempt.py). A conditional UPDATE is one step. The
-- calls of the provider are recorded beside them.
pub mod Claims
use tiber.Prelude.{
  ℕ, String, Option, none, some, List, [], ◌∷◌, Bool, true, false, ◌&&◌, if◌then◌else◌, leb,
  is_none, is_blank,
}
use tiber.Prelude.Eq.{◌==◌, nat_eq}
use tiber.Enums.{
  DeliveryChannel, NotificationStatus, pending, status_eq, DeliveryAttemptStatus, success, fail,
}
use tiber.Result.{Result, ok, err, raise_if, invalid_attribute, value_error, ◌>>◌, ◌>>=◌}
use tiber.Time.{DateTime, utc}
use tiber.Content.{NotificationContent}
use tiber.Notification.{Notification, is_status}

pub record DeliveryAttempt : Type 0 where
  pub id : ℕ
  pub notification_id : ℕ
  pub status : DeliveryAttemptStatus
  pub channel : DeliveryChannel
  pub provider : String
  pub recipient_address : Option String
  pub provider_message_id : Option String
  pub error : Option String
  pub created_at : DateTime

abbrev pub is_success : DeliveryAttemptStatus → Bool
is_success success = true
is_success fail = false

-- `__post_init__` of an attempt
unfoldable pub attempt_post_init : DeliveryAttempt → Result DeliveryAttempt
attempt_post_init a = do
  raise_if (is_blank a.provider) invalid_attribute
  raise_if (is_success a.status && is_none a.recipient_address) invalid_attribute
  ok a

-- One call of `provider.send`.
pub record Send : Type 0 where
  pub notification_id : ℕ
  pub recipient_address : String
  pub content : NotificationContent

pub record Store : Type 0 where
  pub rows : ℕ → Option Notification
  pub attempts : List DeliveryAttempt
  pub sends : List Send

abbrev pub in_project : ℕ → Option Notification → Option Notification
in_project project_id none = none
in_project project_id (some n) = if n.project_id == project_id then some n else none

unfoldable pub get_by_id : ℕ → ℕ → Store → Option Notification
get_by_id id project_id s = in_project project_id (s.rows id)

abbrev pub write : Notification → (ℕ → Option Notification) → ℕ → Option Notification
write n rows j = if j == n.id then some n else rows j

unfoldable pub save : Notification → Store → Store
save n s = record s { rows = write n s.rows }

unfoldable pub save_attempt : DeliveryAttempt → Store → Store
save_attempt a s = record s { attempts = a ∷ s.attempts }

unfoldable pub record_send : Send → Store → Store
record_send c s = record s { sends = c ∷ s.sends }

-- the columns that `claim_for_delivery` writes
abbrev pub claimed_row : Notification → Notification → Notification
claimed_row n row = record row { status = n.status; content = n.content; updated_at = n.updated_at }

-- `updated_at <= stale_before` on the stored instants, where the status asks for it
abbrev pub lease_lapsed : NotificationStatus → Option DateTime → Notification → Bool
lease_lapsed expected none row = true
lease_lapsed expected (some cutoff) row =
    if is_status expected NotificationStatus.processing
    then leb row.updated_at.at cutoff.at
    else true

-- The WHERE clause of the two conditional updates.
abbrev pub selects : Notification → NotificationStatus → Notification → Bool
selects n expected row = row.project_id == n.project_id && is_status row.status expected

abbrev pub update_claimed :
    Notification → NotificationStatus → Option DateTime → Option Notification → Store → Bool × Store
update_claimed n expected stale_before none s = (false, s)
update_claimed n expected stale_before (some row) s =
    if selects n expected row && lease_lapsed expected stale_before row
    then (true, record s { rows = write (claimed_row n row) s.rows })
    else (false, s)

unfoldable pub claim_for_delivery :
    Notification → NotificationStatus → Option DateTime → Store → Result (Bool × Store)
claim_for_delivery n expected stale_before s = do
  raise_if (is_status expected NotificationStatus.processing && is_none stale_before) value_error
  ok (update_claimed n expected stale_before (s.rows n.id) s)

-- the columns that `cancel_pending` writes
abbrev pub cancelled_row : Notification → Notification → Notification
cancelled_row n row = record row {
  status = n.status;
  cancellation_reason = n.cancellation_reason;
  updated_at = n.updated_at;
}

abbrev pub update_cancelled : Notification → Option Notification → Store → Bool × Store
update_cancelled n none s = (false, s)
update_cancelled n (some row) s =
    if selects n pending row
    then (true, record s { rows = write (cancelled_row n row) s.rows })
    else (false, s)

unfoldable pub cancel_pending : Notification → Store → Bool × Store
cancel_pending n s = update_cancelled n (s.rows n.id) s
