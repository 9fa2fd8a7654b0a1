-- ===== src/Cancellation.antt =====
-- `NotificationCancellationService` (backend/src/tiber/application/services/notification_cancellation.py).
pub mod Branches
use tiber.Prelude.{ℕ, Option, none, some, Bool, true, false}
use tiber.Enums.{NotificationStatus, cancelled}
use tiber.Result.{
  Result, Error, ok, err, entity_not_found, a_notification, invalid_transition, ◌>>=◌,
}
use tiber.Notification.{Notification, mark_cancelled}
use tiber.Store.{Store, get_by_id, cancel_pending}

-- the error where the row was taken between the read and the write
abbrev pub why_not : Option Notification → Error
why_not none = entity_not_found a_notification
why_not (some current) = invalid_transition current.status cancelled

abbrev pub after_update : ℕ → ℕ → Bool × Store → Result Store
after_update project_id id (true, s) = ok s
after_update project_id id (false, s) = err (why_not (get_by_id id project_id s))

abbrev pub cancel_row : ℕ → Option Notification → Result Notification
cancel_row now none = err (entity_not_found a_notification)
cancel_row now (some n) = mark_cancelled now none n

-- `cancel`: the read in one state of the store, the update in a later one, since other workers may
-- write between the two.
unfoldable pub cancel : ℕ → ℕ → ℕ → Store → Store → Result Store
cancel now project_id id read s = do
  updated ← cancel_row now (get_by_id id project_id read)
  after_update project_id id (cancel_pending updated s)
