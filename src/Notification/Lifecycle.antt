-- ===== src/Notification/Lifecycle.antt =====
-- The methods of a notification as calls (backend/src/tiber/domain/entities/notification.py): which
-- calls are legal and what they write.
use tiber.Prelude.{ℕ, String, Option, some, ◌&&◌, ◌||◌, not, Bool, true, false, is_empty}
use tiber.Enums.{
  NotificationStatus, pending, delivered, bounced, suppressed, postponed, cancelled, status_eq,
}
use tiber.Result.{Result}
use tiber.Time.{DateTime, utc}
use tiber.Content.{NotificationContent}
use tiber.Notification
use tiber.Notification.{Notification, post_init, is_ml_predicted, is_open, is_status}

-- A call of one of the methods, with its arguments.
pub data Method : Type 0 where
  schedule : DateTime → Method
  with_content : NotificationContent → Method
  mark_processing retry_delivery reclaim_processing resume mark_delivered : Method
  mark_cancelled : Option String → Method
  mark_suppressed mark_failed mark_bounced : String → Method
  mark_postponed : DateTime → Method

unfoldable pub invoke : ℕ → Method → Notification → Result Notification
invoke now (schedule send_at) n = Notification.schedule now send_at n
invoke now (with_content content) n = Notification.with_content now content n
invoke now mark_processing n = Notification.mark_processing now n
invoke now retry_delivery n = Notification.retry_delivery now n
invoke now reclaim_processing n = Notification.reclaim_processing now n
invoke now resume n = Notification.resume now n
invoke now mark_delivered n = Notification.mark_delivered now n
invoke now (mark_cancelled reason) n = Notification.mark_cancelled now reason n
invoke now (mark_suppressed reason) n = Notification.mark_suppressed now reason n
invoke now (mark_failed reason) n = Notification.mark_failed now reason n
invoke now (mark_bounced reason) n = Notification.mark_bounced now reason n
invoke now (mark_postponed resume_at) n = Notification.mark_postponed now resume_at n

abbrev pub is_terminal : NotificationStatus → Bool
is_terminal pending = false
is_terminal NotificationStatus.processing = false
is_terminal postponed = false
is_terminal _ = true

-- Which statuses and arguments a method accepts.
abbrev pub legal : Method → Notification → Bool
legal (schedule send_at) n =
    is_ml_predicted n.send_time_basis && is_status n.status pending && send_at.aware
legal (with_content content) n = true
legal mark_processing n = is_status n.status pending || is_status n.status postponed
legal retry_delivery n = is_status n.status NotificationStatus.processing
legal reclaim_processing n = is_status n.status NotificationStatus.processing
legal resume n = is_status n.status postponed
legal mark_delivered n = is_open n.status
legal (mark_cancelled reason) n = is_status n.status pending
legal (mark_suppressed reason) n = is_open n.status && not (is_empty reason)
legal (mark_failed reason) n = is_open n.status && not (is_empty reason)
legal (mark_bounced reason) n = is_open n.status && not (is_empty reason)
legal (mark_postponed resume_at) n = is_open n.status && resume_at.aware

-- What a method that accepts its call writes.
abbrev pub written : ℕ → Method → Notification → Notification
written now (schedule send_at) n = record n { send_at = some send_at; updated_at = utc now }
written now (with_content content) n = record n { content = content; updated_at = utc now }
written now mark_processing n = record n {
  status = NotificationStatus.processing;
  updated_at = utc now;
}
written now retry_delivery n = record n { status = pending; updated_at = utc now }
written now reclaim_processing n = record n {
  status = NotificationStatus.processing;
  updated_at = utc now;
}
written now resume n = record n { status = pending; updated_at = utc now }
written now mark_delivered n = record n {
  status = delivered;
  delivered_at = some (utc now);
  updated_at = utc now;
}
written now (mark_cancelled reason) n = record n {
  status = cancelled;
  cancellation_reason = reason;
  updated_at = utc now;
}
written now (mark_suppressed reason) n = record n {
  status = suppressed;
  suppression_reason = some reason;
  updated_at = utc now;
}
written now (mark_failed reason) n = record n {
  status = NotificationStatus.failed;
  failure_reason = some reason;
  updated_at = utc now;
}
written now (mark_bounced reason) n = record n {
  status = bounced;
  failure_reason = some reason;
  updated_at = utc now;
}
written now (mark_postponed resume_at) n = record n {
  status = postponed;
  send_at = some resume_at;
  updated_at = utc now;
}
