-- ===== src/Notification/Invariant.antt =====
-- What `__post_init__` accepts, and that every method keeps it.
use tiber.Prelude.{none, ◌≡◌, ◌≢◌, ◌⊎◌, arith}
use tiber.Enums.{NotificationStatus, delivered, bounced, suppressed, postponed, cancelled}
use tiber.Result.{ok}
use tiber.Notification.{Notification, post_init}

-- The reasons and times that go with a status are there exactly when it is.
pub record IsConsistent (n : Notification) : Type 0 where
  pub suppression : n.status ≡ suppressed → n.suppression_reason ≢ none
  pub no_suppression : n.status ≢ suppressed → n.suppression_reason ≡ none
  pub no_cancellation : n.status ≢ cancelled → n.cancellation_reason ≡ none
  pub failure :
      (n.status ≡ NotificationStatus.failed) ⊎ (n.status ≡ bounced) → n.failure_reason ≢ none
  pub no_failure :
      n.status ≢ NotificationStatus.failed → n.status ≢ bounced → n.failure_reason ≡ none
  pub delivery : n.status ≡ delivered → n.delivered_at ≢ none
  pub no_delivery : n.status ≢ delivered → n.delivered_at ≡ none
  pub resume_time : n.status ≡ postponed → n.send_at ≢ none

pub post_init_ok : (n : Notification) → IsConsistent n → post_init n ≡ ok n
unfolding post_init
post_init_ok n h = ground arith

pub post_init-IsConsistent :
    (n : Notification) {m : Notification} → post_init n ≡ ok m → IsConsistent n × (m ≡ n)
unfolding post_init
post_init-IsConsistent n h = ground arith
