-- ===== src/Notification/Direct.antt =====
-- The methods that delivery calls, at the statuses from which it calls them.
use tiber.Prelude.{ℕ, String, ◌≡◌, arith, true, false, is_empty, ◌∙◌}
use tiber.Enums.{NotificationStatus, pending, postponed}
use tiber.Result.{ok}
use tiber.Time.{DateTime}
use tiber.Content.{NotificationContent}
use tiber.Notification
use tiber.Notification.{Notification, is_open}
use tiber.Notification.Invariant.{IsConsistent}
use tiber.Notification.Lifecycle.{
  Method, invoke, written, mark_processing, retry_delivery, reclaim_processing, mark_delivered,
  mark_failed, mark_suppressed, mark_postponed, resume, with_content, legal,
}
use tiber.Notification.Calls.{invoke-eq-if}

module _ (now : ℕ) (n : Notification) (h : IsConsistent n) where
  legal_ok : (m : Method) → legal m n ≡ true → invoke now m n ≡ ok (written now m n)
  legal_ok m l = invoke-eq-if now m n h ∙ rw l

  pub mark_delivered_ok :
      is_open n.status ≡ true
      → Notification.mark_delivered now n ≡ ok (written now mark_delivered n)
  unfolding invoke
  mark_delivered_ok o = legal_ok mark_delivered o

  pub mark_failed_ok :
      (reason : String)
      → is_open n.status ≡ true
      → is_empty reason ≡ false
      → Notification.mark_failed now reason n ≡ ok (written now (mark_failed reason) n)
  unfolding invoke
  mark_failed_ok reason o e = legal_ok (mark_failed reason) (ground arith)

  pub mark_suppressed_ok :
      (reason : String)
      → is_open n.status ≡ true
      → is_empty reason ≡ false
      → Notification.mark_suppressed now reason n ≡ ok (written now (mark_suppressed reason) n)
  unfolding invoke
  mark_suppressed_ok reason o e = legal_ok (mark_suppressed reason) (ground arith)

  pub mark_postponed_ok :
      (t : DateTime)
      → is_open n.status ≡ true
      → t.aware ≡ true
      → Notification.mark_postponed now t n ≡ ok (written now (mark_postponed t) n)
  unfolding invoke
  mark_postponed_ok t o e = legal_ok (mark_postponed t) (ground arith)

  pub retry_delivery_ok :
      n.status ≡ NotificationStatus.processing
      → Notification.retry_delivery now n ≡ ok (written now retry_delivery n)
  unfolding invoke
  retry_delivery_ok e = legal_ok retry_delivery (ground arith)

  pub reclaim_processing_ok :
      n.status ≡ NotificationStatus.processing
      → Notification.reclaim_processing now n ≡ ok (written now reclaim_processing n)
  unfolding invoke
  reclaim_processing_ok e = legal_ok reclaim_processing (ground arith)

  pub mark_processing_ok :
      n.status ≡ pending → Notification.mark_processing now n ≡ ok (written now mark_processing n)
  unfolding invoke
  mark_processing_ok e = legal_ok mark_processing (ground arith)

  pub resume_ok : n.status ≡ postponed → Notification.resume now n ≡ ok (written now resume n)
  unfolding invoke
  resume_ok e = legal_ok resume (ground arith)

  pub with_content_ok :
      (c : NotificationContent)
      → Notification.with_content now c n ≡ ok (written now (with_content c) n)
  unfolding invoke
  with_content_ok c = legal_ok (with_content c) (ground arith)
