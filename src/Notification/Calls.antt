-- ===== src/Notification/Calls.antt =====
-- One call of a method: when it returns, what it raises, and the edge that it follows.
use tiber.Prelude.{ℕ, ◌≡◌, ◌⊎◌, arith, true, false, if◌then◌else◌, inl, inr, sym, ◌∙◌, Bool}
use tiber.Enums.{NotificationStatus, pending, delivered, bounced, suppressed, postponed, cancelled}
use tiber.Result.{Error, ok, err, invalid_attribute, invalid_transition}
use tiber.Notification
use tiber.Notification.{Notification, post_init, is_open}
use tiber.Notification.Invariant.{IsConsistent, post_init_ok, post_init-IsConsistent}
use tiber.Notification.Lifecycle.{
  Method, schedule, with_content, mark_processing, retry_delivery, reclaim_processing, resume,
  mark_delivered, mark_cancelled, mark_suppressed, mark_failed, mark_bounced, mark_postponed,
  invoke, legal, written,
}

infix 40 ◌⟶◌
-- The transition diagram.
pub data ◌⟶◌ : NotificationStatus → NotificationStatus → Type 0 where
  claim : pending ⟶ NotificationStatus.processing
  claim_resumed : postponed ⟶ NotificationStatus.processing
  release : NotificationStatus.processing ⟶ pending
  reclaim : NotificationStatus.processing ⟶ NotificationStatus.processing
  lapse : postponed ⟶ pending
  cancel : pending ⟶ cancelled
  edit : {s : NotificationStatus} → s ⟶ s
  suppress : {s : NotificationStatus} → is_open s ≡ true → s ⟶ suppressed
  postpone : {s : NotificationStatus} → is_open s ≡ true → s ⟶ postponed
  deliver : {s : NotificationStatus} → is_open s ≡ true → s ⟶ delivered
  fail : {s : NotificationStatus} → is_open s ≡ true → s ⟶ NotificationStatus.failed
  bounce : {s : NotificationStatus} → is_open s ≡ true → s ⟶ bounced

ruleset edges = (
  claim, claim_resumed, release, reclaim, lapse, cancel, edit, suppress, postpone, deliver, fail,
  bounce,
)

-- The status that a method asks for, where it has one.
abbrev pub target : Method → NotificationStatus
target mark_processing = NotificationStatus.processing
target retry_delivery = pending
target reclaim_processing = NotificationStatus.processing
target resume = pending
target mark_delivered = delivered
target (mark_cancelled _) = cancelled
target (mark_suppressed _) = suppressed
target (mark_failed _) = NotificationStatus.failed
target (mark_bounced _) = bounced
target (mark_postponed _) = postponed
target _ = pending

-- The statuses from which a method may be called.
abbrev pub from_status : Method → NotificationStatus → Bool
from_status mark_processing pending = true
from_status mark_processing postponed = true
from_status retry_delivery NotificationStatus.processing = true
from_status reclaim_processing NotificationStatus.processing = true
from_status resume postponed = true
from_status mark_delivered s = is_open s
from_status (mark_cancelled _) pending = true
from_status (mark_suppressed _) s = is_open s
from_status (mark_failed _) s = is_open s
from_status (mark_bounced _) s = is_open s
from_status (mark_postponed _) s = is_open s
from_status (schedule _) s = true
from_status (with_content _) s = true
from_status _ _ = false

-- What a method that refuses its call raises.
abbrev pub refusal : Method → NotificationStatus → Error
refusal m s = if from_status m s then invalid_attribute else invalid_transition s (target m)

-- A method writes its record and has it validated, or raises.
invoke_lem :
    (now : ℕ) (m : Method) (n : Notification)
    → ((legal m n ≡ true) × (invoke now m n ≡ post_init (written now m n)))
      ⊎ ((legal m n ≡ false) × (invoke now m n ≡ err (refusal m n.status)))
unfolding invoke Notification.schedule Notification.with_content Notification.mark_processing
    Notification.retry_delivery Notification.reclaim_processing Notification.resume
    Notification.mark_delivered Notification.mark_cancelled Notification.mark_suppressed
    Notification.mark_failed Notification.mark_bounced Notification.mark_postponed
invoke_lem now mark_processing n = ground arith
invoke_lem now _ n = ground arith

-- What a legal call writes is consistent if what it was called on was.
pub written-IsConsistent :
    (now : ℕ) (m : Method) (n : Notification)
    → IsConsistent n
    → legal m n ≡ true
    → IsConsistent (written now m n)
written-IsConsistent now mark_processing n h l = ground arith
written-IsConsistent now _ n h l = ground arith

-- On a consistent notification a call returns what it writes exactly when it is legal, so the
-- validation after `replace` never raises; else it raises `InvalidStateTransitionError` from a
-- status that the method does not leave, and `InvalidEntityAttributeError` for a bad argument.
pub invoke-eq-if :
    (now : ℕ) (m : Method) (n : Notification)
    → IsConsistent n
    → invoke now m n ≡ (if legal m n then ok (written now m n) else err (refusal m n.status))
invoke-eq-if now m n h = elim (invoke_lem now m n) [
  | inl (l, e) ↦ rw (l, e) (post_init_ok (written now m n) (written-IsConsistent now m n h l))
  | inr (l, e) ↦ rw l e
]

-- A call that returns was legal, and returns what it wrote, which is consistent.
pub invoke-ok :
    (now : ℕ) (m : Method) (n : Notification) {n' : Notification}
    → invoke now m n ≡ ok n'
    → (legal m n ≡ true) × (n' ≡ written now m n) × IsConsistent n'
invoke-ok now m n {n'} e = elim (invoke_lem now m n) [
  | inl (l, p) ↦ let (c, q) = post_init-IsConsistent (written now m n) (sym p ∙ e) in (l, q, rw q c)
  | inr (l, p) ↦ absurd (cc)
]

written-⟶ :
    (now : ℕ) (m : Method) (n : Notification)
    → legal m n ≡ true
    → n.status ⟶ (written now m n).status
written-⟶ now mark_processing n l = grind (arith, edges)
written-⟶ now _ n l = grind (arith, edges)

-- Every call that returns follows an edge of the diagram.
pub invoke-⟶ :
    (now : ℕ) (m : Method) (n : Notification) {n' : Notification}
    → invoke now m n ≡ ok n'
    → n.status ⟶ n'.status
invoke-⟶ now m n e = let (l, q, _) = invoke-ok now m n e in rw q (written-⟶ now m n l)
