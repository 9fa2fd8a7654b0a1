-- ===== src/Delivery.antt =====
-- The delivery processor (backend/src/tiber/application/services/delivery.py): its ports, and the
-- checks of the state with which `process` begins.
pub mod Begin
pub mod Finish
pub mod Process
pub mod Outcome
pub mod Reach
pub mod Sends
pub mod Idle
pub mod Consent
pub mod Keeps
pub mod Quiet
pub mod Sound
use tiber.Prelude.{
  ℕ, ◌-◌, String, Option, none, some, List, [], ◌∷◌, Bool, true, false, ◌&&◌, if◌then◌else◌,
  is_none, is_empty, is_missing, or_else, ◌<>◌,
}
use tiber.Enums.{
  DeliveryChannel, NotificationStatus, pending, postponed, PolicyConsequence, postpone, suppress,
  DeliveryAttemptStatus, success, fail, channel_eq, status_eq,
}
use tiber.Result.{
  Result, Error, ok, err, raise_if, entity_not_found, a_notification, a_recipient, value_error,
  other, ◌>>=◌, ◌>>◌,
}
use tiber.Time.{DateTime, utc, is_after}
use tiber.Content.{NotificationContent}
use tiber.Notification.{
  Notification, is_status, with_content, mark_processing, retry_delivery, reclaim_processing,
  mark_suppressed, mark_postponed, resume, mark_delivered, mark_failed,
}
use tiber.Recipient.{Recipient, DeliveryConstraint, get_address}
use tiber.Policy.{PolicyDecision, PolicyRule, evaluate}
use tiber.Policy.Reasons.{channel_text}
use tiber.Store.{
  DeliveryAttempt, attempt_post_init, Send, Store, get_by_id, save, save_attempt, record_send,
  claim_for_delivery,
}

-- The outcome of `provider.send`: it raises, or returns a `ProviderResult`.
pub data ProviderOutcome : Type 0 where
  raised : String → ProviderOutcome
  accepted : Option String → ProviderOutcome
  rejected : Option String → ProviderOutcome

-- The places where `process` reads a clock or makes an identifier.
pub data Reading : Type 0 where
  started resuming checking deciding rendering claiming settling : Reading

-- The ports of the processor, and its settings.
pub record Ports : Type 0 where
  pub get_recipient : ℕ → ℕ → Option Recipient
  -- `none` where no guard is given; the chain of rules otherwise
  pub policy_guard : Option (List PolicyRule)
  -- `none` for a project without one, or without a repository
  pub load_constraint : ℕ → Option DeliveryConstraint
  -- `none` where no resolver is given
  pub resolve_content : Option (Notification → Result NotificationContent)
  pub send : Send → ProviderOutcome
  pub provider_name : String
  -- `processing_lease_seconds`, in microseconds
  pub processing_lease : ℕ
  pub clock : Reading → ℕ
  pub attempt_id : ℕ

-- What a check of the state says: return this notification, or go on with it.
pub data Gate : Type 0 where
  stop : Notification → Gate
  go_on : Notification → Option DateTime → Gate

-- `send_at is not None and send_at > now`
abbrev pub is_early : Option DateTime → ℕ → Result Bool
is_early none now = ok false
is_early (some t) now = is_after t (utc now)

-- The branches on the status that was read.
unfoldable pub gate_status : Ports → Notification → Result Gate
gate_status p n =
    let now = p.clock started in
    elim n.status [
      | NotificationStatus.processing ↦ do
        let stale_before = utc (now - p.processing_lease)
        held ← is_after n.updated_at stale_before
        ok (if held then stop n else go_on n (some stale_before))
      | postponed ↦ do
        early ← if is_none n.send_at then ok true else is_early n.send_at now
        if early
            then ok (stop n)
            else do resumed ← resume (p.clock resuming) n; ok (go_on resumed none)
      | pending ↦ ok (go_on n none)
      | _ ↦ ok (stop n)
    ]

-- The scheduling guard after them.
abbrev pub guard_schedule : Ports → Gate → Result Gate
guard_schedule p (stop m) = ok (stop m)
guard_schedule p (go_on m stale_before) = do
  early ← is_early m.send_at (p.clock started)
  ok (if early then stop m else go_on m stale_before)

unfoldable pub gate : Ports → Notification → Result Gate
unfolding gate_status
gate p n = do g ← gate_status p n; guard_schedule p g
