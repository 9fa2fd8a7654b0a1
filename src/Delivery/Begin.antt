-- ===== src/Delivery/Begin.antt =====
-- The first transaction of `process` (backend/src/tiber/application/services/delivery.py): the policy
-- re-check, the content and the claim. If it raises, the store is left as it was.
use tiber.Prelude.{
  ℕ, String, Option, none, some, Bool, true, false, if◌then◌else◌, is_none, is_empty, or_else,
}
use tiber.Enums.{NotificationStatus, PolicyConsequence, postpone, channel_eq, status_eq}
use tiber.Result.{
  Result, ok, err, entity_not_found, a_notification, a_recipient, value_error, ◌>>=◌,
}
use tiber.Time.{DateTime}
use tiber.Content.{NotificationContent}
use tiber.Notification.{
  Notification, is_status, with_content, mark_processing, reclaim_processing, mark_suppressed,
  mark_postponed,
}
use tiber.Recipient.{Recipient, get_address}
use tiber.Policy.{PolicyDecision, evaluate}
use tiber.Store.{Store, get_by_id, save, claim_for_delivery}
use tiber.Delivery.{checking, deciding, rendering, claiming, Ports, Gate, stop, go_on, gate}

abbrev pub is_postpone : Option PolicyConsequence → Bool
is_postpone (some postpone) = true
is_postpone _ = false

-- `decision.reason or "policy violation"`
abbrev pub reason_of : Option String → String
reason_of none = "policy violation"
reason_of (some r) = if is_empty r then "policy violation" else r

-- What a rejection makes of the notification.
unfoldable pub apply_rejection : ℕ → PolicyDecision → Notification → Result Notification
apply_rejection now d n =
    if is_postpone d.consequence
    then elim d.resume_at [ none ↦ err value_error | some t ↦ mark_postponed now t n ]
    else mark_suppressed now (reason_of d.reason) n

unfoldable pub check_policy : Ports → Notification → Recipient → Option PolicyDecision
check_policy p n r = elim p.policy_guard [
  | none ↦ none
  | some rules ↦
      let d = evaluate rules (p.clock checking) n r (p.load_constraint n.project_id) in
      if d.allowed then none else some d
]

-- The content, and the notification that carries it.
unfoldable pub resolve : Ports → Notification → Result (NotificationContent × Notification)
resolve p n = elim p.resolve_content [
  | none ↦ ok (n.content, n)
  | some resolver ↦ do
    content ← resolver n
    if is_none n.template_id
        then ok (content, n)
        else do m ← with_content (p.clock rendering) content n; ok (content, m)
]

-- What the first transaction ends with.
pub data Begun : Type 0 where
  -- a return, with nothing sent
  returned : Notification → Begun
  -- the claimed notification, the content and the recipient's address
  claimed : Notification → NotificationContent → Option String → Begun

-- `reclaim_processing()` or `mark_processing()`
unfoldable pub to_processing : Ports → NotificationStatus → Notification → Result Notification
to_processing p expected n =
    if is_status expected NotificationStatus.processing
    then reclaim_processing (p.clock claiming) n
    else mark_processing (p.clock claiming) n

-- `if not claimed: return fresh or notification`
abbrev pub after_claim :
    ℕ
    → ℕ
    → Recipient
    → NotificationContent
    → Notification
    → Notification
    → Bool × Store
    → Begun × Store
after_claim id project_id r content n processing (true, s) =
    (claimed processing content (get_address n.channel r.addresses), s)
after_claim id project_id r content n processing (false, s) =
    (returned (or_else (get_by_id id project_id s) n), s)

unfoldable pub claim_step :
    Ports
    → ℕ
    → ℕ
    → NotificationStatus
    → Option DateTime
    → Recipient
    → NotificationContent
    → Notification
    → Store
    → Result (Begun × Store)
unfolding to_processing
claim_step p id project_id expected stale_before r content n s = do
  processing ← to_processing p expected n
  taken ← claim_for_delivery processing expected stale_before s
  ok (after_claim id project_id r content n processing taken)

-- The content, then the claim, where the policy re-check allows; else what it rejects.
abbrev pub on_decision :
    Ports
    → ℕ
    → ℕ
    → NotificationStatus
    → Option DateTime
    → Recipient
    → Notification
    → Store
    → Option PolicyDecision
    → Result (Begun × Store)
on_decision p id project_id expected stale_before r n s (some d) = do
  updated ← apply_rejection (p.clock deciding) d n
  ok (returned updated, save updated s)
on_decision p id project_id expected stale_before r n s none = do
  resolved ← resolve p n
  claim_step p id project_id expected stale_before r resolved.0 resolved.1 s

abbrev pub on_recipient :
    Ports
    → ℕ
    → ℕ
    → NotificationStatus
    → Option DateTime
    → Notification
    → Store
    → Option Recipient
    → Result (Begun × Store)
on_recipient p id project_id expected stale_before n s none = err (entity_not_found a_recipient)
on_recipient p id project_id expected stale_before n s (some r) =
    on_decision p id project_id expected stale_before r n s (check_policy p n r)

abbrev pub on_gate : Ports → ℕ → ℕ → NotificationStatus → Store → Gate → Result (Begun × Store)
on_gate p id project_id expected s (stop n) = ok (returned n, s)
on_gate p id project_id expected s (go_on n stale_before) =
    on_recipient p id project_id expected stale_before n s
      (p.get_recipient n.recipient_id n.project_id)

abbrev pub on_row : Ports → ℕ → ℕ → Store → Option Notification → Result (Begun × Store)
on_row p id project_id s none = err (entity_not_found a_notification)
on_row p id project_id s (some n) = do g ← gate p n; on_gate p id project_id n.status s g

-- The first transaction of `process`.
unfoldable pub begin : Ports → ℕ → ℕ → Store → Result (Begun × Store)
begin p id project_id s = on_row p id project_id s (get_by_id id project_id s)
