-- ===== src/Delivery/Idle.antt =====
-- When `process` does nothing, and when it only records what the policy says
-- (backend/src/tiber/application/services/delivery.py).
use tiber.Prelude.{
  ℕ, ◌-◌, ◌<◌, String, Option, none, some, Bool, true, false, ◌≡◌, ◌⊎◌, arith, refl, if◌then◌else◌,
  is_empty, or_else, inl, inr,
}
use tiber.Enums.{
  NotificationStatus, pending, postponed, PolicyConsequence, postpone, suppress, status_eq,
}
use tiber.Result.{ok}
use tiber.Time.{DateTime, utc}
use tiber.Notification.{Notification}
use tiber.Recipient.{Recipient}
use tiber.Policy.{PolicyDecision}
use tiber.Policy.Decisions.{IsActionable}
use tiber.Notification.Invariant.{IsConsistent}
use tiber.Notification.Lifecycle.{is_terminal, written, mark_suppressed, mark_postponed}
use tiber.Notification.Direct.{mark_suppressed_ok, mark_postponed_ok}
use tiber.Store.{Store, get_by_id, save}
use tiber.Delivery.{Ports, started, deciding, stop, go_on, is_early, gate_status, gate}
use tiber.Delivery.Begin.{begin, check_policy, apply_rejection, is_postpone, reason_of}
use tiber.Delivery.Process.{process}

-- Why there is nothing to do: it is finished, due later, or held by a worker whose lease has not
-- lapsed.
pub data IsIdle (p : Ports) (n : Notification) : Type 0 where
  finished : is_terminal n.status ≡ true → IsIdle p n
  scheduled :
      (t : DateTime)
      → (n.status ≡ pending) ⊎ (n.status ≡ postponed)
      → n.send_at ≡ some t
      → t.aware ≡ true
      → p.clock started < t.at
      → IsIdle p n
  held :
      n.status ≡ NotificationStatus.processing
      → n.updated_at.aware ≡ true
      → p.clock started - p.processing_lease < n.updated_at.at
      → IsIdle p n

IsIdle-stop : (p : Ports) (n : Notification) → IsIdle p n → gate p n ≡ ok (stop n)
unfolding gate gate_status
IsIdle-stop p n (finished t) = ground arith
IsIdle-stop p n (scheduled t (inl s) at aware later) = ground arith
IsIdle-stop p n (scheduled t (inr s) at aware later) = ground arith
IsIdle-stop p n (held s aware later) = ground arith

-- A notification of the project that is finished, scheduled for later, or held by a worker within
-- its lease is returned as it is, and nothing is written or sent.
pub process-idle :
    (p : Ports) (id project_id : ℕ) (s : Store) (n : Notification)
    → get_by_id id project_id s ≡ some n
    → IsIdle p n
    → process p id project_id s ≡ (ok n, s)
unfolding process begin
process-idle p id project_id s n f h = rw (f, IsIdle-stop p n h) refl

-- What a rejection writes.
abbrev pub rejected_row : ℕ → PolicyDecision → Notification → Notification
rejected_row now d n =
    if is_postpone d.consequence
    then written now (mark_postponed (or_else d.resume_at (utc 0))) n
    else written now (mark_suppressed (reason_of d.reason)) n

pub reason_of-nonempty : (r : Option String) → is_empty (reason_of r) ≡ false
reason_of-nonempty none = refl
reason_of-nonempty (some String.[]) = refl
reason_of-nonempty (some (String.◌∷◌ c t)) = refl

apply_rejection_ok :
    (now : ℕ) (n : Notification) (allowed : Bool) (c : Option PolicyConsequence)
    (reason rule : Option String) (at : Option DateTime)
    → let d : PolicyDecision = record {
      allowed = allowed;
      consequence = c;
      reason = reason;
      rule = rule;
      resume_at = at;
    } in
      IsConsistent n
      → n.status ≡ pending
      → IsActionable d
      → apply_rejection now d n ≡ ok (rejected_row now d n)
unfolding apply_rejection
apply_rejection_ok now n allowed (some postpone) reason rule (some t) h idle a =
    mark_postponed_ok now n h t (ground arith) (a.aware t refl)
apply_rejection_ok now n allowed (some postpone) reason rule none h idle a =
    absurd (let f = a.timed refl in cc)
apply_rejection_ok now n allowed (some suppress) reason rule at h idle a =
    mark_suppressed_ok now n h (reason_of reason) (ground arith) (reason_of-nonempty reason)
apply_rejection_ok now n allowed none reason rule at h idle a =
    mark_suppressed_ok now n h (reason_of reason) (ground arith) (reason_of-nonempty reason)

gate-due :
    (p : Ports) (n : Notification)
    → n.status ≡ pending
    → is_early n.send_at (p.clock started) ≡ ok false
    → gate p n ≡ ok (go_on n none)
unfolding gate gate_status
gate-due p n w due = rw (w, due) refl

-- A pending notification that is due and that the policy re-check rejects, with a decision that
-- can be carried out, is postponed to the time that the decision names or suppressed with its
-- reason, as the consequence says. Nothing is sent, no attempt is recorded, and only this row
-- changes.
pub process-rejected :
    (p : Ports) (id project_id : ℕ) (s : Store) (n : Notification) (r : Recipient)
    (d : PolicyDecision)
    → get_by_id id project_id s ≡ some n
    → IsConsistent n
    → n.status ≡ pending
    → is_early n.send_at (p.clock started) ≡ ok false
    → p.get_recipient n.recipient_id n.project_id ≡ some r
    → check_policy p n r ≡ some d
    → IsActionable d
    → let n' = rejected_row (p.clock deciding) d n in process p id project_id s ≡ (ok n', save n' s)
unfolding process begin
process-rejected p id project_id s n r d f h w due known barred a =
    rw
      (
        f,
        gate-due p n w due,
        known,
        barred,
        apply_rejection_ok (p.clock deciding) n d.allowed d.consequence d.reason d.rule d.resume_at
            h w a,
      )
      refl
