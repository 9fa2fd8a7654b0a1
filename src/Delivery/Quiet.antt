-- ===== src/Delivery/Quiet.antt =====
-- The first transaction keeps the store sound and records nothing
-- (backend/src/tiber/application/services/delivery.py).
use tiber.Prelude.{
  ℕ, Option, none, some, Bool, true, false, ◌≡◌, arith, refl, sym, ◌∙◌, if◌then◌else◌,
}
use tiber.Prelude.Eq.{nat_eq}
use tiber.Enums.{NotificationStatus, status_eq}
use tiber.Result.{value_error, ok, err, ◌>>=◌, >>=-eq-ok}
use tiber.Time.{DateTime}
use tiber.Content.{NotificationContent}
use tiber.Notification.{Notification, mark_suppressed, mark_postponed}
use tiber.Notification.Invariant.{IsConsistent}
use tiber.Notification.Lifecycle.{Method, invoke, is_terminal}
use tiber.Notification.Calls.{invoke-ok}
use tiber.Policy.{PolicyDecision}
use tiber.Recipient.{Recipient}
use tiber.Store.{Store, save, claimed_row, claim_for_delivery}
use tiber.Store.Claims.{claim_for_delivery-Claimed, claim_for_delivery-false}
use tiber.Delivery.{Ports, deciding, Gate, stop, go_on, gate}
use tiber.Delivery.Begin.{
  Begun, returned, claim_step, after_claim, to_processing, check_policy, apply_rejection,
  is_postpone, reason_of, resolve, on_decision, on_recipient, on_gate, on_row, begin,
}
use tiber.Delivery.Reach.{gate-Passes, to_processing-ok}
use tiber.Delivery.Keeps.{write-IsSound, Keeps, Keeps-same, Keeps-save, claimed_row-IsConsistent}

Keeps-claim :
    (n : Notification) (expected : NotificationStatus) (stale_before : Option DateTime)
    (s s' : Store) (won : Bool)
    → n.status ≡ NotificationStatus.processing
    → is_terminal expected ≡ false
    → claim_for_delivery n expected stale_before s ≡ ok (won, s')
    → Keeps s s'
Keeps-claim n expected stale_before s s' false busy live e =
    rw (claim_for_delivery-false n expected stale_before s e) (Keeps-same s)
Keeps-claim n expected stale_before s s' true busy live e =
    let c = claim_for_delivery-Claimed n expected stale_before s e in
    rw c.written (record {
      sound = λ h.
          write-IsSound (claimed_row n c.row) s.rows h (
            claimed_row-IsConsistent n c.row expected busy live (ground arith) ((h _ _ c.found).1));
      sends = refl;
      attempts = refl;
    })

after_claim-store :
    (id project_id : ℕ) (r : Recipient) (content : NotificationContent) (m x : Notification)
    (taken : Bool × Store)
    → (after_claim id project_id r content m x taken).1 ≡ taken.1
after_claim-store id project_id r content m x (true, s) = refl
after_claim-store id project_id r content m x (false, s) = refl

claim_step-Keeps :
    (p : Ports) (id project_id : ℕ) (expected : NotificationStatus) (stale_before : Option DateTime)
    (r : Recipient) (content : NotificationContent) (m : Notification) (s s' : Store) (b : Begun)
    → is_terminal expected ≡ false
    → claim_step p id project_id expected stale_before r content m s ≡ ok (b, s')
    → Keeps s s'
unfolding claim_step
claim_step-Keeps p id project_id expected stale_before r content m s s' b live e =
    let (x, a, c) =
      >>=-eq-ok (to_processing p expected m)
        (λ x. claim_for_delivery x expected stale_before s >>= λ t.
          ok (after_claim id project_id r content m x t))
        e in
    let ((won, s''), d, f) =
      >>=-eq-ok (claim_for_delivery x expected stale_before s)
        (λ t. ok (after_claim id project_id r content m x t)) c in
    let q : s'' ≡ s' = sym (after_claim-store id project_id r content m x (won, s'')) ∙ cc in
    let busy = (to_processing-ok p expected m x a).0 in
    rw (sym q) (Keeps-claim x expected stale_before s s'' won (rw busy refl) live d)

rejection-IsConsistent :
    (now : ℕ) (d : PolicyDecision) (n u : Notification)
    → apply_rejection now d n ≡ ok u
    → IsConsistent u
unfolding apply_rejection invoke
rejection-IsConsistent now d n u e = go (is_postpone d.consequence) d.resume_at e
  where
    go :
        (b : Bool) (t : Option DateTime)
        → (if b
            then (elim t [ none ↦ err value_error | some x ↦ mark_postponed now x n ])
            else mark_suppressed now (reason_of d.reason) n)
          ≡ ok u
        → IsConsistent u
    go true none q = absurd (cc)
    go true (some t) q = (invoke-ok now (Method.mark_postponed t) n q).2
    go false t q = (invoke-ok now (Method.mark_suppressed (reason_of d.reason)) n q).2

on_decision-Keeps :
    (p : Ports) (id project_id : ℕ) (expected : NotificationStatus) (stale_before : Option DateTime)
    (r : Recipient) (m : Notification) (s s' : Store) (d : Option PolicyDecision) (b : Begun)
    → is_terminal expected ≡ false
    → on_decision p id project_id expected stale_before r m s d ≡ ok (b, s')
    → Keeps s s'
on_decision-Keeps p id project_id expected stale_before r m s s' (some d) b live e =
    let (u, a, q) =
      >>=-eq-ok (apply_rejection (p.clock deciding) d m) (λ u. ok (returned u, save u s)) e in
    let w : save u s ≡ s' = cc in
    rw (sym w) (Keeps-save u s (rejection-IsConsistent (p.clock deciding) d m u a))
on_decision-Keeps p id project_id expected stale_before r m s s' none b live e =
    let ((c, x), a, q) =
      >>=-eq-ok (resolve p m) (λ z. claim_step p id project_id expected stale_before r z.0 z.1 s)
        e in
    claim_step-Keeps p id project_id expected stale_before r c x s s' b live q

on_recipient-Keeps :
    (p : Ports) (id project_id : ℕ) (expected : NotificationStatus) (stale_before : Option DateTime)
    (m : Notification) (s s' : Store) (r : Option Recipient) (b : Begun)
    → is_terminal expected ≡ false
    → on_recipient p id project_id expected stale_before m s r ≡ ok (b, s')
    → Keeps s s'
on_recipient-Keeps p id project_id expected stale_before m s s' none b live e = absurd (cc)
on_recipient-Keeps p id project_id expected stale_before m s s' (some r) b live e =
    on_decision-Keeps p id project_id expected stale_before r m s s' (check_policy p m r) b live e

on_gate-Keeps :
    (p : Ports) (id project_id : ℕ) (row : Notification) (s s' : Store) (g : Gate) (b : Begun)
    → gate p row ≡ ok g
    → on_gate p id project_id row.status s g ≡ ok (b, s')
    → Keeps s s'
on_gate-Keeps p id project_id row s s' (stop m) b a e =
    let w : s ≡ s' = cc in rw (sym w) (Keeps-same s)
on_gate-Keeps p id project_id row s s' (go_on m sb) b a e =
    let live = (gate-Passes p row m sb a).unfinished in
    on_recipient-Keeps p id project_id row.status sb m s s' _ b live e

on_row-Keeps :
    (p : Ports) (id project_id : ℕ) (s s' : Store) (found : Option Notification) (b : Begun)
    → on_row p id project_id s found ≡ ok (b, s')
    → Keeps s s'
on_row-Keeps p id project_id s s' none b e = absurd (cc)
on_row-Keeps p id project_id s s' (some row) b e =
    let (g, a, q) = >>=-eq-ok (gate p row) (on_gate p id project_id row.status s) e in
    on_gate-Keeps p id project_id row s s' g b a q

-- Whatever it ends with, the first transaction keeps every row sound, sends nothing and records no
-- attempt.
pub begin-Keeps :
    (p : Ports) (id project_id : ℕ) (s s' : Store) (b : Begun)
    → begin p id project_id s ≡ ok (b, s')
    → Keeps s s'
unfolding begin
begin-Keeps p id project_id s s' b e = on_row-Keeps p id project_id s s' _ b e
