-- ===== src/Delivery/Sends.antt =====
-- Where `process` sends from (backend/src/tiber/application/services/delivery.py).
use tiber.Prelude.{ℕ, String, Option, none, some, true, ◌≡◌, refl, ◌∙◌}
use tiber.Enums.{NotificationStatus, status_eq}
use tiber.Result.{ok, >>=-eq-ok}
use tiber.Time.{DateTime}
use tiber.Notification.{Notification}
use tiber.Notification.Invariant.{IsConsistent}
use tiber.Content.{NotificationContent}
use tiber.Policy.{PolicyDecision}
use tiber.Recipient.{Recipient, get_address}
use tiber.Store.{Store, claim_for_delivery, get_by_id, save}
use tiber.Delivery.Begin.{
  returned, claimed, claim_step, check_policy, resolve, apply_rejection, on_decision, on_recipient,
  on_gate, on_row, begin,
}
use tiber.Delivery.{Ports, deciding, claiming, Gate, stop, go_on, gate}
use tiber.Delivery.Reach.{Passes, gate-Passes, to_busy, claim_step-claimed}

-- Where the program sends from: the notification that was read, what the gate made of it, and the
-- recipient.
pub record Sendable (p : Ports) (id project_id : ℕ) (s s' : Store) (n : Notification)
    (content : NotificationContent) (address : Option String) : Type 0 where
  pub row : Notification
  pub gated : Notification
  pub rendered : Notification
  pub recipient : Recipient
  pub stale_before : Option DateTime
  pub found : get_by_id id project_id s ≡ some row
  pub passes : Passes p row gated
  pub known : p.get_recipient gated.recipient_id gated.project_id ≡ some recipient
  pub permitted : check_policy p gated recipient ≡ none
  pub resolved : resolve p gated ≡ ok (content, rendered)
  pub busy : n ≡ to_busy (p.clock claiming) rendered
  pub consistent : IsConsistent n
  pub addressed : address ≡ get_address rendered.channel recipient.addresses
  pub exclusive : claim_for_delivery n row.status stale_before s ≡ ok (true, s')

on_decision-claimed :
    (p : Ports) (id project_id : ℕ) (expected : NotificationStatus) (stale_before : Option DateTime)
    (r : Recipient) (m n : Notification) (content : NotificationContent) (address : Option String)
    (s s' : Store) (d : Option PolicyDecision)
    → on_decision p id project_id expected stale_before r m s d ≡ ok (claimed n content address, s')
    → (d ≡ none)
      × (x : Notification) × (resolve p m ≡ ok (content, x))
      × (n ≡ to_busy (p.clock claiming) x)
      × IsConsistent n
      × (address ≡ get_address x.channel r.addresses)
      × (claim_for_delivery n expected stale_before s ≡ ok (true, s'))
on_decision-claimed p id project_id expected stale_before r m n content address s s' (some d) e =
    let (u, a, b) =
      >>=-eq-ok (apply_rejection (p.clock deciding) d m) (λ u. ok (returned u, save u s)) e in
    absurd (cc)
on_decision-claimed p id project_id expected stale_before r m n content address s s' none e =
    let ((c, x), a, b) =
      >>=-eq-ok (resolve p m) (λ z. claim_step p id project_id expected stale_before r z.0 z.1 s)
        e in
    let (y, h, same, to, won) =
      claim_step-claimed p id project_id expected stale_before r c content x n address s s' b in
    (refl, x, a ∙ cc, y, h, to, won)

on_recipient-claimed :
    (p : Ports) (id project_id : ℕ) (row m : Notification) (stale_before : Option DateTime)
    (n : Notification) (content : NotificationContent) (address : Option String) (s s' : Store)
    (r : Option Recipient)
    → get_by_id id project_id s ≡ some row
    → Passes p row m
    → p.get_recipient m.recipient_id m.project_id ≡ r
    → on_recipient p id project_id row.status stale_before m s r
      ≡ ok (claimed n content address, s')
    → Sendable p id project_id s s' n content address
on_recipient-claimed p id project_id row m stale_before n content address s s' none f q k e =
    absurd (cc)
on_recipient-claimed p id project_id row m stale_before n content address s s' (some r) f q k e =
    let (d, x, a, b, h, to, won) =
      on_decision-claimed p id project_id row.status stale_before r m n content address s s'
        (check_policy p m r) e in
    record {
      row = row;
      gated = m;
      rendered = x;
      recipient = r;
      stale_before = stale_before;
      found = f;
      passes = q;
      known = k;
      permitted = d;
      resolved = a;
      busy = b;
      consistent = h;
      addressed = to;
      exclusive = won;
    }

on_gate-claimed :
    (p : Ports) (id project_id : ℕ) (row n : Notification) (content : NotificationContent)
    (address : Option String) (s s' : Store) (g : Gate)
    → get_by_id id project_id s ≡ some row
    → gate p row ≡ ok g
    → on_gate p id project_id row.status s g ≡ ok (claimed n content address, s')
    → Sendable p id project_id s s' n content address
on_gate-claimed p id project_id row n content address s s' (stop m) f a e = absurd (cc)
on_gate-claimed p id project_id row n content address s s' (go_on m sb) f a e =
    on_recipient-claimed p id project_id row m sb n content address s s' _ f
      (gate-Passes p row m sb a) refl e

on_row-claimed :
    (p : Ports) (id project_id : ℕ) (n : Notification) (content : NotificationContent)
    (address : Option String) (s s' : Store) (found : Option Notification)
    → get_by_id id project_id s ≡ found
    → on_row p id project_id s found ≡ ok (claimed n content address, s')
    → Sendable p id project_id s s' n content address
on_row-claimed p id project_id n content address s s' none f e = absurd (cc)
on_row-claimed p id project_id n content address s s' (some row) f e =
    let (g, a, b) = >>=-eq-ok (gate p row) (on_gate p id project_id row.status s) e in
    on_gate-claimed p id project_id row n content address s s' g f a b

-- Where the first transaction ends with a claim, it found a notification of the project that is not
-- finished and that is not scheduled for later than the start, its recipient exists, the policy
-- re-check allows it, its content was resolved, the notification that is sent is consistent and
-- PROCESSING, the address is the recipient's for its channel, and the conditional claim of its row
-- succeeded.
pub begin-Sendable :
    (p : Ports) (id project_id : ℕ) (s s' : Store) (n : Notification)
    (content : NotificationContent) (address : Option String)
    → begin p id project_id s ≡ ok (claimed n content address, s')
    → Sendable p id project_id s s' n content address
unfolding begin
begin-Sendable p id project_id s s' n content address e =
    on_row-claimed p id project_id n content address s s' _ refl e
