-- ===== src/Delivery/Reach.antt =====
-- What it takes for `process` to reach the provider
-- (backend/src/tiber/application/services/delivery.py).
use tiber.Prelude.{
  ℕ, String, Option, Bool, true, false, ◌≡◌, ◌⊎◌, arith, if◌then◌else◌, inl, inr, sym, ◌∙◌,
}
use tiber.Enums.{NotificationStatus, status_eq}
use tiber.Result.{ok, ◌>>=◌, >>=-eq-ok}
use tiber.Time.{DateTime, utc}
use tiber.Notification.{Notification, resume, reclaim_processing, mark_processing}
use tiber.Notification.Invariant.{IsConsistent}
use tiber.Notification.Lifecycle.{Method, invoke, is_terminal, written}
use tiber.Notification.Calls.{invoke-ok}
use tiber.Content.{NotificationContent}
use tiber.Recipient.{Recipient, get_address}
use tiber.Store.{Store, claim_for_delivery}
use tiber.Delivery.Begin.{claimed, claim_step, to_processing, after_claim}
use tiber.Delivery.{
  Ports, started, resuming, claiming, Gate, stop, go_on, is_early, gate_status, guard_schedule,
  gate,
}

-- A notification that passed the checks of the state.
pub record Passes (p : Ports) (n m : Notification) : Type 0 where
  pub due : is_early m.send_at (p.clock started) ≡ ok false
  pub unfinished : is_terminal n.status ≡ false
  pub row : (m ≡ n) ⊎ (m ≡ written (p.clock resuming) Method.resume n)

pub gate-stop :
    (p : Ports) (n : Notification) → is_terminal n.status ≡ true → gate p n ≡ ok (stop n)
unfolding gate gate_status
gate-stop p n t = ground arith

gate_status-go_on :
    (p : Ports) (n m : Notification) (stale_before : Option DateTime)
    → gate_status p n ≡ ok (go_on m stale_before)
    → (is_terminal n.status ≡ false) × ((m ≡ n) ⊎ (resume (p.clock resuming) n ≡ ok m))
unfolding gate_status
gate_status-go_on p n m stale_before e = ground arith

decided :
    (p : Ports) (x m : Notification) (sb stale_before : Option DateTime) (early : Bool)
    → is_early x.send_at (p.clock started) ≡ ok early
    → ok (if early then stop x else go_on x sb) ≡ ok (go_on m stale_before)
    → (go_on x sb ≡ go_on m stale_before) × (is_early m.send_at (p.clock started) ≡ ok false)
decided p x m sb stale_before true d q = absurd (cc)
decided p x m sb stale_before false d q = let same : x ≡ m = cc in (cc, rw (sym same) d)

guard_schedule-go_on :
    (p : Ports) (g : Gate) (m : Notification) (stale_before : Option DateTime)
    → guard_schedule p g ≡ ok (go_on m stale_before)
    → (g ≡ go_on m stale_before) × (is_early m.send_at (p.clock started) ≡ ok false)
guard_schedule-go_on p (stop x) m stale_before e = absurd (cc)
guard_schedule-go_on p (go_on x sb) m stale_before e =
    let (early, d, q) = >>=-eq-ok (is_early x.send_at (p.clock started)) _ e in
    decided p x m sb stale_before early d q

resumed-row :
    (now : ℕ) (n m : Notification)
    → (m ≡ n) ⊎ (resume now n ≡ ok m)
    → (m ≡ n) ⊎ (m ≡ written now Method.resume n)
unfolding invoke
resumed-row now n m (inl same) = inl same
resumed-row now n m (inr resumed) = inr ((invoke-ok now Method.resume n resumed).1)

pub gate-Passes :
    (p : Ports) (n m : Notification) (stale_before : Option DateTime)
    → gate p n ≡ ok (go_on m stale_before)
    → Passes p n m
unfolding gate
gate-Passes p n m stale_before e =
    let (g, a, b) = >>=-eq-ok (gate_status p n) (guard_schedule p) e in
    let (q, due) = guard_schedule-go_on p g m stale_before b in
    let (live, from) = gate_status-go_on p n m stale_before (a ∙ cc) in
    record { due = due; unfinished = live; row = resumed-row (p.clock resuming) n m from }

abbrev pub to_busy : ℕ → Notification → Notification
to_busy now n = record n { status = NotificationStatus.processing; updated_at = utc now }

either-ok :
    (now : ℕ) (b : Bool) (m n : Notification)
    → (if b then reclaim_processing now m else mark_processing now m) ≡ ok n
    → (n ≡ to_busy now m) × IsConsistent n
unfolding invoke
either-ok now true m n e = let r = invoke-ok now Method.reclaim_processing m e in (r.1, r.2)
either-ok now false m n e = let r = invoke-ok now Method.mark_processing m e in (r.1, r.2)

pub to_processing-ok :
    (p : Ports) (expected : NotificationStatus) (m n : Notification)
    → to_processing p expected m ≡ ok n
    → (n ≡ to_busy (p.clock claiming) m) × IsConsistent n
unfolding to_processing
to_processing-ok p expected m n e = either-ok (p.clock claiming) _ m n e

after_claim-claimed :
    (id project_id : ℕ) (r : Recipient) (content c : NotificationContent) (m x n : Notification)
    (address : Option String) (taken : Bool × Store) (s' : Store)
    → after_claim id project_id r content m x taken ≡ (claimed n c address, s')
    → (n ≡ x) × (c ≡ content) × (address ≡ get_address m.channel r.addresses) × (taken ≡ (true, s'))
after_claim-claimed id project_id r content c m x n address (true, s) s' e = ground arith
after_claim-claimed id project_id r content c m x n address (false, s) s' e = absurd (cc)

-- The claim itself.
pub claim_step-claimed :
    (p : Ports) (id project_id : ℕ) (expected : NotificationStatus) (stale_before : Option DateTime)
    (r : Recipient) (content c : NotificationContent) (m n : Notification) (address : Option String)
    (s s' : Store)
    → claim_step p id project_id expected stale_before r content m s ≡ ok (claimed n c address, s')
    → (n ≡ to_busy (p.clock claiming) m)
      × IsConsistent n
      × (c ≡ content)
      × (address ≡ get_address m.channel r.addresses)
      × (claim_for_delivery n expected stale_before s ≡ ok (true, s'))
unfolding claim_step
claim_step-claimed p id project_id expected stale_before r content c m n address s s' e =
    let (x, a, b) =
      >>=-eq-ok (to_processing p expected m)
        (λ x. claim_for_delivery x expected stale_before s >>= λ t.
          ok (after_claim id project_id r content m x t))
        e in
    let (taken, d, f) =
      >>=-eq-ok (claim_for_delivery x expected stale_before s)
        (λ t. ok (after_claim id project_id r content m x t)) b in
    let (y, z, w, v) = after_claim-claimed id project_id r content c m x n address taken s' cc in
    let (g, h) = to_processing-ok p expected m x a in (y ∙ g, rw y h, z, w, rw y (d ∙ cc))
