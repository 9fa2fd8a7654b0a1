-- ===== src/Store/Claims.antt =====
-- Two workers that claim one notification
-- (backend/src/tiber/infrastructure/repositories/sqlalchemy_notification_repository.py).
use tiber.Prelude.{
  ℕ, Option, none, some, Bool, true, false, ◌≡◌, ◌≢◌, arith, refl, is_none, ◌&&◌, ◌<◌, ◌∙◌,
  if◌then◌else◌,
}
use tiber.Prelude.Eq.{nat_eq, ==-refl}
use tiber.Enums.{NotificationStatus, pending, cancelled, status_eq}
use tiber.Result.{Error, ok, raise_if, ◌>>◌}
use tiber.Time.{DateTime}
use tiber.Notification.{Notification, is_status}
use tiber.Store.{
  Store, write, claimed_row, selects, lease_lapsed, update_claimed, claim_for_delivery,
  cancelled_row, update_cancelled, cancel_pending,
}

-- A claim that succeeds found a row that its WHERE clause selects, and wrote that row only.
pub record Claimed (n : Notification) (expected : NotificationStatus)
    (stale_before : Option DateTime) (s s' : Store) : Type 0 where
  pub row : Notification
  pub found : s.rows n.id ≡ some row
  pub selected : selects n expected row ≡ true
  pub lapsed : lease_lapsed expected stale_before row ≡ true
  pub written : s' ≡ record s { rows = write (claimed_row n row) s.rows }

abbrev pick : Bool → Store → Store → Bool × Store
pick b x s = if b then (true, x) else (false, s)

taken-if : (b : Bool) (s x : Store) {s' : Store} → pick b x s ≡ (true, s') → (b ≡ true) × (s' ≡ x)
taken-if true s x e = (refl, cc)
taken-if false s x e = absurd (cc)

and-true : (a b : Bool) → (a && b) ≡ true → (a ≡ true) × (b ≡ true)
and-true a b h = ground arith

update_claimed-Claimed :
    (n : Notification) (expected : NotificationStatus) (stale_before : Option DateTime)
    (found : Option Notification) (s : Store) {s' : Store}
    → s.rows n.id ≡ found
    → update_claimed n expected stale_before found s ≡ (true, s')
    → Claimed n expected stale_before s s'
update_claimed-Claimed n expected stale_before none s f e = absurd (cc)
update_claimed-Claimed n expected stale_before (some row) s f e =
    let (both, w) = taken-if _ s _ e in
    let (a, b) = and-true (selects n expected row) (lease_lapsed expected stale_before row) both in
    record { row = row; found = f; selected = a; lapsed = b; written = w }

raise_if-ok {ℓ} :
    {A : Type ℓ} (b : Bool) (e : Error) (r : A) {x : A} → (raise_if b e >> ok r) ≡ ok x → r ≡ x
raise_if-ok true e r h = absurd (cc)
raise_if-ok false e r h = cc

-- A claim that succeeds found a row that it selects, and wrote that row and no other.
pub claim_for_delivery-Claimed :
    (n : Notification) (expected : NotificationStatus) (stale_before : Option DateTime) (s : Store)
    {s' : Store}
    → claim_for_delivery n expected stale_before s ≡ ok (true, s')
    → Claimed n expected stale_before s s'
unfolding claim_for_delivery
claim_for_delivery-Claimed n expected stale_before s e =
    update_claimed-Claimed n expected stale_before _ s refl (raise_if-ok _ _ _ e)

left-if : (b : Bool) (s x : Store) {s' : Store} → pick b x s ≡ (false, s') → s' ≡ s
left-if true s x e = absurd (cc)
left-if false s x e = cc

update_claimed-false :
    (n : Notification) (expected : NotificationStatus) (stale_before : Option DateTime)
    (found : Option Notification) (s : Store) {s' : Store}
    → update_claimed n expected stale_before found s ≡ (false, s')
    → s' ≡ s
update_claimed-false n expected stale_before none s e = cc
update_claimed-false n expected stale_before (some row) s e = left-if _ s _ e

-- A claim that fails writes nothing.
pub claim_for_delivery-false :
    (n : Notification) (expected : NotificationStatus) (stale_before : Option DateTime) (s : Store)
    {s' : Store}
    → claim_for_delivery n expected stale_before s ≡ ok (false, s')
    → s' ≡ s
unfolding claim_for_delivery
claim_for_delivery-false n expected stale_before s e =
    update_claimed-false n expected stale_before _ s (raise_if-ok _ _ _ e)

-- A claim of a row that its WHERE clause does not select fails, and writes nothing.
claim_for_delivery-lost :
    (n : Notification) (expected : NotificationStatus) (stale_before : Option DateTime) (s : Store)
    (row : Notification)
    → (is_status expected NotificationStatus.processing && is_none stale_before) ≡ false
    → s.rows n.id ≡ some row
    → (selects n expected row && lease_lapsed expected stale_before row) ≡ false
    → claim_for_delivery n expected stale_before s ≡ ok (false, s)
unfolding claim_for_delivery
claim_for_delivery-lost n expected stale_before s row g f h = rw (g, f, h) refl

-- The row after a claim.
Claimed-row :
    (n m : Notification) (expected : NotificationStatus) (stale_before : Option DateTime)
    (s : Store) {s' : Store}
    → m.id ≡ n.id
    → (c : Claimed n expected stale_before s s') → c.row.id ≡ n.id
    → s'.rows m.id ≡ some (claimed_row n c.row)
Claimed-row n m expected stale_before s same c key = rw (c.written, same, key, ==-refl n.id) refl

-- the rows are kept by their ids
abbrev pub IsKeyed : Store → Type 0
IsKeyed s = (j : ℕ) (n : Notification) → s.rows j ≡ some n → n.id ≡ j

module _ (first second : Notification) (s : Store) {s' : Store} (keyed : IsKeyed s)
    (same : second.id ≡ first.id) (busy : first.status ≡ NotificationStatus.processing) where
  -- Of two workers that claim one row, one gets it: after a claim to PROCESSING that succeeds, in a
  -- table whose rows are kept by their ids, a claim of the same row from any status but PROCESSING,
  -- whatever it has read, fails and writes nothing.
  pub claim_for_delivery-once :
      (from from' : NotificationStatus) (stale_before stale_before' : Option DateTime)
      → claim_for_delivery first from stale_before s ≡ ok (true, s')
      → is_status from' NotificationStatus.processing ≡ false
      → claim_for_delivery second from' stale_before' s' ≡ ok (false, s')
  claim_for_delivery-once from from' stale_before stale_before' e idle =
      let c = claim_for_delivery-Claimed first from stale_before s e in
      claim_for_delivery-lost second from' stale_before' s' _ (ground arith)
        (Claimed-row first second from stale_before s same c (keyed _ _ c.found)) (ground arith)

  -- After a claim to PROCESSING that succeeds, in a table whose rows are kept by their ids, a
  -- reclaim of the same row whose cutoff is before the time of the claim fails and writes nothing:
  -- a lease that was just taken or renewed is not taken over.
  pub claim_for_delivery-held :
      (from : NotificationStatus) (stale_before : Option DateTime) (cutoff : DateTime)
      → claim_for_delivery first from stale_before s ≡ ok (true, s')
      → cutoff.at < first.updated_at.at
      → claim_for_delivery second NotificationStatus.processing (some cutoff) s' ≡ ok (false, s')
  claim_for_delivery-held from stale_before cutoff e later =
      let c = claim_for_delivery-Claimed first from stale_before s e in
      claim_for_delivery-lost second NotificationStatus.processing (some cutoff) s' _ refl
        (Claimed-row first second from stale_before s same c (keyed _ _ c.found)) (ground arith)

update_cancelled-row :
    (n : Notification) (found : Option Notification) (s : Store) {s' : Store}
    → update_cancelled n found s ≡ (true, s')
    → (row : Notification) × (found ≡ some row)
      × (s' ≡ record s { rows = write (cancelled_row n row) s.rows })
update_cancelled-row n none s e = absurd (cc)
update_cancelled-row n (some row) s e = (row, refl, (taken-if _ s _ e).1)

cancel_pending-row :
    (n : Notification) (s : Store) {s' : Store}
    → cancel_pending n s ≡ (true, s')
    → (row : Notification) × (s.rows n.id ≡ some row)
      × (s' ≡ record s { rows = write (cancelled_row n row) s.rows })
unfolding cancel_pending
cancel_pending-row n s e = update_cancelled-row n (s.rows n.id) s e

cancel_pending-lost :
    (n : Notification) (s : Store) (row : Notification)
    → s.rows n.id ≡ some row
    → selects n pending row ≡ false
    → cancel_pending n s ≡ (false, s)
unfolding cancel_pending
cancel_pending-lost n s row f h = rw (f, h) refl

module _ (claim cancel : Notification) (s : Store) {s' : Store} (keyed : IsKeyed s)
    (same : cancel.id ≡ claim.id) (busy : claim.status ≡ NotificationStatus.processing)
    (ended : cancel.status ≡ cancelled) (expected : NotificationStatus)
    (stale_before : Option DateTime) where
  -- After a claim to PROCESSING that succeeds, in a table whose rows are kept by their ids, a
  -- cancellation of the same row fails and writes nothing.
  cancel_pending-claim_for_delivery :
      claim_for_delivery claim expected stale_before s ≡ ok (true, s')
      → cancel_pending cancel s' ≡ (false, s')
  cancel_pending-claim_for_delivery e =
      let c = claim_for_delivery-Claimed claim expected stale_before s e in
      cancel_pending-lost cancel s' _
        (Claimed-row claim cancel expected stale_before s same c (keyed _ _ c.found)) (ground arith)

  -- After a cancellation to CANCELLED that succeeds, in a table whose rows are kept by their ids, a
  -- claim of the same row from any status but CANCELLED, with a cutoff where it is a reclaim, fails
  -- and writes nothing.
  pub claim_for_delivery-cancel_pending :
      expected ≢ cancelled
      → (is_status expected NotificationStatus.processing && is_none stale_before) ≡ false
      → cancel_pending cancel s ≡ (true, s')
      → claim_for_delivery claim expected stale_before s' ≡ ok (false, s')
  claim_for_delivery-cancel_pending live known e =
      let (row, found, w) = cancel_pending-row cancel s e in
      let key : row.id ≡ claim.id = keyed _ _ found ∙ same in
      claim_for_delivery-lost claim expected stale_before s' (cancelled_row cancel row) known
        (rw (w, key, ==-refl claim.id) refl) (ground arith)
