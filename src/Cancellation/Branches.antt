-- ===== src/Cancellation/Branches.antt =====
-- How a cancellation ends (backend/src/tiber/application/services/notification_cancellation.py).
use tiber.Prelude.{ℕ, none, some, ◌≡◌, arith, refl, if◌then◌else◌, Bool-cases, inl, inr, sym}
use tiber.Prelude.Eq.{nat_eq, ==-refl}
use tiber.Enums.{pending, cancelled, status_eq}
use tiber.Result.{ok, err, invalid_transition}
use tiber.Notification
use tiber.Notification.{Notification, is_status}
use tiber.Notification.Invariant.{IsConsistent}
use tiber.Notification.Lifecycle.{invoke, written, mark_cancelled}
use tiber.Notification.Calls.{invoke-eq-if}
use tiber.Store.{Store, write, get_by_id, cancelled_row, cancel_pending}
use tiber.Cancellation.{cancel, after_update}

mark_cancelled-eq-if :
    (now : ℕ) (n : Notification)
    → IsConsistent n
    → Notification.mark_cancelled now none n ≡ (
        if is_status n.status pending
        then ok (written now (mark_cancelled none) n)
        else err (invalid_transition n.status cancelled))
unfolding invoke
mark_cancelled-eq-if now n h = ground (arith, invoke-eq-if now (mark_cancelled none) n h)

get_by_id-some :
    (id project_id : ℕ) (s : Store) (n : Notification)
    → s.rows id ≡ some n
    → n.project_id ≡ project_id
    → get_by_id id project_id s ≡ some n
unfolding get_by_id
get_by_id-some id project_id s n f q = rw (f, sym q, ==-refl n.project_id) refl

-- The row that an update writes over the row it finds.
abbrev pub cancelled_over : ℕ → Notification → Notification → Notification
cancelled_over now n m = cancelled_row (written now (mark_cancelled none) n) m

update_lem :
    (id project_id : ℕ) (x m : Notification) (s : Store)
    → x.id ≡ id
    → x.project_id ≡ project_id
    → s.rows id ≡ some m
    → m.project_id ≡ project_id
    → after_update project_id id (cancel_pending x s) ≡ (
        if is_status m.status pending
        then ok (record s { rows = write (cancelled_row x m) s.rows })
        else err (invalid_transition m.status cancelled))
unfolding cancel_pending
update_lem id project_id x m s xi xp f mp = elim (Bool-cases (is_status m.status pending)) [
  | inl y ↦ rw (xi, xp, f, mp, ==-refl project_id, y) refl
  | inr z ↦ rw (xi, xp, f, mp, ==-refl project_id, z, get_by_id-some id project_id s m f mp) refl
]

-- A cancellation that read one row of the project, which is consistent, and finds another under the
-- same id when it writes, because a worker came between, succeeds if both are PENDING, and writes
-- only the status, the reason and the time of the row it finds. Otherwise it raises
-- `InvalidStateTransitionError` from the status that stopped it.
pub cancel-eq-if :
    (now project_id id : ℕ) (read s : Store) (n m : Notification)
    → read.rows id ≡ some n
    → s.rows id ≡ some m
    → n.id ≡ id
    → n.project_id ≡ project_id
    → m.project_id ≡ project_id
    → IsConsistent n
    → cancel now project_id id read s ≡ (
        if is_status n.status pending
        then if is_status m.status pending
          then ok (record s { rows = write (cancelled_over now n m) s.rows })
          else err (invalid_transition m.status cancelled)
        else err (invalid_transition n.status cancelled))
unfolding cancel
cancel-eq-if now project_id id read s n m f g ni np mp h =
    elim (Bool-cases (is_status n.status pending)) [
      | inl y ↦
          rw (get_by_id-some id project_id read n f np, mark_cancelled-eq-if now n h, y)
            (update_lem id project_id (written now (mark_cancelled none) n) m s ni np g mp)
      | inr z ↦ rw (get_by_id-some id project_id read n f np, mark_cancelled-eq-if now n h, z) refl
    ]
