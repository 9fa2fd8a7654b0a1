-- ===== src/Examples/Races.antt =====
-- Two workers, or a worker and a cancellation, on the sample notification.
use tiber.Prelude.{◌≡◌, refl, some, none, false, arith}
use tiber.Enums.{NotificationStatus, pending, postponed, cancelled}
use tiber.Result.{ok, err, invalid_transition}
use tiber.Time.{utc}
use tiber.Notification.{Notification}
use tiber.Notification.Lifecycle.{written, mark_processing, mark_cancelled}
use tiber.Store.{Store, write, claimed_row, cancelled_row, claim_for_delivery, cancel_pending}
use tiber.Store.Claims.{
  claim_for_delivery-once, claim_for_delivery-held, claim_for_delivery-cancel_pending,
}
use tiber.Cancellation.{cancel}
use tiber.Cancellation.Branches.{cancel-eq-if}
use tiber.Examples.{row, store, store_of-IsKeyed, row-IsConsistent}

abbrev busy : Notification
busy = written 5_000 mark_processing row

abbrev claimed_store : Store
claimed_store = record store { rows = write (claimed_row busy row) store.rows }

abbrev stopped : Notification
stopped = written 5_000 (mark_cancelled none) row

abbrev cancelled_store : Store
cancelled_store = record store { rows = write (cancelled_row stopped row) store.rows }

claim_for_delivery-once_example :
    claim_for_delivery busy postponed none claimed_store ≡ ok (false, claimed_store)
unfolding claim_for_delivery
claim_for_delivery-once_example =
    claim_for_delivery-once busy busy store (store_of-IsKeyed row row-IsConsistent) refl refl
      pending postponed none none refl refl

claim_for_delivery-held_example :
    claim_for_delivery busy NotificationStatus.processing (some (utc 4_999)) claimed_store
    ≡ ok (false, claimed_store)
unfolding claim_for_delivery
claim_for_delivery-held_example =
    claim_for_delivery-held busy busy store (store_of-IsKeyed row row-IsConsistent) refl refl
      pending none (utc 4_999) refl (ground arith)

claim_for_delivery-cancel_pending_example :
    claim_for_delivery busy pending none cancelled_store ≡ ok (false, cancelled_store)
unfolding cancel_pending
claim_for_delivery-cancel_pending_example =
    claim_for_delivery-cancel_pending busy stopped store (store_of-IsKeyed row row-IsConsistent)
      refl refl refl pending none (ground arith) refl refl

cancel-eq-if_example :
    cancel 5_000 1 7 store claimed_store
    ≡ err (invalid_transition NotificationStatus.processing cancelled)
cancel-eq-if_example =
    cancel-eq-if 5_000 1 7 store claimed_store row (claimed_row busy row) refl refl refl refl refl
      row-IsConsistent
