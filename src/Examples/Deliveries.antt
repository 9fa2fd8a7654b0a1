-- ===== src/Examples/Deliveries.antt =====
-- Deliveries of the sample notification.
use tiber.Prelude.{ℕ, some, none, true, false, ◌≡◌, refl, inr, arith, [], ◌∷◌}
use tiber.Result.{ok}
use tiber.Examples.{welcome, row, ann, ports, store, row-IsConsistent, store_of-IsSound, store_of}
use tiber.Notification.{Notification}
use tiber.Notification.Invariant.{IsConsistent}
use tiber.Notification.Lifecycle.{written, mark_processing, mark_delivered}
use tiber.Policy.{PolicyDecision, reject}
use tiber.Policy.Reasons
use tiber.Recipient.{Recipient}
use tiber.Enums.{email, suppress}
use tiber.Store.{Store, write, claimed_row, get_by_id, save}
use tiber.Delivery
use tiber.Delivery.Begin
use tiber.Delivery.Process.{process}
use tiber.Delivery.{Ports}
use tiber.Delivery.Begin.{begin, claimed}
use tiber.Delivery.Finish.{finish}
use tiber.Delivery.Keeps.{IsSound}
use tiber.Delivery.Outcome.{finish_lem, end_store, sent}
use tiber.Delivery.Sends.{Sendable, begin-Sendable}
use tiber.Delivery.Sound.{process-IsSound, Effect}
use tiber.Delivery.Idle.{process-idle, process-rejected, finished, rejected_row}

process-IsSound_example :
    IsSound (process ports 7 1 store).1 × Effect store (process ports 7 1 store).1
unfolding tiber.Prelude.is_blank
process-IsSound_example =
    process-IsSound ports 7 1 store refl (store_of-IsSound row row-IsConsistent)

abbrev busy : Notification
busy = written 5_000 mark_processing row

abbrev claimed_store : Store
claimed_store = record store { rows = write (claimed_row busy row) store.rows }

begin-Sendable_example :
    Sendable ports 7 1 store claimed_store busy welcome (some "ann@example.org")
unfolding begin get_by_id Delivery.gate Begin.check_policy tiber.Policy.evaluate
    tiber.Policy.recipient_address_rule tiber.Recipient.get_address
    tiber.Policy.recipient_preference_rule tiber.Policy.project_blackout_rule
    tiber.Policy.project_quiet_hours_rule Begin.resolve Begin.claim_step
    tiber.Notification.mark_processing tiber.Notification.post_init tiber.Store.claim_for_delivery
begin-Sendable_example =
    begin-Sendable ports 7 1 store claimed_store busy welcome (some "ann@example.org") refl

busy-IsConsistent : IsConsistent busy
busy-IsConsistent = ground arith

finish_lem_example : finish ports busy welcome (some "ann@example.org") claimed_store ≡ (
  ok (written 5_000 mark_delivered busy),
  end_store ports busy welcome
      (some "ann@example.org")
      claimed_store
      (sent (Delivery.accepted (some "message"))),
)
unfolding tiber.Prelude.is_blank
finish_lem_example =
    finish_lem ports busy welcome claimed_store busy-IsConsistent refl refl (some "ann@example.org")

abbrev delivered_row : Notification
delivered_row = written 5_000 mark_delivered busy

process-idle_example :
    process ports 7 1 (store_of delivered_row) ≡ (ok delivered_row, store_of delivered_row)
unfolding get_by_id
process-idle_example =
    process-idle ports 7 1 (store_of delivered_row) delivered_row refl (finished refl)

abbrev unreachable : Recipient
unreachable = record ann { addresses = [] }

abbrev ports' : Ports
ports' = record ports { get_recipient = λ id project_id. some unreachable }

abbrev no_address : PolicyDecision
no_address = reject (Reasons.no_address email) "recipient_address_rule" suppress none

process-rejected_example :
    process ports' 7 1 store
    ≡ (ok (rejected_row 5_000 no_address row), save (rejected_row 5_000 no_address row) store)
unfolding get_by_id Begin.check_policy tiber.Policy.evaluate tiber.Policy.recipient_address_rule
    tiber.Recipient.get_address
process-rejected_example =
    process-rejected ports' 7 1 store row unreachable no_address refl row-IsConsistent refl refl
      refl refl (ground (arith, Reasons.no_address-nonempty email))

-- a recipient who wants no e-mails
abbrev silent : Recipient
silent = record ann { preferences = record ann.preferences { opted_out_channels = email ∷ [] } }

abbrev silent_ports : Ports
silent_ports = record ports { get_recipient = λ id project_id. some silent }
