-- ===== src/Delivery/Sound.antt =====
-- What a whole `process` does to the store (backend/src/tiber/application/services/delivery.py).
use tiber.Prelude.{ℕ, String, ap, Option, none, some, List, ◌∷◌, false, ◌≡◌, refl, is_blank}
use tiber.Prelude.Eq.{nat_eq}
use tiber.Enums.{DeliveryAttemptStatus, NotificationStatus, status_eq}
use tiber.Result.{Result, ok, err}
use tiber.Content.{NotificationContent}
use tiber.Notification.{Notification}
use tiber.Store.{DeliveryAttempt, Send, Store}
use tiber.Delivery.{accepted, rejected, raised, Ports, settling}
use tiber.Delivery.Begin.{Begun, returned, claimed, begin}
use tiber.Delivery.Sends.{begin-Sendable}
use tiber.Delivery.Outcome.{
  Ending, no_address, sent, end_attempt, call_of, finish_lem, ended, ending, end_store,
  ended-IsConsistent,
}
use tiber.Delivery.Process.{process, on_begun}
use tiber.Delivery.Keeps.{IsSound, write-IsSound}
use tiber.Delivery.Quiet.{begin-Keeps}

-- What one `process` adds to the record: nothing; a failed attempt with no address; or one call of
-- the provider and the attempt that records it, for the same notification and address.
pub data Effect (s s' : Store) : Type 0 where
  silent : s'.sends ≡ s.sends → s'.attempts ≡ s.attempts → Effect s s'
  unaddressed :
      (a : DeliveryAttempt)
      → a.status ≡ DeliveryAttemptStatus.fail
      → a.recipient_address ≡ none
      → s'.sends ≡ s.sends
      → s'.attempts ≡ a ∷ s.attempts
      → Effect s s'
  called :
      (a : DeliveryAttempt) (call : Send)
      → a.recipient_address ≡ some call.recipient_address
      → a.notification_id ≡ call.notification_id
      → s'.sends ≡ call ∷ s.sends
      → s'.attempts ≡ a ∷ s.attempts
      → Effect s s'

behind {ℓ} : {A : Type ℓ} (a : A) {l m : List A} → l ≡ m → (a ∷ l) ≡ (a ∷ m)
behind a h = ap (λ l. a ∷ l) h

end_store-Effect :
    (p : Ports) (n : Notification) (content : NotificationContent) (address : Option String)
    (s s' : Store) (e : Ending)
    → s'.sends ≡ s.sends
    → s'.attempts ≡ s.attempts
    → Effect s (end_store p n content address s' e)
end_store-Effect p n content address s s' no_address f g =
    unaddressed (end_attempt p n address no_address) refl refl f (behind _ g)
end_store-Effect p n content address s s' (sent (accepted x)) f g =
    called (end_attempt p n address (sent (accepted x))) (call_of n content address) refl refl
      (behind _ f) (behind _ g)
end_store-Effect p n content address s s' (sent (rejected x)) f g =
    called (end_attempt p n address (sent (rejected x))) (call_of n content address) refl refl
      (behind _ f) (behind _ g)
end_store-Effect p n content address s s' (sent (raised x)) f g =
    called (end_attempt p n address (sent (raised x))) (call_of n content address) refl refl
      (behind _ f) (behind _ g)

on_begun_lem :
    (p : Ports) (id project_id : ℕ) (s : Store) (r : Result (Begun × Store))
    → is_blank p.provider_name ≡ false
    → begin p id project_id s ≡ r
    → IsSound s
    → IsSound (on_begun p s r).1 × Effect s (on_begun p s r).1
on_begun_lem p id project_id s (err x) name e h = (h, silent refl refl)
on_begun_lem p id project_id s (ok (returned n, s')) name e h =
    let k = begin-Keeps p id project_id s s' _ e in (k.sound h, silent k.sends k.attempts)
on_begun_lem p id project_id s (ok (claimed n content address, s')) name e h =
    let k = begin-Keeps p id project_id s s' _ e in
    let q = begin-Sendable p id project_id s s' n content address e in
    let busy : n.status ≡ NotificationStatus.processing = rw q.busy refl in
    let w = ending p n content address in
    rw (finish_lem p n content s' q.consistent busy name address) (
      write-IsSound (ended (p.clock settling) n w) s'.rows (k.sound h)
          (ended-IsConsistent p n content s' q.consistent busy name w),
      end_store-Effect p n content address s s' w k.sends k.attempts,
    )

-- Where every row is consistent and kept by its id, and the provider's name is not blank, `process`
-- leaves it so, whatever the ports do and however it ends. It records nothing, a failed attempt
-- with no address and no call of the provider, or one call of the provider with one attempt for the
-- same notification and address.
pub process-IsSound :
    (p : Ports) (id project_id : ℕ) (s : Store)
    → is_blank p.provider_name ≡ false
    → IsSound s
    → IsSound (process p id project_id s).1 × Effect s (process p id project_id s).1
unfolding process
process-IsSound p id project_id s name h = on_begun_lem p id project_id s _ name refl h
