-- ===== src/Delivery/Outcome.antt =====
-- What the call of the provider leaves behind (backend/src/tiber/application/services/delivery.py).
use tiber.Prelude.{
  ℕ, String, Option, none, some, List, ◌∷◌, Bool, true, false, ◌≡◌, refl, arith, is_empty,
  is_missing, is_blank, or_else, Bool-cases, inl, inr, if◌then◌else◌, is_none,
}
use tiber.Prelude.Eq.{nat_eq}
use tiber.Enums.{DeliveryChannel, NotificationStatus}
use tiber.Result.{Result, ok, err, other}
use tiber.Time.{utc}
use tiber.Content.{NotificationContent}
use tiber.Notification.{Notification}
use tiber.Notification.Invariant.{IsConsistent}
use tiber.Notification.Lifecycle.{written, mark_delivered, mark_failed, retry_delivery}
use tiber.Notification.Calls.{written-IsConsistent}
use tiber.Notification.Direct.{mark_delivered_ok, mark_failed_ok, retry_delivery_ok}
use tiber.Store.{
  DeliveryAttempt, attempt_post_init, Send, Store, write, save, save_attempt, record_send,
}
use tiber.Delivery.{Ports, ProviderOutcome, raised, accepted, rejected, settling}
use tiber.Delivery.Finish.{
  record_attempt, fail_with, settle, finish, commit, status_of, failure_text, no_address_error,
}

no_address_error-nonempty : (c : DeliveryChannel) → is_empty (no_address_error c) ≡ false
unfolding no_address_error
no_address_error-nonempty c = refl

failure_text-nonempty : (e : Option String) → is_empty (failure_text e) ≡ false
failure_text-nonempty none = refl
failure_text-nonempty (some String.[]) = refl
failure_text-nonempty (some (String.◌∷◌ c t)) = refl

-- The attempt that is recorded.
abbrev pub new_attempt :
    Ports → Notification → Bool → Option String → Option String → Option String → DeliveryAttempt
new_attempt p n succeeded message error address = record {
  id = p.attempt_id;
  notification_id = n.id;
  status = status_of succeeded;
  channel = n.channel;
  provider = p.provider_name;
  recipient_address = address;
  provider_message_id = message;
  error = error;
  created_at = utc (p.clock settling);
}

record_attempt_ok :
    (p : Ports) (n : Notification) (succeeded : Bool) (message error address : Option String)
    (s : Store)
    → is_blank p.provider_name ≡ false
    → (succeeded ≡ true → is_none address ≡ false)
    → record_attempt p n succeeded message error address s
      ≡ ok (save_attempt (new_attempt p n succeeded message error address) s)
unfolding record_attempt attempt_post_init
record_attempt_ok p n true message error address s name known = rw (name, known refl) refl
record_attempt_ok p n false message error address s name known = rw name refl

-- How a delivery ends after the claim: with no address, or as the provider says.
pub data Ending : Type 0 where
  no_address : Ending
  sent : ProviderOutcome → Ending

abbrev pub call_of : Notification → NotificationContent → Option String → Send
call_of n content address = record {
  notification_id = n.id;
  recipient_address = or_else address "";
  content = content;
}

abbrev pub ending : Ports → Notification → NotificationContent → Option String → Ending
ending p n content address =
    if is_missing address then no_address else sent (p.send (call_of n content address))

abbrev pub ended : ℕ → Notification → Ending → Notification
ended now n no_address = written now (mark_failed (no_address_error n.channel)) n
ended now n (sent (accepted _)) = written now mark_delivered n
ended now n (sent (rejected e)) = written now (mark_failed (failure_text e)) n
ended now n (sent (raised _)) = written now retry_delivery n

abbrev pub end_attempt : Ports → Notification → Option String → Ending → DeliveryAttempt
end_attempt p n address no_address =
    new_attempt p n false none (some (no_address_error n.channel)) none
end_attempt p n address (sent (accepted message)) =
    new_attempt p n true message none (some (or_else address ""))
end_attempt p n address (sent (rejected e)) =
    new_attempt p n false none (some (failure_text e)) (some (or_else address ""))
end_attempt p n address (sent (raised message)) =
    new_attempt p n false none (some message) (some (or_else address ""))

abbrev pub end_sends : Send → List Send → Ending → List Send
end_sends call sends no_address = sends
end_sends call sends (sent _) = call ∷ sends

abbrev pub end_result : Notification → Ending → Result Notification
end_result n' (sent (raised _)) = err other
end_result n' _ = ok n'

abbrev pub end_store :
    Ports → Notification → NotificationContent → Option String → Store → Ending → Store
end_store p n content address s e = record {
  rows = write (ended (p.clock settling) n e) s.rows;
  attempts = end_attempt p n address e ∷ s.attempts;
  sends = end_sends (call_of n content address) s.sends e;
}

module _ (p : Ports) (n : Notification) (content : NotificationContent) (s : Store)
    (h : IsConsistent n) (busy : n.status ≡ NotificationStatus.processing)
    (name : is_blank p.provider_name ≡ false) where
  settle_lem :
      (address : String) (o : ProviderOutcome)
      → let call : Send = call_of n content (some address) in
        settle p n address o (record_send call s) ≡ (
          end_result (ended (p.clock settling) n (sent o)) (sent o),
          end_store p n content (some address) s (sent o),
        )
  unfolding settle record_send save save_attempt
  settle_lem address (accepted m) =
      rw
        (
          record_attempt_ok p n true m none (some address) _ name (λ _. refl),
          mark_delivered_ok (p.clock settling) n h (ground arith),
        )
        refl
  settle_lem address (rejected e) =
      rw
        (
          record_attempt_ok p n false none (some (failure_text e)) (some address) _ name (λ x. cc),
          mark_failed_ok (p.clock settling) n h (failure_text e) (ground arith)
              (failure_text-nonempty e),
        )
        refl
  settle_lem address (raised e) =
      rw
        (
          record_attempt_ok p n false none (some e) (some address) _ name (λ x. cc),
          retry_delivery_ok (p.clock settling) n h busy,
        )
        refl

  unaddressed_lem :
      commit (fail_with p n (no_address_error n.channel) none s) s
      ≡ (ok (ended (p.clock settling) n no_address), end_store p n content none s no_address)
  unfolding fail_with save save_attempt
  unaddressed_lem =
      rw
        (
          record_attempt_ok p n false none (some (no_address_error n.channel)) none s name
              (λ x. cc),
          mark_failed_ok (p.clock settling) n h (no_address_error n.channel) (ground arith)
              (no_address_error-nonempty n.channel),
        )
        refl

  -- For a consistent notification in PROCESSING and a provider whose name is not blank, what
  -- follows the claim fails the notification where there is no address, and otherwise calls the
  -- provider once and marks it delivered, failed, or PENDING again as the provider accepts, rejects
  -- or raises. Exactly one attempt is recorded, and its row is the only one written.
  pub finish_lem :
      (address : Option String)
      → let e = ending p n content address in
        finish p n content address s
        ≡ (end_result (ended (p.clock settling) n e) e, end_store p n content address s e)
  unfolding finish
  finish_lem none = unaddressed_lem
  finish_lem (some address) = elim (Bool-cases (is_empty address)) [
    | inl blank ↦ rw blank unaddressed_lem
    | inr given ↦ rw given (settle_lem address (p.send (call_of n content (some address))))
  ]

  pub ended-IsConsistent : (e : Ending) → IsConsistent (ended (p.clock settling) n e)
  ended-IsConsistent no_address =
      written-IsConsistent (p.clock settling) (mark_failed (no_address_error n.channel)) n h
        (ground (arith, no_address_error-nonempty n.channel))
  ended-IsConsistent (sent (accepted m)) =
      written-IsConsistent (p.clock settling) mark_delivered n h (ground arith)
  ended-IsConsistent (sent (rejected e)) =
      written-IsConsistent (p.clock settling) (mark_failed (failure_text e)) n h
        (ground (arith, failure_text-nonempty e))
  ended-IsConsistent (sent (raised e)) =
      written-IsConsistent (p.clock settling) retry_delivery n h (ground arith)
