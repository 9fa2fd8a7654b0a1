-- ===== src/Delivery/Finish.antt =====
-- What follows the claim (backend/src/tiber/application/services/delivery.py): the call of the provider
-- and the record of its outcome. A unit of work that raises leaves the store as it was.
use tiber.Prelude.{
  String, Option, none, some, Bool, true, false, if◌then◌else◌, is_empty, is_missing, or_else, ◌<>◌,
}
use tiber.Enums.{DeliveryChannel, DeliveryAttemptStatus, success, fail, channel_eq, status_eq}
use tiber.Result.{Result, ok, err, other, ◌>>=◌}
use tiber.Time.{utc}
use tiber.Content.{NotificationContent}
use tiber.Notification.{Notification, retry_delivery, mark_delivered, mark_failed}
use tiber.Policy.Reasons.{channel_text}
use tiber.Store.{attempt_post_init, Send, Store, save, save_attempt, record_send}
use tiber.Delivery.{ProviderOutcome, raised, accepted, rejected, settling, Ports}

abbrev pub status_of : Bool → DeliveryAttemptStatus
status_of true = success
status_of false = fail

-- `_record_attempt`
unfoldable pub record_attempt :
    Ports
    → Notification
    → Bool
    → Option String
    → Option String
    → Option String
    → Store
    → Result Store
unfolding attempt_post_init save_attempt
record_attempt p n succeeded provider_message_id error recipient_address s = do
  attempt ← attempt_post_init (record {
    id = p.attempt_id;
    notification_id = n.id;
    status = status_of succeeded;
    channel = n.channel;
    provider = p.provider_name;
    recipient_address = recipient_address;
    provider_message_id = provider_message_id;
    error = error;
    created_at = utc (p.clock settling);
  })
  ok (save_attempt attempt s)

-- `_succeed`
unfoldable pub succeed :
    Ports → Notification → Option String → String → Store → Result (Notification × Store)
unfolding record_attempt
succeed p n provider_message_id address s = do
  s' ← record_attempt p n true provider_message_id none (some address) s
  updated ← mark_delivered (p.clock settling) n
  ok (updated, save updated s')

-- `_fail`
unfoldable pub fail_with :
    Ports → Notification → String → Option String → Store → Result (Notification × Store)
unfolding record_attempt
fail_with p n error address s = do
  s' ← record_attempt p n false none (some error) address s
  updated ← mark_failed (p.clock settling) error n
  ok (updated, save updated s')

-- `_retry`
unfoldable pub retry : Ports → Notification → String → String → Store → Result Store
unfolding record_attempt
retry p n error address s = do
  s' ← record_attempt p n false none (some error) (some address) s
  released ← retry_delivery (p.clock settling) n
  ok (save released s')

-- `error_message or "delivery failed"`
abbrev pub failure_text : Option String → String
failure_text none = "delivery failed"
failure_text (some e) = if is_empty e then "delivery failed" else e

-- f"no {channel} address for recipient"
unfoldable pub no_address_error : DeliveryChannel → String
unfolding ◌<>◌
no_address_error channel = "no " <> channel_text channel <> " address for recipient"

-- A unit of work: what it wrote is kept only if it does not raise.
abbrev pub commit : Result (Notification × Store) → Store → Result Notification × Store
commit (ok (n, s')) s = (ok n, s')
commit (err e) s = (err e, s)

-- `except`: the attempt is recorded, and the provider's exception goes on.
abbrev pub reraise : Result Store → Store → Result Notification × Store
reraise (ok s') s = (err other, s')
reraise (err e) s = (err e, s)

unfoldable pub settle :
    Ports → Notification → String → ProviderOutcome → Store → Result Notification × Store
unfolding succeed fail_with retry
settle p n address (raised message) s = reraise (retry p n message address s) s
settle p n address (accepted provider_message_id) s =
    commit (succeed p n provider_message_id address s) s
settle p n address (rejected error_message) s =
    commit (fail_with p n (failure_text error_message) (some address) s) s

-- The rest of `process`, after the claim.
unfoldable pub finish :
    Ports → Notification → NotificationContent → Option String → Store → Result Notification × Store
unfolding fail_with
finish p n content address s =
    if is_missing address
    then commit (fail_with p n (no_address_error n.channel) none s) s
    else let to = or_else address "" in
      let call : Send = record {
        notification_id = n.id;
        recipient_address = to;
        content = content;
      } in
      settle p n to (p.send call) (record_send call s)
