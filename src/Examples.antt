-- ===== src/Examples.antt =====
-- Concrete data for the checks of the modules below: a project with one recipient, one pending
-- e-mail and a provider that accepts it.
pub mod Fixtures
pub mod Stored
pub mod Expansions
pub mod Requests
pub mod Lives
pub mod Deliveries
pub mod Races
pub mod Policies
pub mod Intakes
pub mod Workers
pub mod Relays
use tiber.Prelude.{ℕ, Option, none, some, [], ◌∷◌, ◌≡◌, arith}
use tiber.Enums.{
  DeliveryChannel, email, NotificationCategory, informational, SendTimeBasis, immediate,
}
use tiber.Result.{Error}
use tiber.Time.{utc}
use tiber.Content.{NotificationContent}
use tiber.Notification.{Notification, NewNotification, new_pending}
use tiber.Notification.Invariant.{IsConsistent}
use tiber.Recipient.{Recipient, RecipientPreferences}
use tiber.Platform.{Zone, Platform}
use tiber.Policy.{intake_rules}
use tiber.Store.{Store, write}
use tiber.Store.Claims.{IsKeyed}
use tiber.Delivery.{Ports, accepted}
use tiber.Delivery.Keeps.{IsSound, write-IsSound}

abbrev pub welcome : NotificationContent
welcome = record { body = "Hello"; title = some "Welcome"; actions = []; images = [] }

abbrev pub fields : NewNotification
fields = record {
  project_id = 1;
  recipient_id = 2;
  transaction_id = 3;
  channel = email;
  category = informational;
  topic_id = none;
  template_id = none;
  template_variables = none;
  group_key = none;
  idempotency_key = none;
  send_at = none;
  send_time_basis = immediate;
}

abbrev pub row : Notification
row = new_pending 1_000 7 welcome fields

abbrev pub nothing_refused : RecipientPreferences
nothing_refused = record {
  opted_out_channels = [];
  unsubscribed_categories = [];
  unsubscribed_topics = [];
  blackout_period = none;
  quiet_hours = none;
}

abbrev pub ann : Recipient
ann = record {
  id = 2;
  project_id = 1;
  addresses = (email, "ann@example.org") ∷ [];
  preferences = nothing_refused;
  external_id = none;
  timezone = none;
  language = none;
  created_at = utc 10;
  updated_at = utc 10;
  archived_at = none;
}

-- the zone whose wall clock shows the instant
abbrev pub greenwich : Zone
greenwich = record { local = λ n. n; instant = λ n. n }

abbrev pub platform : Platform
platform = record {
  zone_info = λ key. greenwich;
  system = greenwich;
  time_text = λ t. "a time";
  uuid_text = λ n. "an identifier";
}

abbrev pub ports : Ports
ports = record {
  get_recipient = λ id project_id. some ann;
  policy_guard = some (intake_rules platform);
  load_constraint = λ project_id. none;
  resolve_content = none;
  send = λ call. accepted (some "message");
  provider_name = "provider";
  processing_lease = 500;
  clock = λ reading. 5_000;
  attempt_id = 70;
}

abbrev pub empty_store : Store
empty_store = record { rows = λ j. none; attempts = []; sends = [] }

abbrev pub store_of : Notification → Store
store_of n = record empty_store { rows = write n (λ j. none) }

abbrev pub store : Store
store = store_of row

pub row-IsConsistent : IsConsistent row
row-IsConsistent = ground arith

pub store_of-IsSound : (n : Notification) → IsConsistent n → IsSound (store_of n)
store_of-IsSound n h = write-IsSound n (λ j. none) (λ j m e. absurd (cc)) h

pub store_of-IsKeyed : (n : Notification) → IsConsistent n → IsKeyed (store_of n)
store_of-IsKeyed n h j m e = (store_of-IsSound n h j m e).0
