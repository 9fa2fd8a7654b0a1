-- ===== src/Examples/Fixtures.antt =====
-- Concrete data for the checks of the intake: a codec that writes numbers in unary, an accepted
-- request, and the tables around it.
use Prim.Native.Char.{code}
use tiber.Prelude.Eq.{◌==◌, nat_eq}
use Prim.Native.Nat.{zero, suc}
use tiber.Prelude.{
  ℕ, ◌+◌, ◌<>◌, String, none, some, [], ◌∷◌, true, false, ◌≡◌, refl, ap, arith, Bool-cases, inl,
  inr, if◌then◌else◌,
}
use tiber.Enums.{
  email, in_app, sms, channel_rank, channel_rank_injective, IntakeStatus, informational, social,
  promotional,
}
use tiber.Result.{Result, ok, err, other}
use tiber.Time.{DateTime, utc}
use tiber.Json.{
  Json, null, boolean, number, text, array, object, Items, no_items, item, Fields, no_fields, field,
  Codec, IsFaithful,
}
use tiber.Intake.{
  ChannelMode, IntakePayload, DecisionConstraints, MlSuggestion, NotificationPlan, DecisionSource,
  ChannelSource,
}
use tiber.Intake.Record.{NotificationIntake, NewIntake, new_received}
use tiber.Processor.{IntakePorts, Tables}
use tiber.Processor.Spread.{IsFresh}
use tiber.Recipient.{Recipient}
use tiber.Recipient.Entity.{Locale}
use tiber.Recipient.Resolution.{Resolver}
use tiber.Policy.{intake_rules}
use tiber.Examples.{welcome, ann, platform}

abbrev pub unary : ℕ → String
unary zero = ""
unary (suc n) = "1" <> unary n

unfoldable pub ones : String → ℕ
ones String.[] = 0
ones (String.◌∷◌ c s) = suc (ones s)

ones-unary : (n : ℕ) → ones (unary n) ≡ n
unfolding ones ◌<>◌
ones-unary zero = refl
ones-unary (suc n) = ap suc (ones-unary n)

-- whether the zone is set, then the instant
abbrev pub stamp : DateTime → String
stamp t = elim t.aware [ true ↦ "Z" <> unary t.at | false ↦ "N" <> unary t.at ]

unfoldable pub time_of : String → Result DateTime
unfolding ones
time_of String.[] = err other
time_of (String.◌∷◌ c s) = ok (record { at = ones s; aware = code c == 90 })

-- the texts of a value, one after the other
mutual
  pub shown : Json → String
  shown null = ""
  shown (boolean b) = ""
  shown (number n) = unary n
  shown (text s) = s
  shown (array xs) = shown_items xs
  shown (object fs) = shown_fields fs

  pub shown_items : Items → String
  shown_items no_items = ""
  shown_items (item v vs) = shown v <> shown_items vs

  pub shown_fields : Fields → String
  shown_fields no_fields = ""
  shown_fields (field k v fs) = k <> (shown v <> shown_fields fs)

abbrev pub codec : Codec
codec = record {
  uuid_text = unary;
  uuid_of = λ s. ok (ones s);
  iso_text = stamp;
  iso_of = time_of;
  shown = shown;
  int_of = λ v. err other;
  is_url = λ s. true;
}

time_of-stamp : (t : DateTime) → time_of (stamp t) ≡ ok t
unfolding time_of ◌<>◌
time_of-stamp t = elim (Bool-cases t.aware) [
  | inl zoned ↦ rw (zoned, ones-unary t.at) refl
  | inr naive ↦ rw (naive, ones-unary t.at) refl
]

pub codec-IsFaithful : IsFaithful codec
codec-IsFaithful = record { uuid = λ n. ap ok (ones-unary n); iso = time_of-stamp }

-- a request for two addresses, with a template
abbrev pub payload : IntakePayload
payload = record {
  category = some social;
  topic = some (record { id = 5; slug = "news"; category = social });
  channels = none;
  adhoc_channels = some (sms ∷ email ∷ []);
  template_id = some 4;
  template_slug = some "welcome";
  template_variables = some (("name", some "Ann") ∷ ("title", none) ∷ []);
  content = none;
  group_key = none;
  send_at = some (utc 20);
}

abbrev pub constraints : DecisionConstraints
constraints = record {
  allowed_categories = social ∷ [];
  default_category = social;
  channel_mode = ChannelMode.addresses;
  feasible_channels = sms ∷ email ∷ [];
  max_channels = 2;
}

abbrev pub new_intake : NewIntake
new_intake = record {
  id = 9;
  project_id = 1;
  transaction_id = 3;
  recipient_id = 2;
  payload = payload;
  constraints = constraints;
  request_fingerprint = "f";
  idempotency_key = some "key";
}

abbrev pub intake : NotificationIntake
intake = new_received 10 new_intake

-- an intake whose channels the model chooses, with the client's content
abbrev pub open_intake : NotificationIntake
open_intake = record intake {
  payload = record payload {
    category = none;
    topic = none;
    adhoc_channels = none;
    template_id = none;
    template_slug = none;
    template_variables = none;
    content = some (record welcome { title = some "Welcome" });
    send_at = none;
  };
  constraints = record {
    allowed_categories = informational ∷ social ∷ promotional ∷ [];
    default_category = informational;
    channel_mode = ChannelMode.ml;
    feasible_channels = email ∷ in_app ∷ [];
    max_channels = 2;
  };
}

abbrev pub plan : NotificationPlan
plan = record {
  category = social;
  category_source = DecisionSource.ml;
  topic = none;
  topic_source = none;
  channels = email ∷ in_app ∷ [];
  channel_source = ChannelSource.ml;
  send_at = (in_app, utc 90) ∷ [];
  model_version = none;
}

-- the intake, claimed and planned
abbrev pub planned : NotificationIntake
planned = record open_intake {
  status = IntakeStatus.processing;
  claimed_at = some (utc 15);
  attempts = 1;
  plan = some plan;
}

abbrev pub suggestion : MlSuggestion
suggestion = record {
  category = some social;
  topic_slug = none;
  channels = email ∷ in_app ∷ [];
  send_at = (in_app, utc 90) ∷ [];
  model_version = none;
}

-- a recipient who can be reached in the app too
abbrev pub bea : Recipient
bea = record ann { addresses = (email, "bea@example.org") ∷ (in_app, "bea") ∷ [] }

abbrev pub intake_ports : IntakePorts
intake_ports = record {
  get_recipient = λ id project. some bea;
  get_topic = λ slug project. none;
  get_template = λ id project. none;
  re = record { findall = λ s. []; sub = λ f s. s };
  rules = intake_rules platform;
  load_constraint = λ project. none;
  decide = λ r payload_ constraints_ want. ok (some suggestion);
  lease = 50;
  max_attempts = 5;
  clock = λ m. 30;
  new_id = λ c. 50 + channel_rank c;
  error_text = λ e. "an error";
  exceeded_text = λ n. "too many attempts";
}

abbrev pub tables_with : NotificationIntake → Tables
tables_with i = record {
  intakes = λ id. if id == 9 then some i else none;
  notifications = [];
  dispatches = [];
}

pub tables-IsFresh : (i : NotificationIntake) → IsFresh intake_ports (tables_with i).notifications
tables-IsFresh i = record {
  unused = λ c. refl;
  own = λ c d e. channel_rank_injective c d (omega (arith, e));
}

abbrev pub locale : Locale
locale = record { is_zone = λ s. true; lower = λ s. s }

abbrev pub resolver : Resolver
resolver = record {
  locale = locale;
  address_index = true;
  between = λ left book. book;
  clock = 10;
  new_id = 2;
}
