-- ===== src/Recipient.antt =====
-- What delivery reads of a recipient and of a project's delivery constraint
-- (backend/src/tiber/domain/entities/recipient.py, delivery_constraint.py and the value objects
-- quiet_hours.py, blackout_period.py, preferences.py). A `dict` is a list of pairs with distinct
-- keys, a `frozenset` a list, a `time` its microseconds after midnight.
pub mod Entity
pub mod Book
pub mod Resolution
pub mod Merge
pub mod Owners
use tiber.Prelude.{ℕ, String, Option, none, some, List, [], ◌∷◌, if◌then◌else◌, not, ◌||◌}
use tiber.Prelude.Eq.{◌==◌, nat_eq}
use tiber.Enums.{DeliveryChannel, NotificationCategory, critical, channel_eq, category_eq}
use tiber.Prelude.{contains}
use tiber.Result.{Result, ok, raise_if, value_error, ◌>>=◌, ◌>>◌}
use tiber.Time.{DateTime, is_after}

pub record QuietHours : Type 0 where
  pub name : String
  pub window_start : ℕ
  pub window_end : ℕ
  pub channel : DeliveryChannel

unfoldable pub make_quiet_hours : String → ℕ → ℕ → DeliveryChannel → Result QuietHours
make_quiet_hours name window_start window_end channel = do
  raise_if (window_start == window_end) value_error
  ok (record {
    name = name;
    window_start = window_start;
    window_end = window_end;
    channel = channel;
  })

pub record BlackoutPeriod : Type 0 where
  pub name : String
  pub start : DateTime
  pub end : DateTime

-- `start > end` of one aware and one naive datetime is never reached: both are aware by then.
unfoldable pub make_blackout_period : String → DateTime → DateTime → Result BlackoutPeriod
make_blackout_period name start end = do
  raise_if (not start.aware || not end.aware) value_error
  late ← is_after start end
  raise_if late value_error
  ok (record { name = name; start = start; end = end })

pub record RecipientPreferences : Type 0 where
  pub opted_out_channels : List DeliveryChannel
  pub unsubscribed_categories : List NotificationCategory
  pub unsubscribed_topics : List ℕ
  pub blackout_period : Option BlackoutPeriod
  pub quiet_hours : Option QuietHours

-- `__post_init__` of the preferences
unfoldable pub preferences_post_init : RecipientPreferences → Result RecipientPreferences
preferences_post_init p = do
  raise_if (contains critical p.unsubscribed_categories) value_error
  ok p

abbrev pub Addresses : Type 0
Addresses = List (DeliveryChannel × String)

-- `addresses.get(channel)`
unfoldable pub get_address : DeliveryChannel → Addresses → Option String
get_address channel [] = none
get_address channel ((ch, value) ∷ rest) =
    if ch == channel then some value else get_address channel rest

pub record Recipient : Type 0 where
  pub id : ℕ
  pub project_id : ℕ
  pub addresses : Addresses
  pub preferences : RecipientPreferences
  pub external_id : Option String
  pub timezone : Option String
  pub language : Option String
  pub created_at : DateTime
  pub updated_at : DateTime
  pub archived_at : Option DateTime

pub record DeliveryConstraint : Type 0 where
  pub project_id : ℕ
  pub blackout_periods : List BlackoutPeriod
  pub quiet_hours : List QuietHours
  pub timezone : String
