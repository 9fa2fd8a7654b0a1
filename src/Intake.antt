-- ===== src/Intake.antt =====
-- The value objects of an intake (backend/src/tiber/domain/value_objects/intake.py). Sets and
-- tuples are lists; a set lists each element once.
pub mod Constraints
pub mod Plan
pub mod Record
use tiber.Prelude.{
  String, ℕ, Option, none, some, List, Bool, true, false, ◌&&◌, ◌||◌, not, is_none, is_some, is_nil,
  contains, distinct, every, length, leb, ltb, map,
}
use tiber.Prelude.Eq.{◌==◌}
use tiber.Enums.{DeliveryChannel, NotificationCategory, critical, channel_eq, category_eq}
use tiber.Result.{Result, ok, raise_if, invalid_attribute, ◌>>◌}
use tiber.Time.{DateTime}
use tiber.Content.{NotificationContent}
use tiber.Notification.{Variables}

pub data ChannelSource : Type 0 where
  client ml addresses default : ChannelSource

pub data DecisionSource : Type 0 where
  client ml default : DecisionSource

pub data ChannelMode : Type 0 where
  client addresses ml : ChannelMode

pub data Want : Type 0 where
  category topic channels send_time : Want

pub record ResolvedTopic : Type 0 where
  pub id : ℕ
  pub slug : String
  pub category : NotificationCategory

pub record IntakePayload : Type 0 where
  pub category : Option NotificationCategory
  pub topic : Option ResolvedTopic
  pub channels : Option (List DeliveryChannel)
  pub adhoc_channels : Option (List DeliveryChannel)
  pub template_id : Option ℕ
  pub template_slug : Option String
  pub template_variables : Option Variables
  pub content : Option NotificationContent
  pub group_key : Option String
  pub send_at : Option DateTime

abbrev pub category_of : Option ResolvedTopic → Option NotificationCategory
category_of none = none
category_of (some t) = some t.category

abbrev pub first_some :
    Option NotificationCategory → Option NotificationCategory → Option NotificationCategory
first_some none d = d
first_some (some c) _ = some c

unfoldable pub declared_category : IntakePayload → Option NotificationCategory
declared_category p = first_some p.category (category_of p.topic)

abbrev pub is_given_nil {ℓ} : {A : Type ℓ} → Option (List A) → Bool
is_given_nil none = false
is_given_nil (some xs) = is_nil xs

-- the two are given and differ
abbrev pub conflict : Option NotificationCategory → Option NotificationCategory → Bool
conflict (some c) (some d) = not (c == d)
conflict _ _ = false

abbrev pub is_some_critical : Option NotificationCategory → Bool
is_some_critical (some critical) = true
is_some_critical _ = false

abbrev pub is_naive : Option DateTime → Bool
is_naive none = false
is_naive (some t) = not t.aware

-- `__post_init__` of the payload
unfoldable pub payload_post_init : IntakePayload → Result IntakePayload
unfolding declared_category
payload_post_init p = do
  raise_if (is_some p.channels && is_some p.adhoc_channels) invalid_attribute
  raise_if (is_given_nil p.channels) invalid_attribute
  raise_if (is_given_nil p.adhoc_channels) invalid_attribute
  raise_if (is_none p.template_id && is_none p.content) invalid_attribute
  raise_if (is_none p.template_id && is_some p.template_variables) invalid_attribute
  raise_if (conflict p.category (category_of p.topic)) invalid_attribute
  raise_if (is_naive p.send_at) invalid_attribute
  raise_if (is_some p.send_at && is_some_critical (declared_category p)) invalid_attribute
  ok p

pub record DecisionConstraints : Type 0 where
  pub allowed_categories : List NotificationCategory
  pub default_category : NotificationCategory
  pub channel_mode : ChannelMode
  pub feasible_channels : List DeliveryChannel
  pub max_channels : ℕ

unfoldable pub constraints_post_init : DecisionConstraints → Result DecisionConstraints
constraints_post_init c = do
  raise_if (is_nil c.feasible_channels) invalid_attribute
  raise_if (ltb c.max_channels 1) invalid_attribute
  raise_if (not (contains c.default_category c.allowed_categories)) invalid_attribute
  ok c

abbrev pub Times : Type 0
Times = List (DeliveryChannel × DateTime)

pub record MlSuggestion : Type 0 where
  pub category : Option NotificationCategory
  pub topic_slug : Option String
  pub channels : List DeliveryChannel
  pub send_at : Times
  pub model_version : Option String

pub record NotificationPlan : Type 0 where
  pub category : NotificationCategory
  pub category_source : DecisionSource
  pub topic : Option ResolvedTopic
  pub topic_source : Option DecisionSource
  pub channels : List DeliveryChannel
  pub channel_source : ChannelSource
  pub send_at : Times
  pub model_version : Option String

unfoldable pub plan_post_init : NotificationPlan → Result NotificationPlan
plan_post_init p = do
  raise_if (is_nil p.channels) invalid_attribute
  raise_if (not (distinct p.channels)) invalid_attribute
  raise_if (not (every (λ e. contains e.0 p.channels) p.send_at)) invalid_attribute
  raise_if (not (every (λ e. e.1.aware) p.send_at)) invalid_attribute
  ok p
