-- ===== src/IntakeStore.antt =====
-- How an intake is stored
-- (backend/src/tiber/infrastructure/repositories/sqlalchemy_notification_intake_repository.py):
-- the JSON shapes of its value objects and the row. A dict is read in the order in which it was
-- written, a set is written in sorted order. The repository's queries are in Rows.
pub mod Shapes
pub mod Rows
pub mod Parts
pub mod Roundtrip
pub mod Lookup
use tiber.Content.{NotificationContent}
use tiber.Prelude.Eq.{◌==◌, string_eq}
use tiber.Prelude.{if◌then◌else◌, String, ℕ, List, Option, none, some, dedup, ◌≡◌, map}
use tiber.Enums.{DeliveryChannel, NotificationCategory, channel_eq, category_eq}
use tiber.Result.{Result, ok, err, ◌>>=◌, value_error, type_error}
use tiber.Time.{DateTime}
use tiber.Notification.{Variables}
use tiber.Intake.{
  ResolvedTopic, IntakePayload, payload_post_init, DecisionConstraints, constraints_post_init,
  NotificationPlan, plan_post_init, ChannelSource, DecisionSource, ChannelMode, ml, Times,
}
use tiber.Json.{
  Json, null, number, text, array, object, Fields, no_fields, field, Codec, get, at_key, object_of,
  array_of, write_items, read_items, write_fields, read_fields, write_option, read_option,
  optional_text, str_of, datetime_of, optional_datetime_of, uuid_of, int_of,
}
use tiber.Json.Enums.{channel_value, channel_of, category_value, category_of, sort_by}
use tiber.Json.Content.{to_dict, from_dict}

abbrev pub channel_to_json : DeliveryChannel → Json
channel_to_json d = text (channel_value d)

abbrev pub category_to_json : NotificationCategory → Json
category_to_json d = text (category_value d)

-- The literal types of the value objects. Python takes any value; a text outside the type is not
-- modelled, and refused here.
abbrev pub mode_value : ChannelMode → String
mode_value ChannelMode.client = "client"
mode_value ChannelMode.addresses = "addresses"
mode_value ChannelMode.ml = "ml"

unfoldable pub mode_of : Json → Result ChannelMode
mode_of (text s) =
    if s == "client"
    then ok ChannelMode.client
    else if s == "addresses"
    then ok ChannelMode.addresses
    else if s == "ml"
    then ok ChannelMode.ml
    else err type_error
mode_of _ = err type_error

abbrev pub decision_value : DecisionSource → String
decision_value DecisionSource.client = "client"
decision_value DecisionSource.ml = "ml"
decision_value DecisionSource.default = "default"

unfoldable pub decision_of : Json → Result DecisionSource
decision_of (text s) =
    if s == "client"
    then ok DecisionSource.client
    else if s == "ml"
    then ok DecisionSource.ml
    else if s == "default"
    then ok DecisionSource.default
    else err type_error
decision_of _ = err type_error

abbrev pub source_value : ChannelSource → String
source_value ChannelSource.client = "client"
source_value ChannelSource.ml = "ml"
source_value ChannelSource.addresses = "addresses"
source_value ChannelSource.default = "default"

unfoldable pub source_of : Json → Result ChannelSource
source_of (text s) =
    if s == "client"
    then ok ChannelSource.client
    else if s == "ml"
    then ok ChannelSource.ml
    else if s == "addresses"
    then ok ChannelSource.addresses
    else if s == "default"
    then ok ChannelSource.default
    else err type_error
source_of _ = err type_error

-- The value of a template variable: `None`, or what `str` makes of it where it is rendered.
abbrev pub variable_to_json : Option String → Json
variable_to_json = write_option text

abbrev pub variable_of : Codec → Json → Option String
variable_of c null = none
variable_of c v = some (str_of c v)

unfoldable pub variables_to_json : Variables → Json
unfolding write_fields
variables_to_json vs = object (write_fields (λ e. e.0) (λ e. variable_to_json e.1) vs)

-- a JSON object, or `ValueError`
unfoldable pub variables_of : Codec → Json → Result Variables
unfolding read_fields str_of object_of
variables_of c v = do raw ← object_of v; read_fields (λ k x. ok (k, variable_of c x)) raw

unfoldable pub channels_to_json : List DeliveryChannel → Json
unfolding write_items
channels_to_json ds = array (write_items channel_to_json ds)

-- `sorted(channel.value for channel in channels)`
unfoldable pub channel_set_to_json : List DeliveryChannel → Json
unfolding channels_to_json sort_by
channel_set_to_json ds = channels_to_json (sort_by channel_value ds)

unfoldable pub category_set_to_json : List NotificationCategory → Json
unfolding write_items sort_by
category_set_to_json cs = array (write_items category_to_json (sort_by category_value cs))

module _ (c : Codec) where
  unfoldable pub channel_of_json : Json → Result DeliveryChannel
  unfolding str_of channel_of
  channel_of_json v = channel_of (str_of c v)

  unfoldable pub category_of_json : Json → Result NotificationCategory
  unfolding str_of category_of
  category_of_json v = category_of (str_of c v)

  unfoldable pub channels_of : Json → Result (List DeliveryChannel)
  unfolding array_of read_items channel_of_json
  channels_of v = do raw ← array_of v; read_items channel_of_json raw

  -- `frozenset(DeliveryChannel(str(channel)) for channel in array)`
  unfoldable pub channel_set_of : Json → Result (List DeliveryChannel)
  unfolding channels_of
  channel_set_of v = channels_of v >>= λ ds. ok (dedup ds)

  unfoldable pub category_set_of : Json → Result (List NotificationCategory)
  unfolding array_of read_items category_of_json
  category_set_of v = do raw ← array_of v; cs ← read_items category_of_json raw; ok (dedup cs)

  -- `_topic_to_json`
  unfoldable pub topic_to_json : ResolvedTopic → Json
  topic_to_json t = object (
      field "id" (text (c.uuid_text t.id))
        (field "slug" (text t.slug) (field "category" (category_to_json t.category) no_fields)))

  -- `_topic_from_json`
  unfoldable pub topic_from_json : Json → Result ResolvedTopic
  unfolding object_of uuid_of str_of category_of_json
  topic_from_json v = do
    data_ ← object_of v
    id ← uuid_of c (get "id" data_)
    slug ← at_key "slug" data_
    raw_category ← at_key "category" data_
    category ← category_of_json raw_category
    ok (record { id = id; slug = str_of c slug; category = category })

  -- `NotificationContent.from_dict(raw)` of an object, or `ValueError`
  unfoldable pub content_of : Json → Result NotificationContent
  unfolding object_of from_dict
  content_of v = do raw ← object_of v; from_dict c raw
