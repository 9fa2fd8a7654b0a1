-- ===== src/IntakeStore/Shapes.antt =====
-- The JSON documents of an intake's payload, constraints and plan: what
-- backend/src/tiber/infrastructure/repositories/sqlalchemy_notification_intake_repository.py
-- writes to the JSONB columns, and what it makes of them when it reads.
use tiber.Prelude.{String}
use tiber.Enums.{DeliveryChannel, channel_eq, category_eq}
use tiber.Result.{Result, ok, ◌>>=◌}
use tiber.Time.{DateTime}
use tiber.Intake.{
  IntakePayload, payload_post_init, DecisionConstraints, constraints_post_init, NotificationPlan,
  plan_post_init, Times,
}
use tiber.Json.{
  Json, number, text, object, no_fields, field, Codec, get, at_key, object_of, write_fields,
  read_fields, write_option, read_option, optional_text, datetime_of, optional_datetime_of, uuid_of,
  int_of,
}
use tiber.Json.Enums.{channel_value, channel_of}
use tiber.Json.Content.{to_dict}
use tiber.IntakeStore.{
  category_to_json, mode_value, mode_of, decision_value, decision_of, source_value, source_of,
  variables_to_json, variables_of, channels_to_json, channel_set_to_json, category_set_to_json,
  category_of_json, channels_of, channel_set_of, category_set_of, topic_to_json, topic_from_json,
  content_of,
}

module _ (c : Codec) where
  -- `_payload_to_json`
  unfoldable pub payload_to_json : IntakePayload → Json
  unfolding topic_to_json channels_to_json channel_set_to_json variables_to_json to_dict
  payload_to_json p = object (
      field "category" (write_option category_to_json p.category) (
        field "topic" (write_option (topic_to_json c) p.topic) (
          field "channels" (write_option channels_to_json p.channels) (
            field "adhoc_channels" (write_option channel_set_to_json p.adhoc_channels) (
              field "template_id" (write_option (λ n. text (c.uuid_text n)) p.template_id) (
                field "template_slug" (write_option text p.template_slug) (
                  field "template_variables" (write_option variables_to_json p.template_variables) (
                    field "content" (write_option (λ n. object (to_dict n)) p.content) (
                      field "group_key" (write_option text p.group_key) (
                        field "send_at" (write_option (λ t. text (c.iso_text t)) p.send_at)
                          no_fields))))))))))

  -- `_payload_from_json`
  unfoldable pub payload_from_json : Json → Result IntakePayload
  unfolding object_of
  payload_from_json v = do
    data_ ← object_of v
    template_variables ← read_option (variables_of c) (get "template_variables" data_)
    content ← read_option (content_of c) (get "content" data_)
    category ← read_option (category_of_json c) (get "category" data_)
    topic ← read_option (topic_from_json c) (get "topic" data_)
    channels ← read_option (channels_of c) (get "channels" data_)
    adhoc_channels ← read_option (channel_set_of c) (get "adhoc_channels" data_)
    template_id ← read_option (uuid_of c) (get "template_id" data_)
    template_slug ← optional_text (get "template_slug" data_)
    group_key ← optional_text (get "group_key" data_)
    send_at ← optional_datetime_of c (get "send_at" data_)
    payload_post_init (record {
      category = category;
      topic = topic;
      channels = channels;
      adhoc_channels = adhoc_channels;
      template_id = template_id;
      template_slug = template_slug;
      template_variables = template_variables;
      content = content;
      group_key = group_key;
      send_at = send_at;
    })

  -- `_constraints_to_json`
  unfoldable pub constraints_to_json : DecisionConstraints → Json
  unfolding category_set_to_json channel_set_to_json
  constraints_to_json d = object (
      field "allowed_categories" (category_set_to_json d.allowed_categories) (
        field "default_category" (category_to_json d.default_category) (
          field "channel_mode" (text (mode_value d.channel_mode)) (
            field "feasible_channels" (channel_set_to_json d.feasible_channels)
              (field "max_channels" (number d.max_channels) no_fields)))))

  -- `_constraints_from_json`
  unfoldable pub constraints_from_json : Json → Result DecisionConstraints
  unfolding object_of
  constraints_from_json v = do
    data_ ← object_of v
    allowed_categories ← category_set_of c (get "allowed_categories" data_)
    raw_default ← at_key "default_category" data_
    default_category ← category_of_json c raw_default
    raw_mode ← at_key "channel_mode" data_
    channel_mode ← mode_of raw_mode
    feasible_channels ← channel_set_of c (get "feasible_channels" data_)
    raw_max ← at_key "max_channels" data_
    max_channels ← int_of c raw_max
    constraints_post_init (record {
      allowed_categories = allowed_categories;
      default_category = default_category;
      channel_mode = channel_mode;
      feasible_channels = feasible_channels;
      max_channels = max_channels;
    })

  unfoldable pub send_at_to_json : Times → Json
  unfolding write_fields
  send_at_to_json ts =
      object (write_fields (λ e. channel_value e.0) (λ e. text (c.iso_text e.1)) ts)

  unfoldable pub send_at_entry : String → Json → Result (DeliveryChannel × DateTime)
  unfolding datetime_of
  send_at_entry k v = do channel ← channel_of k; time ← datetime_of c v; ok (channel, time)

  -- `_plan_to_json`
  unfoldable pub plan_to_json : NotificationPlan → Json
  unfolding topic_to_json channels_to_json send_at_to_json
  plan_to_json p = object (
      field "category" (category_to_json p.category) (
        field "category_source" (text (decision_value p.category_source)) (
          field "topic" (write_option (topic_to_json c) p.topic) (
            field "topic_source" (write_option (λ s. text (decision_value s)) p.topic_source) (
              field "channels" (channels_to_json p.channels) (
                field "channel_source" (text (source_value p.channel_source)) (
                  field "send_at" (send_at_to_json p.send_at)
                    (field "model_version" (write_option text p.model_version) no_fields))))))))

  -- `_plan_from_json`
  unfoldable pub plan_from_json : Json → Result NotificationPlan
  unfolding object_of
  plan_from_json v = do
    data_ ← object_of v
    raw_send_at ← object_of (get "send_at" data_)
    raw_category ← at_key "category" data_
    category ← category_of_json c raw_category
    raw_category_source ← at_key "category_source" data_
    category_source ← decision_of raw_category_source
    topic ← read_option (topic_from_json c) (get "topic" data_)
    topic_source ← read_option decision_of (get "topic_source" data_)
    channels ← channels_of c (get "channels" data_)
    raw_channel_source ← at_key "channel_source" data_
    channel_source ← source_of raw_channel_source
    send_at ← read_fields send_at_entry raw_send_at
    model_version ← optional_text (get "model_version" data_)
    plan_post_init (record {
      category = category;
      category_source = category_source;
      topic = topic;
      topic_source = topic_source;
      channels = channels;
      channel_source = channel_source;
      send_at = send_at;
      model_version = model_version;
    })
