-- ===== src/IntakeStore/Parts.antt =====
-- The lemmas of the round trip: each part of an intake's documents is read back as it was written.
use tiber.Prelude.{
  ◌≡◌, refl, ◌∙◌, arith, ℕ, String, List, [], ◌∷◌, Option, none, some, Bool, true, distinct,
  is_some,
}
use tiber.Enums.{DeliveryChannel, NotificationCategory, channel_eq, category_eq}
use tiber.Result.{Result, ok, ◌>>=◌}
use tiber.Time.{DateTime}
use tiber.Notification.{Variables}
use tiber.Content.{NotificationContent}
use tiber.Intake.{
  ResolvedTopic, IntakePayload, payload_post_init, DecisionConstraints, ChannelSource,
  DecisionSource, ChannelMode, Times, declared_category, is_given_nil,
}
use tiber.Intake.Record.{NotificationIntake}
use tiber.Json.{
  text, object, Codec, IsFaithful, array_of, object_of, write_fields, read_fields, write_option,
  read_option, str_of, optional_text, uuid_of, datetime_of, optional_datetime_of,
}
use tiber.Json.Enums.{
  channel_value, category_value, channel_of-channel_value, category_of-category_value, sort_by,
}
use tiber.Json.Content.{to_dict, is_accepted}
use tiber.Json.Laws.{
  read_items-write_items, from_dict-to_dict, distinct-sort_by, is_nil-sort_by, every-true,
  dedup-distinct,
}
use tiber.IntakeStore.{
  channel_to_json, category_to_json, mode_value, mode_of, decision_value, decision_of, source_value,
  source_of, variables_to_json, variables_of, channels_to_json, channel_set_to_json,
  category_set_to_json, channel_of_json, category_of_json, channels_of, channel_set_of,
  category_set_of, topic_to_json, topic_from_json, content_of,
}
use tiber.IntakeStore.Shapes.{send_at_entry}

abbrev pub sorted_channels : List DeliveryChannel → List DeliveryChannel
sorted_channels = sort_by channel_value

abbrev pub sorted_option : Option (List DeliveryChannel) → Option (List DeliveryChannel)
sorted_option none = none
sorted_option (some ds) = some (sorted_channels ds)

-- the same payload, its set listed as `sorted` lists it
abbrev pub ordered_payload : IntakePayload → IntakePayload
ordered_payload p = record p { adhoc_channels = sorted_option p.adhoc_channels }

abbrev pub ordered_constraints : DecisionConstraints → DecisionConstraints
ordered_constraints d = record d {
  allowed_categories = sort_by category_value d.allowed_categories;
  feasible_channels = sorted_channels d.feasible_channels;
}

abbrev pub ordered_intake : NotificationIntake → NotificationIntake
ordered_intake i = record i {
  payload = ordered_payload i.payload;
  constraints = ordered_constraints i.constraints;
}

abbrev pub is_distinct_option : Option (List DeliveryChannel) → Bool
is_distinct_option none = true
is_distinct_option (some ds) = distinct ds

abbrev pub is_accepted_option : Codec → Option NotificationContent → Bool
is_accepted_option c none = true
is_accepted_option c (some n) = is_accepted c n

pub mode_of-mode_value : (m : ChannelMode) → mode_of (text (mode_value m)) ≡ ok m
unfolding mode_of
mode_of-mode_value ChannelMode.client = refl
mode_of-mode_value ChannelMode.addresses = refl
mode_of-mode_value ChannelMode.ml = refl

pub decision_of-decision_value : (d : DecisionSource) → decision_of (text (decision_value d)) ≡ ok d
unfolding decision_of
decision_of-decision_value DecisionSource.client = refl
decision_of-decision_value DecisionSource.ml = refl
decision_of-decision_value DecisionSource.default = refl

pub source_of-source_value : (d : ChannelSource) → source_of (text (source_value d)) ≡ ok d
unfolding source_of
source_of-source_value ChannelSource.client = refl
source_of-source_value ChannelSource.ml = refl
source_of-source_value ChannelSource.addresses = refl
source_of-source_value ChannelSource.default = refl

pub is_some-sorted_option :
    (o : Option (List DeliveryChannel)) → is_some (sorted_option o) ≡ is_some o
is_some-sorted_option none = refl
is_some-sorted_option (some ds) = refl

pub is_given_nil-sorted_option :
    (o : Option (List DeliveryChannel)) → is_given_nil (sorted_option o) ≡ is_given_nil o
is_given_nil-sorted_option none = refl
is_given_nil-sorted_option (some ds) = is_nil-sort_by channel_value ds

pub optionally {ℓ} :
    {A : Type ℓ} {r : Result A} {x : A} → r ≡ ok x → (r >>= λ y. ok (some y)) ≡ ok (some x)
optionally e = rw e refl

module _ (c : Codec) where
  pub channel_of_json-eq : (d : DeliveryChannel) → channel_of_json c (channel_to_json d) ≡ ok d
  unfolding channel_of_json str_of
  channel_of_json-eq d = channel_of-channel_value d

  pub category_of_json-eq :
      (d : NotificationCategory) → category_of_json c (category_to_json d) ≡ ok d
  unfolding category_of_json str_of
  category_of_json-eq d = category_of-category_value d

  pub channels_of-channels_to_json :
      (ds : List DeliveryChannel) → channels_of c (channels_to_json ds) ≡ ok ds
  unfolding channels_of channels_to_json array_of
  channels_of-channels_to_json ds =
      read_items-write_items (channel_of_json c) channel_to_json (λ d. true)
        (λ d h. channel_of_json-eq d) ds (every-true ds)

  pub channel_set_of-channel_set_to_json :
      (ds : List DeliveryChannel)
      → distinct ds ≡ true
      → channel_set_of c (channel_set_to_json ds) ≡ ok (sorted_channels ds)
  unfolding channel_set_of channel_set_to_json
  channel_set_of-channel_set_to_json ds h =
      rw
        (
          channels_of-channels_to_json (sorted_channels ds),
          dedup-distinct (sorted_channels ds) (distinct-sort_by channel_value ds ∙ h),
        )
        refl

  pub category_set_of-category_set_to_json :
      (cs : List NotificationCategory)
      → distinct cs ≡ true
      → category_set_of c (category_set_to_json cs) ≡ ok (sort_by category_value cs)
  unfolding category_set_of category_set_to_json array_of
  category_set_of-category_set_to_json cs h =
      rw
        (
          read_items-write_items (category_of_json c) category_to_json (λ d. true)
              (λ d h. category_of_json-eq d) (sort_by category_value cs)
              (every-true (sort_by category_value cs)),
          dedup-distinct (sort_by category_value cs) (distinct-sort_by category_value cs ∙ h),
        )
        refl

  pub variables_of-variables_to_json :
      (vs : Variables) → variables_of c (variables_to_json vs) ≡ ok vs
  unfolding variables_of variables_to_json object_of write_fields read_fields str_of
  variables_of-variables_to_json [] = refl
  variables_of-variables_to_json ((k, none) ∷ vs) = rw (variables_of-variables_to_json vs) refl
  variables_of-variables_to_json ((k, some s) ∷ vs) = rw (variables_of-variables_to_json vs) refl

  module _ (h : IsFaithful c) where
    pub topic_from_json-topic_to_json :
        (t : ResolvedTopic) → topic_from_json c (topic_to_json c t) ≡ ok t
    unfolding topic_from_json topic_to_json object_of uuid_of str_of
    topic_from_json-topic_to_json t = rw (h.uuid t.id, category_of_json-eq t.category) refl

    pub send_at-eq :
        (ts : Times)
        → read_fields
            (send_at_entry c)
            (write_fields (λ e. channel_value e.0) (λ e. text (c.iso_text e.1)) ts)
          ≡ ok ts
    unfolding send_at_entry write_fields read_fields datetime_of
    send_at-eq [] = refl
    send_at-eq ((d, t) ∷ ts) = rw (channel_of-channel_value d, h.iso t, send_at-eq ts) refl

    pub content_of-to_dict :
        (o : Option NotificationContent)
        → is_accepted_option c o ≡ true
        → read_option (content_of c) (write_option (λ n. object (to_dict n)) o) ≡ ok o
    unfolding content_of object_of
    content_of-to_dict none k = refl
    content_of-to_dict (some n) k = rw (from_dict-to_dict c n k) refl

    pub topic_option-eq :
        (o : Option ResolvedTopic)
        → read_option (topic_from_json c) (write_option (topic_to_json c) o) ≡ ok o
    unfolding topic_to_json
    topic_option-eq none = refl
    topic_option-eq (some t) = optionally (topic_from_json-topic_to_json t)

    pub category_option-eq :
        (o : Option NotificationCategory)
        → read_option (category_of_json c) (write_option category_to_json o) ≡ ok o
    category_option-eq none = refl
    category_option-eq (some d) = optionally (category_of_json-eq d)

    pub channels_option-eq :
        (o : Option (List DeliveryChannel))
        → read_option (channels_of c) (write_option channels_to_json o) ≡ ok o
    unfolding channels_to_json
    channels_option-eq none = refl
    channels_option-eq (some ds) = optionally (channels_of-channels_to_json ds)

    pub channel_set_option-eq :
        (o : Option (List DeliveryChannel))
        → is_distinct_option o ≡ true
        → read_option (channel_set_of c) (write_option channel_set_to_json o) ≡ ok (sorted_option o)
    unfolding channel_set_to_json channels_to_json
    channel_set_option-eq none k = refl
    channel_set_option-eq (some ds) k = optionally (channel_set_of-channel_set_to_json ds k)

    pub uuid_option-eq :
        (o : Option ℕ) → read_option (uuid_of c) (write_option (λ n. text (c.uuid_text n)) o) ≡ ok o
    unfolding uuid_of
    uuid_option-eq none = refl
    uuid_option-eq (some n) = optionally (h.uuid n)

    pub text_option-eq : (o : Option String) → optional_text (write_option text o) ≡ ok o
    unfolding optional_text
    text_option-eq none = refl
    text_option-eq (some s) = refl

    pub datetime_option-eq :
        (o : Option DateTime)
        → optional_datetime_of c (write_option (λ t. text (c.iso_text t)) o) ≡ ok o
    unfolding optional_datetime_of datetime_of
    datetime_option-eq none = refl
    datetime_option-eq (some t) = optionally (h.iso t)

    pub variables_option-eq :
        (o : Option Variables)
        → read_option (variables_of c) (write_option variables_to_json o) ≡ ok o
    unfolding variables_to_json
    variables_option-eq none = refl
    variables_option-eq (some vs) = optionally (variables_of-variables_to_json vs)

    pub decision_option-eq :
        (o : Option DecisionSource)
        → read_option decision_of (write_option (λ s. text (decision_value s)) o) ≡ ok o
    decision_option-eq none = refl
    decision_option-eq (some s) = optionally (decision_of-decision_value s)

    pub ordered_payload-valid :
        (p : IntakePayload)
        → payload_post_init p ≡ ok p
        → payload_post_init (ordered_payload p) ≡ ok (ordered_payload p)
    unfolding payload_post_init declared_category
    ordered_payload-valid p k =
        ground (
          arith,
          is_some-sorted_option p.adhoc_channels,
          is_given_nil-sorted_option p.adhoc_channels,
        )
