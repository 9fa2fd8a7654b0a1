-- ===== src/Intake/Plan.antt =====
-- How the worker turns constraints and a suggestion into decisions
-- (backend/src/tiber/domain/services/plan_assembly.py).
pub mod Channels
pub mod Assembly
use tiber.Prelude.{
  ℕ, zero, suc, Option, none, some, List, [], ◌∷◌, Bool, true, false, ◌&&◌, ◌||◌, not, is_none,
  is_nil, contains, keep, take, dedup, if◌then◌else◌, leb, ltb, is_some, ◌++◌, String,
}
use tiber.Enums.{
  DeliveryChannel, email, push, sms, in_app, NotificationCategory, critical, channel_eq,
  category_eq,
}
use tiber.Result.{Result, ok, err, invalid_attribute, ◌>>=◌}
use tiber.Time.{DateTime}
use tiber.Intake.{
  ChannelSource, DecisionSource, ChannelMode, Want, ResolvedTopic, IntakePayload,
  DecisionConstraints, MlSuggestion, NotificationPlan, Times, is_some_critical, plan_post_init,
}

abbrev pub default_channel_order : List DeliveryChannel
default_channel_order = in_app ∷ push ∷ email ∷ sms ∷ []

abbrev pub fallback_channel_count : ℕ
fallback_channel_count = 1

abbrev pub add_if : Bool → Want → List Want → List Want
add_if true w ws = w ∷ ws
add_if false w ws = ws

abbrev pub is_ml_mode : ChannelMode → Bool
is_ml_mode ChannelMode.ml = true
is_ml_mode _ = false

unfoldable pub wanted_decisions : IntakePayload → DecisionConstraints → List Want
wanted_decisions payload constraints =
    let open_time = not (is_some_critical payload.category) in
    add_if (is_none payload.category) Want.category (
      add_if (is_ml_mode constraints.channel_mode) Want.channels (
        add_if (open_time && is_none payload.topic) Want.topic
          (add_if (open_time && is_none payload.send_at) Want.send_time [])))

abbrev pub suggested_category : Option MlSuggestion → Option NotificationCategory
suggested_category none = none
suggested_category (some s) = s.category

abbrev pub suggested_channels : Option MlSuggestion → List DeliveryChannel
suggested_channels none = []
suggested_channels (some s) = s.channels

unfoldable pub choose_category :
    IntakePayload
    → DecisionConstraints
    → Option MlSuggestion
    → NotificationCategory × DecisionSource
choose_category payload constraints suggestion = elim payload.category [
  | some c ↦ (c, DecisionSource.client)
  | none ↦ elim (suggested_category suggestion) [
    | some c ↦
        if contains c constraints.allowed_categories
        then (c, DecisionSource.ml)
        else (constraints.default_category, DecisionSource.default)
    | none ↦ (constraints.default_category, DecisionSource.default)
  ]
]

unfoldable pub choose_topic :
    IntakePayload → Option ResolvedTopic → Option ResolvedTopic × Option DecisionSource
choose_topic payload ml_topic = elim payload.topic [
  | some t ↦ (some t, some DecisionSource.client)
  | none ↦ elim ml_topic [ some t ↦ (some t, some DecisionSource.ml) | none ↦ (none, none) ]
]

-- the order of the values "email", "in_app", "push", "sms"
abbrev pub value_rank : DeliveryChannel → ℕ
value_rank email = 0
value_rank in_app = 1
value_rank push = 2
value_rank sms = 3

unfoldable pub insert_channel : DeliveryChannel → List DeliveryChannel → List DeliveryChannel
insert_channel c [] = c ∷ []
insert_channel c (d ∷ ds) =
    let rest = insert_channel c ds in
    if leb (value_rank c) (value_rank d) then c ∷ d ∷ ds else d ∷ rest

-- `sorted(channels, key=lambda c: c.value)`
unfoldable pub sort_channels : List DeliveryChannel → List DeliveryChannel
unfolding insert_channel
sort_channels [] = []
sort_channels (c ∷ cs) = insert_channel c (sort_channels cs)

-- the suggestion of the model, as far as it conforms
unfoldable pub conforming : DecisionConstraints → Option MlSuggestion → List DeliveryChannel
unfolding dedup
conforming constraints suggestion =
    take constraints.max_channels
      (dedup (keep (λ c. contains c constraints.feasible_channels) (suggested_channels suggestion)))

unfoldable pub default_channels : DecisionConstraints → List DeliveryChannel
unfolding sort_channels
default_channels constraints =
    let in_order =
      take fallback_channel_count
        (keep (λ c. contains c constraints.feasible_channels) default_channel_order) in
    if is_nil in_order
    then take fallback_channel_count (sort_channels constraints.feasible_channels)
    else in_order

unfoldable pub choose_channels :
    IntakePayload
    → DecisionConstraints
    → Option MlSuggestion
    → Result (List DeliveryChannel × ChannelSource)
unfolding dedup sort_channels conforming default_channels
choose_channels payload constraints suggestion = elim constraints.channel_mode [
  | ChannelMode.client ↦ elim payload.channels [
    | none ↦ err invalid_attribute
    | some cs ↦ ok (dedup cs, ChannelSource.client)
  ]
  | ChannelMode.addresses ↦ elim payload.adhoc_channels [
    | none ↦ err invalid_attribute
    | some cs ↦ ok (sort_channels cs, ChannelSource.addresses)
  ]
  | ChannelMode.ml ↦
      let suggested = conforming constraints suggestion in
      if is_nil suggested
      then ok (default_channels constraints, ChannelSource.default)
      else ok (suggested, ChannelSource.ml)
]

abbrev pub is_critical : NotificationCategory → Bool
is_critical critical = true
is_critical _ = false

unfoldable pub choose_send_at :
    ℕ → IntakePayload → NotificationCategory → List DeliveryChannel → Option MlSuggestion → Times
choose_send_at now payload category channels none = []
choose_send_at now payload category channels (some s) =
    if is_none payload.send_at && not (is_critical category)
    then keep (λ e. contains e.0 channels && e.1.aware && ltb now e.1.at) s.send_at
    else []

abbrev pub version_of : Option MlSuggestion → Option String
version_of none = none
version_of (some s) = s.model_version

-- the plan for the channels chosen
abbrev pub plan_for :
    IntakePayload
    → DecisionConstraints
    → Option MlSuggestion
    → Option ResolvedTopic
    → ℕ
    → List DeliveryChannel × ChannelSource
    → NotificationPlan
plan_for payload constraints suggestion ml_topic now chosen =
    let category = choose_category payload constraints suggestion in
    let topic = choose_topic payload ml_topic in
    record {
      category = category.0;
      category_source = category.1;
      topic = topic.0;
      topic_source = topic.1;
      channels = chosen.0;
      channel_source = chosen.1;
      send_at = choose_send_at now payload category.0 chosen.0 suggestion;
      model_version = version_of suggestion;
    }

unfoldable pub assemble_plan :
    IntakePayload
    → DecisionConstraints
    → Option MlSuggestion
    → Option ResolvedTopic
    → ℕ
    → Result NotificationPlan
assemble_plan payload constraints suggestion ml_topic now = do
  chosen ← choose_channels payload constraints suggestion
  plan_post_init (plan_for payload constraints suggestion ml_topic now chosen)
