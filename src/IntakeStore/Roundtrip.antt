-- ===== src/IntakeStore/Roundtrip.antt =====
-- Reading what was written: the JSON documents and the rows of the intakes give back the intake,
-- its sets in sorted order.
use tiber.Prelude.{◌≡◌, refl, ◌∙◌, arith, Option, none, some, true, distinct}
use tiber.Enums.{channel_eq, category_eq}
use tiber.Result.{ok}
use tiber.Intake.{
  IntakePayload, payload_post_init, DecisionConstraints, constraints_post_init, NotificationPlan,
  plan_post_init,
}
use tiber.Intake.Record.{NotificationIntake, intake_post_init}
use tiber.Json.{Codec, IsFaithful, object_of}
use tiber.Json.Enums.{channel_value, category_value, intake_status_of-intake_status_value}
use tiber.Json.Laws.{is_nil-sort_by, contains-sort_by}
use tiber.IntakeStore.Shapes.{
  payload_to_json, payload_from_json, constraints_to_json, constraints_from_json, plan_to_json,
  plan_from_json, send_at_to_json,
}
use tiber.IntakeStore.Rows.{stored_plan, plan_column, values, to_entity}
use tiber.IntakeStore.Parts.{
  ordered_payload, ordered_constraints, ordered_intake, is_distinct_option, is_accepted_option,
  mode_of-mode_value, decision_of-decision_value, source_of-source_value, optionally,
  category_of_json-eq, channels_of-channels_to_json, channel_set_of-channel_set_to_json,
  category_set_of-category_set_to_json, send_at-eq, content_of-to_dict, topic_option-eq,
  category_option-eq, channels_option-eq, channel_set_option-eq, uuid_option-eq, text_option-eq,
  datetime_option-eq, variables_option-eq, decision_option-eq, ordered_payload-valid,
}

-- An intake that the constructors accepted, whose sets list each element once.
pub record IsStorable (c : Codec) (i : NotificationIntake) : Type 0 where
  pub payload : payload_post_init i.payload ≡ ok i.payload
  pub content : is_accepted_option c i.payload.content ≡ true
  pub adhoc : is_distinct_option i.payload.adhoc_channels ≡ true
  pub constraints : constraints_post_init i.constraints ≡ ok i.constraints
  pub categories : distinct i.constraints.allowed_categories ≡ true
  pub channels : distinct i.constraints.feasible_channels ≡ true
  pub plan : (p : NotificationPlan) → i.plan ≡ some p → plan_post_init p ≡ ok p
  pub intake : intake_post_init i ≡ ok i

module _ (c : Codec) (h : IsFaithful c) where
  pub payload_from_json-payload_to_json :
      (p : IntakePayload)
      → payload_post_init p ≡ ok p
      → is_accepted_option c p.content ≡ true
      → is_distinct_option p.adhoc_channels ≡ true
      → payload_from_json c (payload_to_json c p) ≡ ok (ordered_payload p)
  unfolding payload_from_json payload_to_json object_of
  payload_from_json-payload_to_json p valid content sets =
      rw
        (
          variables_option-eq c h p.template_variables,
          content_of-to_dict c h p.content content,
          category_option-eq c h p.category,
          topic_option-eq c h p.topic,
          channels_option-eq c h p.channels,
          channel_set_option-eq c h p.adhoc_channels sets,
          uuid_option-eq c h p.template_id,
          text_option-eq c h p.template_slug,
          text_option-eq c h p.group_key,
          datetime_option-eq c h p.send_at,
        )
        (ordered_payload-valid c h p valid)

  pub constraints_from_json-constraints_to_json :
      (d : DecisionConstraints)
      → constraints_post_init d ≡ ok d
      → distinct d.allowed_categories ≡ true
      → distinct d.feasible_channels ≡ true
      → constraints_from_json c (constraints_to_json c d) ≡ ok (ordered_constraints d)
  unfolding constraints_from_json constraints_to_json object_of constraints_post_init
  constraints_from_json-constraints_to_json d valid categories channels =
      rw
        (
          category_set_of-category_set_to_json c d.allowed_categories categories,
          category_of_json-eq c d.default_category,
          mode_of-mode_value d.channel_mode,
          channel_set_of-channel_set_to_json c d.feasible_channels channels,
        )
        (ground (
          arith,
          is_nil-sort_by channel_value d.feasible_channels,
          contains-sort_by category_value d.default_category d.allowed_categories,
        ))

  pub plan_from_json-plan_to_json :
      (p : NotificationPlan) → plan_from_json c (plan_to_json c p) ≡ plan_post_init p
  unfolding plan_from_json plan_to_json object_of send_at_to_json
  plan_from_json-plan_to_json p =
      rw
        (
          category_of_json-eq c p.category,
          decision_of-decision_value p.category_source,
          topic_option-eq c h p.topic,
          decision_option-eq c h p.topic_source,
          channels_of-channels_to_json c p.channels,
          source_of-source_value p.channel_source,
          send_at-eq c h p.send_at,
          text_option-eq c h p.model_version,
        )
        refl

  stored_plan-plan_column :
      (o : Option NotificationPlan)
      → ((p : NotificationPlan) → o ≡ some p → plan_post_init p ≡ ok p)
      → stored_plan c (plan_column c o) ≡ ok o
  stored_plan-plan_column none k = refl
  stored_plan-plan_column (some p) k = optionally (plan_from_json-plan_to_json p ∙ k p refl)

  ordered_intake-valid :
      (i : NotificationIntake)
      → intake_post_init i ≡ ok i
      → intake_post_init (ordered_intake i) ≡ ok (ordered_intake i)
  unfolding intake_post_init
  ordered_intake-valid i k = ground arith

  -- The row of an intake is read back as the intake, with its sets in sorted order. The codec gives
  -- back what it wrote, and the intake is one that the constructors accept, its sets without
  -- repetitions.
  pub to_entity-values :
      (i : NotificationIntake) → IsStorable c i → to_entity c (values c i) ≡ ok (ordered_intake i)
  unfolding to_entity values
  to_entity-values i k =
      rw
        (
          payload_from_json-payload_to_json i.payload k.payload k.content k.adhoc,
          constraints_from_json-constraints_to_json i.constraints k.constraints k.categories
              k.channels,
          intake_status_of-intake_status_value i.status,
          stored_plan-plan_column i.plan k.plan,
        )
        (ordered_intake-valid i k.intake)
