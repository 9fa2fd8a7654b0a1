-- ===== src/Examples/Stored.antt =====
-- The storage of an intake for two ad-hoc addresses.
use tiber.Prelude.{◌≡◌, ◌≢◌, refl, ℕ, none, some, [], ◌∷◌, arith}
use tiber.Result.{ok, err, intake_already_exists}
use tiber.Intake.{NotificationPlan}
use tiber.Intake.Record.{NotificationIntake}
use tiber.IntakeStore.Parts.{ordered_intake}
use tiber.IntakeStore.Rows.{values, to_entity, add, get_by_idempotency_key}
use tiber.IntakeStore.Roundtrip.{IsStorable, to_entity-values}
use tiber.IntakeStore.Lookup.{get_by_idempotency_key-add}
use tiber.Examples.Fixtures.{codec, codec-IsFaithful, intake}

intake-IsStorable : IsStorable codec intake
unfolding tiber.Intake.payload_post_init tiber.Intake.constraints_post_init
    tiber.Intake.Record.intake_post_init tiber.Prelude.is_missing_or_blank
intake-IsStorable = record {
  payload = refl;
  content = refl;
  adhoc = refl;
  constraints = refl;
  categories = refl;
  channels = refl;
  plan = λ p e. absurd (cc);
  intake = refl;
}

to_entity-values_example : to_entity codec (values codec intake) ≡ ok (ordered_intake intake)
to_entity-values_example = to_entity-values codec codec-IsFaithful intake intake-IsStorable

get_by_idempotency_key-add_example :
    (get_by_idempotency_key codec 1 "key" (values codec intake ∷ [])
      ≡ ok (some (ordered_intake intake)))
    × ((j : NotificationIntake)
        → j.project_id ≡ 1
        → j.idempotency_key ≡ some "key"
        → add codec j (values codec intake ∷ []) ≡ err intake_already_exists)
unfolding add
get_by_idempotency_key-add_example =
    get_by_idempotency_key-add codec intake "key" [] (values codec intake ∷ []) codec-IsFaithful
      intake-IsStorable refl refl
