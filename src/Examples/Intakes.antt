-- ===== src/Examples/Intakes.antt =====
-- An accepted request for a registered recipient with an e-mail address and the app.
use tiber.Prelude.{◌+◌, ◌<◌, ◌≤◌, ◌≡◌, ◌⊎◌, String, List, refl, some, none, [], ◌∷◌, false, arith}
use tiber.Enums.{email, in_app, informational, social, promotional, IntakeStatus}
use tiber.Result.{ok, err, invalid_intake_transition}
use tiber.Time.{utc}
use tiber.Intake.{
  ChannelMode, IntakePayload, DecisionConstraints, MlSuggestion, NotificationPlan, DecisionSource,
  ChannelSource,
}
use tiber.Intake.Plan.{assemble_plan}
use tiber.Intake.Plan.Assembly.{IsValid, IsSound, assemble_plan_total}
use tiber.Intake.Constraints.{Request, compute_constraints}
use tiber.Intake.Constraints.Feasible.{IsFeasible, deliverable, compute_constraints-IsFeasible}
use tiber.Intake.Record
use tiber.Intake.Record.{NotificationIntake, NewIntake, new_received}
use tiber.Intake.Record.Lifecycle.{IsValidIntake, Advances, claim, call, call-Advances, claim-lease}
use tiber.Examples.{welcome}

abbrev payload : IntakePayload
payload = record {
  category = none;
  topic = none;
  channels = none;
  adhoc_channels = none;
  template_id = none;
  template_slug = none;
  template_variables = none;
  content = some welcome;
  group_key = none;
  send_at = none;
}

abbrev constraints : DecisionConstraints
constraints = record {
  allowed_categories = informational ∷ social ∷ promotional ∷ [];
  default_category = informational;
  channel_mode = ChannelMode.ml;
  feasible_channels = email ∷ in_app ∷ [];
  max_channels = 1;
}

abbrev suggestion : MlSuggestion
suggestion = record {
  category = some social;
  topic_slug = none;
  channels = email ∷ email ∷ in_app ∷ [];
  send_at = (email, utc 9_000) ∷ (in_app, utc 8_000) ∷ [];
  model_version = none;
}

constraints-IsValid : IsValid constraints
constraints-IsValid = record { feasible = refl; limit = omega arith; default = refl }

assemble_plan_total_example :
    (plan : NotificationPlan) × (assemble_plan payload constraints (some suggestion) none 5_000
      ≡ ok plan)
    × IsSound 5_000 payload constraints plan
assemble_plan_total_example =
    assemble_plan_total payload constraints (some suggestion) none 5_000 constraints-IsValid tt

abbrev request : Request
request = record {
  available_channels = email ∷ in_app ∷ [];
  adhoc = false;
  requested_channels = none;
  opted_out = [];
  client_category = none;
  template = none;
  template_variables = none;
  content = some welcome;
}

abbrev no_names : String → List String
no_names text = []

compute_constraints-IsFeasible_example :
    IsFeasible (deliverable no_names request) request constraints
unfolding compute_constraints tiber.Intake.Constraints.candidates
    tiber.Intake.Constraints.feasible_among tiber.Intake.Constraints.has_render_problem
    tiber.Content.validate_content tiber.Intake.constraints_post_init
compute_constraints-IsFeasible_example =
    compute_constraints-IsFeasible no_names request {k = constraints} refl

abbrev new_intake : NewIntake
new_intake = record {
  id = 1;
  project_id = 1;
  transaction_id = 3;
  recipient_id = 2;
  payload = payload;
  constraints = constraints;
  request_fingerprint = "print";
  idempotency_key = none;
}

abbrev intake : NotificationIntake
intake = new_received 5 new_intake

abbrev claimed_intake : NotificationIntake
claimed_intake = record intake {
  status = IntakeStatus.processing;
  updated_at = utc 6;
  claimed_at = some (utc 6);
  attempts = 1;
}

call-Advances_example : IsValidIntake claimed_intake × Advances intake claimed_intake
unfolding call Record.claim Record.intake_post_init
call-Advances_example = call-Advances (claim 6 (utc 6) 10) intake {j = claimed_intake} refl

claim-lease_example :
    ((7 < 6 + 10)
      × (Record.claim 7 (utc 7) 10 claimed_intake
          ≡ err (invalid_intake_transition IntakeStatus.processing IntakeStatus.processing)))
    ⊎ ((6 + 10 ≤ 7)
        × (Record.claim 7 (utc 7) 10 claimed_intake
            ≡ ok (record claimed_intake {
              updated_at = utc 7;
              claimed_at = some (utc 7);
              attempts = 2;
            })))
unfolding Record.claim Record.intake_post_init
claim-lease_example = claim-lease 6 7 10 10 (utc 6) (utc 7) intake claimed_intake refl refl

abbrev failed_intake : NotificationIntake
failed_intake = record intake { status = IntakeStatus.failed; failure_reason = some "no channel" }
