-- ===== src/Examples/Requests.antt =====
-- A request by an e-mail address that no recipient has yet, sent twice.
use mathlib.Core.Path.{subst}
use tiber.Prelude.{
  ◌≡◌, refl, sym, ◌∙◌, ℕ, String, Option, none, some, List, [], ◌∷◌, Bool, true, false, arith,
}
use tiber.Prelude.Eq.{nat_eq}
use tiber.Enums.{email, sms, channel_eq}
use tiber.Result.{Result, ok, err, ok-injective}
use tiber.Intake.Record.{NotificationIntake}
use tiber.IntakeStore.Roundtrip.{IsStorable}
use tiber.Recipient.{Recipient, Addresses}
use tiber.Recipient.Book.{Book, to_model}
use tiber.Recipient.Resolution.{resolve_passes}
use tiber.Recipient.Owners.{Covers, resolve_passes-Covers}
use tiber.Accept.{AcceptPorts, AcceptedIntake, Desk, make_intake, accept}
use tiber.Command.{AcceptCommand, request_fingerprint, exchange, fingerprint-≈}
use tiber.Accept.Replay.{Outcome, accept-Outcome}
use tiber.Accept.Later.{unchanged, stored}
use tiber.Accept.Again.{again, accept-again}
use tiber.IntakeStore.Rows.{values}
use tiber.Examples.{welcome, ann}
use tiber.Examples.Fixtures.{codec, codec-IsFaithful, locale, resolver, shown, stamp, intake}

abbrev command : AcceptCommand
command = record {
  project_id = 1;
  recipient_id = none;
  addresses = (email, " cy@example.org") ∷ [];
  channels = none;
  category = none;
  topic_slug = none;
  template_slug = none;
  template_variables = none;
  content = some welcome;
  group_key = none;
  send_at = none;
  idempotency_key = some "key";
}

abbrev accept_ports : AcceptPorts
accept_ports = record {
  codec = codec;
  utc_text = stamp;
  digest = shown;
  get_topic = λ slug project. none;
  get_template = λ slug project. none;
  resolver = resolver;
  findall = λ s. [];
  clock = 10;
  intake_id = 9;
  transaction_id = 3;
  between = λ rows. rows;
}

abbrev later_ports : AcceptPorts
later_ports = record accept_ports { clock = 99; intake_id = 10; transaction_id = 4 }

abbrev empty_desk : Desk
empty_desk = record { intakes = []; messages = []; recipients = [] }

abbrev answer_of : Result (AcceptedIntake × Desk) → AcceptedIntake × Desk
answer_of (ok x) = x
answer_of (err _) = (record { transaction_id = 0; project_id = 0; replayed = true }, empty_desk)

abbrev answer : AcceptedIntake × Desk
answer = answer_of (accept accept_ports command empty_desk)

abbrev made_of : Result (NotificationIntake × Book) → NotificationIntake × Book
made_of (ok x) = x
made_of (err _) = (intake, [])

abbrev made : NotificationIntake × Book
made = made_of (make_intake accept_ports command [])

made-ok : make_intake accept_ports command [] ≡ ok made
unfolding make_intake tiber.Recipient.Resolution.resolve_recipient
    tiber.Intake.Constraints.compute_constraints tiber.Intake.Constraints.candidates
    tiber.Intake.Constraints.feasible_among tiber.Intake.Constraints.has_render_problem
    tiber.Content.validate_content tiber.Intake.constraints_post_init tiber.Intake.payload_post_init
    tiber.Intake.Record.create_intake tiber.Intake.Record.intake_post_init
made-ok = refl

made-IsStorable : IsStorable codec made.0
unfolding make_intake tiber.Recipient.Resolution.resolve_recipient
    tiber.Intake.Constraints.compute_constraints tiber.Intake.Constraints.candidates
    tiber.Intake.Constraints.feasible_among tiber.Intake.Constraints.has_render_problem
    tiber.Content.validate_content tiber.Intake.constraints_post_init tiber.Intake.payload_post_init
    tiber.Intake.Record.create_intake tiber.Intake.Record.intake_post_init
    tiber.Prelude.is_missing_or_blank tiber.Prelude.is_blank
made-IsStorable = record {
  payload = refl;
  content = refl;
  adhoc = refl;
  constraints = refl;
  categories = refl;
  channels = refl;
  plan = λ p e. absurd (cc);
  intake = refl;
}

accept-Outcome_example : Outcome accept_ports command empty_desk answer.0 answer.1
unfolding accept tiber.IntakeStore.Rows.get_by_idempotency_key
    tiber.Recipient.Resolution.resolve_recipient tiber.Intake.Constraints.compute_constraints
    tiber.Intake.Constraints.candidates tiber.Intake.Constraints.feasible_among
    tiber.Intake.Constraints.has_render_problem tiber.Content.validate_content
    tiber.Intake.constraints_post_init tiber.Intake.payload_post_init
    tiber.Intake.Record.create_intake tiber.Intake.Record.intake_post_init
    tiber.IntakeStore.Rows.add
accept-Outcome_example = accept-Outcome accept_ports command empty_desk answer.0 answer.1 refl

make_intake-IsStorable :
    (i : NotificationIntake) (book : Book)
    → make_intake accept_ports command [] ≡ ok (i, book)
    → IsStorable codec i
make_intake-IsStorable i book e =
    subst (λ x. IsStorable codec x.0) (ok-injective (sym made-ok ∙ e)) made-IsStorable

-- an intake of another request, and the tables once it was added
abbrev other_intake : NotificationIntake
other_intake = record made.0 { id = 20; transaction_id = 21; idempotency_key = some "other" }

abbrev busy_desk : Desk
unfolding values
busy_desk = record answer.1 { intakes = values codec other_intake ∷ answer.1.intakes }

accept-again_example : accept later_ports command busy_desk ≡ ok (again answer.0, busy_desk)
unfolding accept tiber.IntakeStore.Rows.get_by_idempotency_key
    tiber.Recipient.Resolution.resolve_recipient tiber.Intake.Constraints.compute_constraints
    tiber.Intake.Constraints.candidates tiber.Intake.Constraints.feasible_among
    tiber.Intake.Constraints.has_render_problem tiber.Content.validate_content
    tiber.Intake.constraints_post_init tiber.Intake.payload_post_init
    tiber.Intake.Record.create_intake tiber.Intake.Record.intake_post_init
    tiber.IntakeStore.Rows.add tiber.Accept.fingerprint values
accept-again_example =
    accept-again accept_ports command later_ports empty_desk answer.0 answer.1 busy_desk "key"
      codec-IsFaithful refl refl refl make_intake-IsStorable refl (ground arith)
      (stored unchanged other_intake refl)

fingerprint-≈_example :
    request_fingerprint locale stamp shown (record command { channels = some (email ∷ sms ∷ []) })
    ≡ request_fingerprint locale stamp shown (record command { channels = some (sms ∷ email ∷ []) })
fingerprint-≈_example =
    fingerprint-≈ locale stamp shown command (email ∷ sms ∷ []) (sms ∷ email ∷ [])
      (exchange email sms [])

abbrev supplied : Addresses
supplied = (email, "ann@example.org") ∷ (sms, "+4420") ∷ []

abbrev book_of_ann : Book
book_of_ann = to_model locale true ann ∷ []

abbrev resolved_of : Result (Recipient × Book) → Recipient × Book
resolved_of (ok x) = x
resolved_of (err _) = (ann, [])

abbrev resolved : Recipient × Book
resolved = resolved_of (resolve_passes resolver 2 1 supplied book_of_ann)

resolve_passes-Covers_example : Covers supplied resolved.0
unfolding resolve_passes tiber.Recipient.get_address
resolve_passes-Covers_example =
    resolve_passes-Covers resolver 2 1 supplied book_of_ann resolved.0 resolved.1 refl refl
