-- ===== src/Examples/Expansions.antt =====
-- The expansion of an intake whose channels the model chooses: an e-mail and a message in the app.
use tiber.Prelude.{
  ◌≡◌, refl, ℕ, String, Option, none, some, List, [], ◌∷◌, Bool, true, false, ◌||◌, contains,
  distinct,
}
use tiber.Enums.{DeliveryChannel, channel_eq}
use tiber.Result.{Result, ok, err}
use tiber.Intake.Record.{NotificationIntake}
use tiber.Processor.{IntakePorts, Tables, claim_intake}
use tiber.Processor.FanOut.{channels_of, fan_out}
use tiber.Processor.Channels.{fan_out-channels, fan_out-again}
use tiber.Processor.Queue.{AllAnnounced, process-AllAnnounced}
use tiber.Processor.Ends.{IsFiled, IsOver, process-IsOver}
use tiber.Processor.Process.{process}
use tiber.Examples.Fixtures.{
  bea, intake_ports, open_intake, planned, plan, tables_with, tables-IsFresh,
}

abbrev or_tables : Tables → Result Tables → Tables
or_tables w (err _) = w
or_tables w (ok w') = w'

abbrev before : Tables
before = tables_with planned

abbrev after : Tables
after = or_tables before (fan_out intake_ports planned bea before)

fan_out-channels_example :
    ((c : DeliveryChannel)
      → contains c (channels_of 3 1 after.notifications)
        ≡ (contains c (channels_of 3 1 before.notifications) || contains c plan.channels))
    × (distinct (channels_of 3 1 before.notifications) ≡ true
        → distinct (channels_of 3 1 after.notifications) ≡ true)
unfolding fan_out tiber.Processor.FanOut.build_child tiber.Content.validate_content
    tiber.Notification.create tiber.Notification.post_init tiber.Processor.FanOut.apply_policy
    tiber.Policy.evaluate tiber.Policy.recipient_address_rule tiber.Recipient.get_address
    tiber.Policy.recipient_preference_rule tiber.Policy.project_blackout_rule
    tiber.Policy.project_quiet_hours_rule tiber.Processor.FanOut.send_time_basis
    tiber.Notification.schedule tiber.Intake.Record.complete tiber.Intake.Record.intake_post_init
fan_out-channels_example =
    fan_out-channels intake_ports planned plan bea before after (tables-IsFresh planned) refl refl
      refl

abbrev twice : Tables
twice = or_tables before (fan_out intake_ports planned bea after)

fan_out-again_example :
    (twice.notifications ≡ after.notifications) × (twice.dispatches ≡ after.dispatches)
unfolding fan_out tiber.Processor.FanOut.build_child tiber.Content.validate_content
    tiber.Notification.create tiber.Notification.post_init tiber.Processor.FanOut.apply_policy
    tiber.Policy.evaluate tiber.Policy.recipient_address_rule tiber.Recipient.get_address
    tiber.Policy.recipient_preference_rule tiber.Policy.project_blackout_rule
    tiber.Policy.project_quiet_hours_rule tiber.Processor.FanOut.send_time_basis
    tiber.Notification.schedule tiber.Intake.Record.complete tiber.Intake.Record.intake_post_init
fan_out-again_example =
    fan_out-again intake_ports intake_ports planned plan bea bea before after twice
      (tables-IsFresh planned) refl refl refl refl

process-AllAnnounced_example : AllAnnounced (process intake_ports 9 (tables_with open_intake)).1
process-AllAnnounced_example = process-AllAnnounced intake_ports 9 (tables_with open_intake) refl

abbrev claimed_or :
    Tables → Result (Option NotificationIntake × Tables) → NotificationIntake × Tables
claimed_or w (ok (some i, w')) = (i, w')
claimed_or w _ = (open_intake, w)

abbrev claimed : NotificationIntake × Tables
claimed =
    claimed_or (tables_with open_intake) (claim_intake intake_ports 9 (tables_with open_intake))

open_intake-IsFiled : IsFiled 9 (tables_with open_intake)
open_intake-IsFiled = record { intake = open_intake; found = refl; own = refl }

process-IsOver_example : IsOver 9 (process intake_ports 9 (tables_with open_intake)).1
unfolding claim_intake tiber.Intake.Record.is_claimable tiber.Intake.Record.claim
    tiber.Intake.Record.intake_post_init tiber.Prelude.is_missing_or_blank process
    tiber.Processor.load_recipient tiber.Processor.decide_plan tiber.Intake.Plan.assemble_plan
    tiber.Intake.Plan.choose_channels tiber.Intake.Plan.wanted_decisions tiber.Intake.plan_post_init
    tiber.Intake.Plan.choose_send_at tiber.Intake.Plan.choose_category
    tiber.Intake.Plan.choose_topic tiber.Intake.Plan.conforming tiber.Intake.Record.with_plan
    fan_out tiber.Processor.FanOut.build_child tiber.Content.validate_content
    tiber.Notification.create tiber.Notification.post_init tiber.Processor.FanOut.apply_policy
    tiber.Policy.evaluate tiber.Policy.recipient_address_rule tiber.Recipient.get_address
    tiber.Policy.recipient_preference_rule tiber.Policy.project_blackout_rule
    tiber.Policy.project_quiet_hours_rule tiber.Processor.FanOut.send_time_basis
    tiber.Notification.schedule tiber.Intake.Record.complete
process-IsOver_example =
    process-IsOver intake_ports 9 (tables_with open_intake) claimed.0 claimed.1
      (process intake_ports 9 (tables_with open_intake)).1 open_intake-IsFiled refl refl
