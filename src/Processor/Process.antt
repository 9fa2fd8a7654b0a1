-- ===== src/Processor/Process.antt =====
-- `IntakeProcessor.process` (backend/src/tiber/application/services/intake_processor.py). What it
-- gives is the return or the exception, and the tables: the transactions that were committed
-- before an exception stay.
use tiber.Prelude.{ℕ, Option, none, some, ltb, if◌then◌else◌, is_none}
use tiber.Result.{Result, ok, err}
use tiber.Recipient.{Recipient}
use tiber.Intake.Record.{NotificationIntake}
use tiber.Processor.{
  IntakePorts, Tables, claim_intake, load_recipient, decide_plan, fail_intake, is_caught,
}
use tiber.Processor.FanOut.{fan_out}

abbrev pub finish_fan_out : Tables → Result Tables → Result (Unit {0}) × Tables
finish_fan_out w (err e) = (err e, w)
finish_fan_out w (ok w') = (ok tt, w')

-- the plan is made unless an earlier attempt stored one
abbrev pub planned_intake :
    IntakePorts → NotificationIntake → Recipient → Tables → Result (NotificationIntake × Tables)
planned_intake p i r w = if is_none i.plan then decide_plan p i r w else ok (i, w)

abbrev pub on_planned :
    IntakePorts
    → Recipient
    → Tables
    → Result (NotificationIntake × Tables)
    → Result (Unit {0}) × Tables
on_planned p r w (err e) = (err e, w)
on_planned p r w (ok (i, w')) = finish_fan_out w' (fan_out p i r w')

abbrev pub on_recipient :
    IntakePorts → NotificationIntake → Tables → Result Recipient → Result (Unit {0}) × Tables
on_recipient p i w (err e) = (err e, w)
on_recipient p i w (ok r) = on_planned p r w (planned_intake p i r w)

-- the body of the `try`
unfoldable pub expand : IntakePorts → NotificationIntake → Tables → Result (Unit {0}) × Tables
expand p i w = on_recipient p i w (load_recipient p i)

-- the `except` clauses
abbrev pub handle : IntakePorts → ℕ → Result (Unit {0}) × Tables → Result (Unit {0}) × Tables
handle p id (ok _, w) = (ok tt, w)
handle p id (err e, w) = if is_caught e then fail_intake p id (p.error_text e) w else (err e, w)

abbrev pub on_claimed : IntakePorts → NotificationIntake → Tables → Result (Unit {0}) × Tables
on_claimed p i w =
    if ltb p.max_attempts i.attempts
    then fail_intake p i.id (p.exceeded_text p.max_attempts) w
    else handle p i.id (expand p i w)

abbrev pub on_claim :
    IntakePorts → Tables → Result (Option NotificationIntake × Tables) → Result (Unit {0}) × Tables
on_claim p w (err e) = (err e, w)
on_claim p w (ok (none, w')) = (ok tt, w')
on_claim p w (ok (some i, w')) = on_claimed p i w'

unfoldable pub process : IntakePorts → ℕ → Tables → Result (Unit {0}) × Tables
unfolding claim_intake expand fail_intake
process p id w = on_claim p w (claim_intake p id w)
