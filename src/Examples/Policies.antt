-- ===== src/Examples/Policies.antt =====
-- Decisions on the sample notification, and a night without e-mail.
use tiber.Prelude.{
  ◌≡◌, ◌≤◌, ◌%◌, ◌⊎◌, ◌&&◌, ℕ, refl, none, some, [], ◌∷◌, true, false, not, is_missing, arith,
}
use tiber.Enums.{email}
use tiber.Time.{utc, day}
use tiber.Platform.{astimezone}
use tiber.Recipient.{QuietHours, BlackoutPeriod, DeliveryConstraint, get_address}
use tiber.Policy.{
  allow, evaluate, intake_rules, dispatch_guard_rules, is_critical, check_quiet_hours, resume_time,
}
use tiber.Policy.Window.{next_window_end}
use tiber.Policy.Resume.{next_window_end_lem, check_quiet_hours-resume, IsTimes, HasGap}
use tiber.Policy.Decisions.{IsActionable, chains-IsActionable}
use tiber.Policy.Chain.{Decides, context, IsMonotone, evaluate-Decides, allowed-intake_rules}
use tiber.Policy.Permits.{permits, evaluate-permits}
use tiber.Examples.{row, ann, platform, greenwich}

chains-IsActionable_example :
    IsActionable (evaluate (intake_rules platform) 5 row ann none)
    × IsActionable (evaluate (dispatch_guard_rules platform) 5 row ann none)
chains-IsActionable_example = chains-IsActionable platform 5 row ann none

evaluate-Decides_example :
    ((is_critical row.category ≡ true) × (evaluate (intake_rules platform) 5 row ann none ≡ allow))
    ⊎ ((is_critical row.category ≡ false)
        × Decides
            (context 5 row ann none)
            (evaluate (intake_rules platform) 5 row ann none)
            (intake_rules platform))
evaluate-Decides_example = evaluate-Decides (intake_rules platform) 5 row ann none

allowed-intake_rules_example : (evaluate (intake_rules platform) 5 row ann none).allowed ≡ (
    not (is_missing (get_address email ann.addresses))
    && (evaluate (dispatch_guard_rules platform) 5 row ann none).allowed)
allowed-intake_rules_example = allowed-intake_rules platform 5 row ann none refl

-- from 22:00 to 08:00
abbrev night : QuietHours
night = record {
  name = "night";
  window_start = 79_200_000_000;
  window_end = 28_800_000_000;
  channel = email;
}

night-IsTimes : IsTimes night
night-IsTimes = ground arith

night-HasGap : HasGap night
night-HasGap = ground arith

-- 23:00 of the first day
abbrev late : ℕ
late = 82_800_000_000

next_window_end_lem_example :
    (late ≤ next_window_end night late)
    × (next_window_end night late % day ≡ night.window_end)
    × ((t : ℕ) → late ≤ t → t % day ≡ night.window_end → next_window_end night late ≤ t)
next_window_end_lem_example =
    next_window_end_lem night late night-IsTimes refl (λ e. absurd (ground arith))

check_quiet_hours-resume_example :
    check_quiet_hours platform greenwich email
      (astimezone platform greenwich (resume_time greenwich night late))
      (night ∷ [])
    ≡ allow
check_quiet_hours-resume_example =
    check_quiet_hours-resume platform greenwich night late night-IsTimes night-HasGap refl

abbrev freeze : BlackoutPeriod
freeze = record { name = "freeze"; start = utc 100; end = utc 900 }

abbrev constraint : DeliveryConstraint
constraint = record {
  project_id = 1;
  blackout_periods = freeze ∷ [];
  quiet_hours = night ∷ [];
  timezone = "UTC";
}

greenwich-IsMonotone : IsMonotone greenwich
greenwich-IsMonotone = record { same_order = λ a b. refl }

evaluate-permits_example :
    (evaluate (intake_rules platform) 5 row ann (some constraint)).allowed
    ≡ permits platform 5 row ann (some constraint)
evaluate-permits_example =
    evaluate-permits platform 5 row ann (some constraint) refl greenwich-IsMonotone
      (λ k e. greenwich-IsMonotone)
