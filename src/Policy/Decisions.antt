-- ===== src/Policy/Decisions.antt =====
-- What the rules decide (backend/src/tiber/domain/policies/rules.py).
use tiber.Prelude.{
  ℕ, String, ◌≡◌, Bool, true, false, arith, some, none, Option, List, [], ◌∷◌, is_empty, is_missing,
  if◌then◌else◌, is_some, or_else,
}
use tiber.Time.{DateTime}
use tiber.Enums.{DeliveryChannel, suppress, postpone, channel_eq, category_eq}
use tiber.Platform.{Zone, Platform, astimezone}
use tiber.Recipient.{QuietHours, Recipient, DeliveryConstraint, BlackoutPeriod}
use tiber.Notification.{Notification}
use tiber.Policy.{
  PolicyDecision, PolicyRule, PolicyContext, allow, reject, recipient_address_rule,
  recipient_preference_rule, project_blackout_rule, project_quiet_hours_rule, check_blackouts,
  check_quiet_hours, evaluate, run_rules, intake_rules, dispatch_guard_rules, in_blackout,
  resume_time, recipient_window, recipient_silence,
}
use tiber.Policy.Reasons.{
  project_blackout, no_address-nonempty, unsubscribed_category-nonempty, opted_out-nonempty,
  unsubscribed_topic-nonempty, recipient_blackout-nonempty, recipient_quiet_hours-nonempty,
  project_blackout-nonempty, project_quiet_hours-nonempty,
}

-- A decision that the application can carry out: a rejection names a reason that is not empty, and
-- a postponement a time that is aware.
pub record IsActionable (d : PolicyDecision) : Type 0 where
  pub reasoned : d.allowed ≡ false → is_missing d.reason ≡ false
  pub decided : d.allowed ≡ false → is_some d.consequence ≡ true
  pub timed : d.consequence ≡ some postpone → is_some d.resume_at ≡ true
  pub aware : (t : DateTime) → d.resume_at ≡ some t → t.aware ≡ true

IsActionable-allow : IsActionable allow
IsActionable-allow = ground arith

IsActionable-suppress :
    (reason rule : String)
    → is_empty reason ≡ false
    → IsActionable (reject reason rule suppress none)
IsActionable-suppress reason rule h = ground arith

IsActionable-postpone :
    (reason rule : String) (zone : Zone) (w : QuietHours) (wall : ℕ)
    → is_empty reason ≡ false
    → IsActionable (reject reason rule postpone (some (resume_time zone w wall)))
unfolding resume_time
IsActionable-postpone reason rule zone w wall h = ground arith

IsActionable-if :
    (b : Bool) (d e : PolicyDecision)
    → IsActionable d
    → IsActionable e
    → IsActionable (if b then d else e)
IsActionable-if true d e hd he = hd
IsActionable-if false d e hd he = he

module _ (p : Platform) where
  check_blackouts-IsActionable :
      (zone : Zone) (t : DateTime) (bs : List BlackoutPeriod)
      → IsActionable (check_blackouts p zone t bs)
  unfolding check_blackouts
  check_blackouts-IsActionable zone t [] = IsActionable-allow
  check_blackouts-IsActionable zone t (b ∷ bs) =
      IsActionable-if (in_blackout p zone b t) _ _
        (IsActionable-suppress (project_blackout b) _ (project_blackout-nonempty b))
        (check_blackouts-IsActionable zone t bs)

  check_quiet_hours-IsActionable :
      (zone : Zone) (c : DeliveryChannel) (wall : ℕ) (ws : List QuietHours)
      → IsActionable (check_quiet_hours p zone c wall ws)
  unfolding check_quiet_hours
  check_quiet_hours-IsActionable zone c wall [] = IsActionable-allow
  check_quiet_hours-IsActionable zone c wall (w ∷ ws) =
      IsActionable-if _ _ _
        (IsActionable-postpone _ _ zone w wall (project_quiet_hours-nonempty p.time_text w))
        (check_quiet_hours-IsActionable zone c wall ws)

  recipient_window-IsActionable :
      (zone : Zone) (w : Option QuietHours) (c : DeliveryChannel) (t : DateTime)
      → IsActionable (recipient_window p zone w c t)
  unfolding recipient_window
  recipient_window-IsActionable zone none c t = IsActionable-allow
  recipient_window-IsActionable zone (some w) c t =
      IsActionable-if _ _ _
        (IsActionable-postpone _ _ zone w _ (recipient_quiet_hours-nonempty p.time_text w))
        IsActionable-allow

  recipient_silence-IsActionable :
      (zone : Zone) (b : Option BlackoutPeriod) (t : DateTime) (later : PolicyDecision)
      → IsActionable later
      → IsActionable (recipient_silence p zone b t later)
  unfolding recipient_silence
  recipient_silence-IsActionable zone none t later h = h
  recipient_silence-IsActionable zone (some b) t later h =
      IsActionable-if _ _ _ (IsActionable-suppress _ _ (recipient_blackout-nonempty b)) h

ruleset actionable_rules = (
  IsActionable-if, IsActionable-allow, IsActionable-suppress, recipient_silence-IsActionable,
  recipient_window-IsActionable, unsubscribed_category-nonempty, opted_out-nonempty,
  unsubscribed_topic-nonempty, no_address-nonempty,
)

module _ (p : Platform) where
  recipient_preference_rule-IsActionable :
      (ctx : PolicyContext) → IsActionable (recipient_preference_rule p ctx)
  unfolding recipient_preference_rule
  recipient_preference_rule-IsActionable ctx = search actionable_rules depth 8

  recipient_address_rule-IsActionable :
      (ctx : PolicyContext) → IsActionable (recipient_address_rule ctx)
  unfolding recipient_address_rule
  recipient_address_rule-IsActionable ctx = search actionable_rules

  project_blackout_rule-IsActionable :
      (ctx : PolicyContext) → IsActionable (project_blackout_rule p ctx)
  unfolding project_blackout_rule
  project_blackout_rule-IsActionable ctx = go ctx.delivery_constraint
    where
      go :
          (c : Option DeliveryConstraint)
          → IsActionable (project_blackout_rule p (record ctx { delivery_constraint = c }))
      go none = IsActionable-allow
      go (some c) =
          check_blackouts-IsActionable p (p.zone_info c.timezone)
            (or_else ctx.notification.send_at ctx.now) c.blackout_periods

  project_quiet_hours_rule-IsActionable :
      (ctx : PolicyContext) → IsActionable (project_quiet_hours_rule p ctx)
  unfolding project_quiet_hours_rule
  project_quiet_hours_rule-IsActionable ctx = go ctx.delivery_constraint
    where
      go :
          (c : Option DeliveryConstraint)
          → IsActionable (project_quiet_hours_rule p (record ctx { delivery_constraint = c }))
      go none = IsActionable-allow
      go (some c) =
          check_quiet_hours-IsActionable p (p.zone_info c.timezone) ctx.notification.channel
            (astimezone p (p.zone_info c.timezone) (or_else ctx.notification.send_at ctx.now))
            c.quiet_hours

-- every rule of a chain
abbrev pub Rules {ℓ} : (PolicyRule → Type ℓ) → List PolicyRule → Type ℓ
Rules P [] = Unit
Rules P (rule ∷ rules) = P rule × Rules P rules

abbrev pub Actionable : PolicyRule → Type 0
Actionable rule = (ctx : PolicyContext) → IsActionable (rule ctx)

run_rules-IsActionable :
    (rules : List PolicyRule) (ctx : PolicyContext)
    → Rules Actionable rules
    → IsActionable (run_rules rules ctx)
unfolding run_rules
run_rules-IsActionable [] ctx h = IsActionable-allow
run_rules-IsActionable (rule ∷ rules) ctx h =
    IsActionable-if _ _ _ (run_rules-IsActionable rules ctx h.1) (h.0 ctx)

evaluate-IsActionable :
    (rules : List PolicyRule) (now : ℕ) (n : Notification) (r : Recipient)
    (c : Option DeliveryConstraint)
    → Rules Actionable rules
    → IsActionable (evaluate rules now n r c)
unfolding evaluate
evaluate-IsActionable rules now n r c h =
    IsActionable-if _ _ _ IsActionable-allow (run_rules-IsActionable rules _ h)

-- Both chains of the program reject only with a reason that is not empty and a consequence, and
-- postpone only to an aware time.
pub chains-IsActionable :
    (p : Platform) (now : ℕ) (n : Notification) (r : Recipient) (c : Option DeliveryConstraint)
    → IsActionable (evaluate (intake_rules p) now n r c)
      × IsActionable (evaluate (dispatch_guard_rules p) now n r c)
chains-IsActionable p now n r c =
    let guard : Rules Actionable (dispatch_guard_rules p) = (
      recipient_preference_rule-IsActionable p,
      (project_blackout_rule-IsActionable p, (project_quiet_hours_rule-IsActionable p, tt)),
    ) in
    (
      evaluate-IsActionable (intake_rules p) now n r c
          (recipient_address_rule-IsActionable p, guard),
      evaluate-IsActionable (dispatch_guard_rules p) now n r c guard,
    )
