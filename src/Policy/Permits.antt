-- ===== src/Policy/Permits.antt =====
-- What an allowed notification satisfies (the chain INTAKE_RULES of
-- backend/src/tiber/domain/policies/rules.py), described without the order of the rules.
use tiber.Prelude.{
  ℕ, ◌≡◌, ◌&&◌, not, Bool, true, false, arith, refl, Option, none, some, List, [], ◌∷◌, every,
  is_missing, contains, or_else, if◌then◌else◌, inl, inr, Option-cases,
}
use mathlib.Core.Path.{ap₂}
use tiber.Prelude.Eq.{◌==◌}
use tiber.Time.{DateTime, utc}
use tiber.Enums.{DeliveryChannel, channel_eq, category_eq}
use tiber.Platform.{Zone, Platform, astimezone}
use tiber.Recipient.{
  Recipient, RecipientPreferences, DeliveryConstraint, BlackoutPeriod, QuietHours, get_address,
}
use tiber.Notification.{Notification}
use tiber.Policy.{
  PolicyContext, PolicyDecision, PolicyRule, recipient_address_rule, recipient_preference_rule,
  project_blackout_rule, project_quiet_hours_rule, check_quiet_hours, recipient_silence,
  recipient_window, evaluate_blackout_and_quiet_hours, evaluate, run_rules, intake_rules,
  is_critical, mem_topic, or_utc,
}
use tiber.Policy.Window.{covers}
use tiber.Policy.Chain.{
  context, between, IsMonotone, in_blackout-eq-between, check_blackouts-between,
}

-- The recipient has not refused the category, the channel or the topic.
abbrev pub consents : RecipientPreferences → Notification → Bool
consents prefs n =
    not (contains n.category prefs.unsubscribed_categories)
    && not (contains n.channel prefs.opted_out_channels)
    && not (mem_topic n.topic_id prefs.unsubscribed_topics)

abbrev pub listed {ℓ} : {A : Type ℓ} → Option A → List A
listed none = []
listed (some x) = x ∷ []

-- The send is outside every period, as instants.
abbrev pub outside : Platform → DateTime → List BlackoutPeriod → Bool
outside p t = every (λ b. not (between p b t))

-- No window for the channel covers the send on the wall clock of the zone.
abbrev pub awake : Platform → Zone → DeliveryChannel → DateTime → List QuietHours → Bool
awake p zone channel t = every (λ w. not (w.channel == channel && covers w (astimezone p zone t)))

abbrev pub constrained : Platform → Notification → DateTime → Option DeliveryConstraint → Bool
constrained p n t none = true
constrained p n t (some c) =
    outside p t c.blackout_periods && awake p (p.zone_info c.timezone) n.channel t c.quiet_hours

-- The recipient can be reached and consents, and neither the recipient nor the project is silent at
-- the time of the send.
abbrev pub permits : Platform → ℕ → Notification → Recipient → Option DeliveryConstraint → Bool
permits p now n r c =
    let t = or_else n.send_at (utc now) in
    not (is_missing (get_address n.channel r.addresses))
    && consents r.preferences n
    && outside p t (listed r.preferences.blackout_period)
    && awake p (p.zone_info (or_utc r.timezone)) n.channel t (listed r.preferences.quiet_hours)
    && constrained p n t c

run_rules-every :
    (rules : List PolicyRule) (ctx : PolicyContext)
    → (run_rules rules ctx).allowed ≡ every (λ rule. (rule ctx).allowed) rules
unfolding run_rules
run_rules-every [] ctx = refl
run_rules-every (rule ∷ rules) ctx = ground (arith, run_rules-every rules ctx)

-- three rejections before a last decision
allowed-if3 :
    (a b c : Bool) (x y z d : PolicyDecision) (rest : Bool)
    → x.allowed ≡ false
    → y.allowed ≡ false
    → z.allowed ≡ false
    → d.allowed ≡ rest
    → (if a then x else if b then y else if c then z else d).allowed
      ≡ ((not a && not b && not c) && rest)
allowed-if3 true b c x y z d rest hx hy hz h = hx
allowed-if3 false true c x y z d rest hx hy hz h = hy
allowed-if3 false false true x y z d rest hx hy hz h = hz
allowed-if3 false false false x y z d rest hx hy hz h = h

module _ (p : Platform) where
  check_quiet_hours-awake :
      (zone : Zone) (channel : DeliveryChannel) (t : DateTime) (ws : List QuietHours)
      → (check_quiet_hours p zone channel (astimezone p zone t) ws).allowed
        ≡ awake p zone channel t ws
  unfolding check_quiet_hours
  check_quiet_hours-awake zone channel t [] = refl
  check_quiet_hours-awake zone channel t (w ∷ ws) =
      ground (arith, check_quiet_hours-awake zone channel t ws)

  recipient_window-awake :
      (zone : Zone) (w : Option QuietHours) (channel : DeliveryChannel) (t : DateTime)
      → (recipient_window p zone w channel t).allowed ≡ awake p zone channel t (listed w)
  unfolding recipient_window
  recipient_window-awake zone none channel t = refl
  recipient_window-awake zone (some w) channel t = ground arith

  silence-outside :
      (zone : Zone) (b : Option BlackoutPeriod) (w : Option QuietHours) (channel : DeliveryChannel)
      (t : DateTime)
      → IsMonotone zone
      → (recipient_silence p zone b t (recipient_window p zone w channel t)).allowed
        ≡ (outside p t (listed b) && awake p zone channel t (listed w))
  unfolding recipient_silence
  silence-outside zone none w channel t h = recipient_window-awake zone w channel t
  silence-outside zone (some b) w channel t h =
      ground (arith, in_blackout-eq-between p zone b t h, recipient_window-awake zone w channel t)

  recipient_preference_rule-consents :
      (ctx : PolicyContext)
      → IsMonotone (p.zone_info (or_utc ctx.recipient.timezone))
      → let n = ctx.notification in
        let prefs = ctx.recipient.preferences in
        let t = or_else n.send_at ctx.now in
        let zone = p.zone_info (or_utc ctx.recipient.timezone) in
        (recipient_preference_rule p ctx).allowed ≡ (
          consents prefs n
          && (outside p t (listed prefs.blackout_period)
              && awake p zone n.channel t (listed prefs.quiet_hours)))
  unfolding recipient_preference_rule evaluate_blackout_and_quiet_hours
  recipient_preference_rule-consents ctx h =
      let n = ctx.notification in
      let prefs = ctx.recipient.preferences in
      allowed-if3 (contains n.category prefs.unsubscribed_categories)
        (contains n.channel prefs.opted_out_channels)
        (mem_topic n.topic_id prefs.unsubscribed_topics) _ _ _ _ _ refl refl refl
        (silence-outside (p.zone_info (or_utc ctx.recipient.timezone)) prefs.blackout_period
          prefs.quiet_hours n.channel (or_else n.send_at ctx.now) h)

  project_rules-constrained :
      (ctx : PolicyContext)
      → ((c : DeliveryConstraint)
          → ctx.delivery_constraint ≡ some c
          → IsMonotone (p.zone_info c.timezone))
      → let n = ctx.notification in
        ((project_blackout_rule p ctx).allowed && (project_quiet_hours_rule p ctx).allowed)
        ≡ constrained p n (or_else n.send_at ctx.now) ctx.delivery_constraint
  unfolding project_blackout_rule project_quiet_hours_rule
  project_rules-constrained ctx h =
      let n = ctx.notification in
      let t = or_else n.send_at ctx.now in
      elim (Option-cases ctx.delivery_constraint) [
        | inl e ↦ rw e refl
        | inr (c, e) ↦ rw e (
            ap₂ ◌&&◌
              (check_blackouts-between p (p.zone_info c.timezone) t c.blackout_periods (h c e))
              (check_quiet_hours-awake (p.zone_info c.timezone) n.channel t c.quiet_hours))
      ]

  -- A notification that is not critical is allowed by the intake chain exactly where the recipient
  -- has an address on its channel, has not refused its category, channel or topic, and neither a
  -- blackout period contains the send time, as instants, nor a quiet window for its channel covers
  -- it, of the recipient's own as of the project's. The zones of the recipient and of the project
  -- keep the order of instants.
  pub evaluate-permits :
      (now : ℕ) (n : Notification) (r : Recipient) (c : Option DeliveryConstraint)
      → is_critical n.category ≡ false
      → IsMonotone (p.zone_info (or_utc r.timezone))
      → ((k : DeliveryConstraint) → c ≡ some k → IsMonotone (p.zone_info k.timezone))
      → (evaluate (intake_rules p) now n r c).allowed ≡ permits p now n r c
  unfolding evaluate recipient_address_rule
  evaluate-permits now n r c plain own project =
      let ctx = context now n r c in
      ground (
        arith,
        run_rules-every (intake_rules p) ctx,
        recipient_preference_rule-consents ctx own,
        project_rules-constrained ctx project,
      )
