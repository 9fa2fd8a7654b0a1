-- ===== src/Policy.antt =====
-- The delivery policy (backend/src/tiber/domain/policies/definitions.py and rules.py). Two datetimes
-- in one zone are ordered by their wall clocks, as Python orders them.
pub mod Reasons
pub mod Window
pub mod Resume
pub mod Decisions
pub mod Chain
pub mod Permits
use tiber.Prelude.{
  ℕ, ◌+◌, String, Option, none, some, List, [], ◌∷◌, if◌then◌else◌, ◌&&◌, ◌||◌, Bool, true, false,
  leb, is_missing, is_empty, contains, or_else,
}
use tiber.Prelude.Eq.{◌==◌, nat_eq}
use tiber.Enums.{
  DeliveryChannel, NotificationCategory, critical, channel_eq, category_eq, PolicyConsequence,
  suppress, postpone,
}
use tiber.Time.{DateTime, utc}
use tiber.Platform.{Zone, Platform, astimezone}
use tiber.Recipient.{
  QuietHours, BlackoutPeriod, RecipientPreferences, Recipient, DeliveryConstraint, get_address,
}
use tiber.Notification.{Notification}
use Reasons.{
  no_address, unsubscribed_category, opted_out, unsubscribed_topic, recipient_blackout,
  recipient_quiet_hours, project_blackout, project_quiet_hours,
}
use Window.{grace, next_window_end, covers}

pub record PolicyDecision : Type 0 where
  pub allowed : Bool
  pub consequence : Option PolicyConsequence
  pub reason : Option String
  pub rule : Option String
  pub resume_at : Option DateTime

abbrev pub allow : PolicyDecision
allow = record { allowed = true; consequence = none; reason = none; rule = none; resume_at = none }

abbrev pub reject : String → String → PolicyConsequence → Option DateTime → PolicyDecision
reject reason rule consequence resume_at = record {
  allowed = false;
  consequence = some consequence;
  reason = some reason;
  rule = some rule;
  resume_at = resume_at;
}

pub record PolicyContext : Type 0 where
  pub notification : Notification
  pub recipient : Recipient
  pub delivery_constraint : Option DeliveryConstraint
  pub now : DateTime

-- The one method of the protocol `PolicyRule`.
abbrev pub PolicyRule : Type 0
PolicyRule = PolicyContext → PolicyDecision

-- `next_window_end(window, after, zone) + timedelta(minutes=GRACE_MINUTES)`, which has `fold=0`
unfoldable pub resume_time : Zone → QuietHours → ℕ → DateTime
resume_time zone window wall = record {
  at = zone.instant (next_window_end window wall + grace);
  aware = true;
}

abbrev pub address_rule_name : String
address_rule_name = "recipient_address_rule"

-- `RecipientAddressRule.evaluate`
unfoldable pub recipient_address_rule : PolicyRule
recipient_address_rule ctx =
    if is_missing (get_address ctx.notification.channel ctx.recipient.addresses)
    then reject (no_address ctx.notification.channel) address_rule_name suppress none
    else allow

abbrev pub preference_rule_name : String
preference_rule_name = "recipient_preference_rule"

-- `start <= t <= end` on the wall clock of a zone
abbrev pub in_blackout : Platform → Zone → BlackoutPeriod → DateTime → Bool
in_blackout p zone b t =
    leb (astimezone p zone b.start) (astimezone p zone t)
    && leb (astimezone p zone t) (astimezone p zone b.end)

-- `recipient_timezone or "UTC"`
abbrev pub or_utc : Option String → String
or_utc none = "UTC"
or_utc (some tz) = if is_empty tz then "UTC" else tz

-- `topic and topic in topics`
abbrev pub mem_topic : Option ℕ → List ℕ → Bool
mem_topic none topics = false
mem_topic (some topic) topics = contains topic topics

abbrev pub blackout_rule_name : String
blackout_rule_name = "blackout_period"

abbrev pub quiet_hours_rule_name : String
quiet_hours_rule_name = "quiet_hours"

module _ (p : Platform) where
  -- the part of `_evaluate_blackout_and_quiet_hours` on quiet hours
  unfoldable pub recipient_window :
      Zone → Option QuietHours → DeliveryChannel → DateTime → PolicyDecision
  recipient_window zone none channel send_at = allow
  recipient_window zone (some window) channel send_at =
      let wall = astimezone p zone send_at in
      if window.channel == channel && covers window wall
      then reject (recipient_quiet_hours p.time_text window) preference_rule_name postpone
          (some (resume_time zone window wall))
      else allow

  -- the part on the blackout period, before the other
  unfoldable pub recipient_silence :
      Zone → Option BlackoutPeriod → DateTime → PolicyDecision → PolicyDecision
  recipient_silence zone none send_at later = later
  recipient_silence zone (some b) send_at later =
      if in_blackout p zone b send_at
      then reject (recipient_blackout b) preference_rule_name suppress none
      else later

  unfoldable pub evaluate_blackout_and_quiet_hours :
      RecipientPreferences
      → Notification
      → Option DateTime
      → DateTime
      → Option String
      → PolicyDecision
  unfolding recipient_window recipient_silence
  evaluate_blackout_and_quiet_hours prefs notification send_time now tz =
      let send_at = or_else send_time now in
      let zone = p.zone_info (or_utc tz) in
      recipient_silence zone prefs.blackout_period send_at
        (recipient_window zone prefs.quiet_hours notification.channel send_at)

  -- `RecipientPreferenceRule.evaluate`
  unfoldable pub recipient_preference_rule : PolicyRule
  unfolding evaluate_blackout_and_quiet_hours
  recipient_preference_rule ctx =
      let prefs = ctx.recipient.preferences in
      let n = ctx.notification in
      if contains n.category prefs.unsubscribed_categories
      then reject (unsubscribed_category n.category) preference_rule_name suppress none
      else if contains n.channel prefs.opted_out_channels
      then reject (opted_out n.channel) preference_rule_name suppress none
      else if mem_topic n.topic_id prefs.unsubscribed_topics
      then reject (unsubscribed_topic p.uuid_text (or_else n.topic_id 0)) preference_rule_name
          suppress none
      else evaluate_blackout_and_quiet_hours prefs n n.send_at ctx.now ctx.recipient.timezone

  -- the loop of `ProjectBlackoutPeriodRule.evaluate`
  unfoldable pub check_blackouts : Zone → DateTime → List BlackoutPeriod → PolicyDecision
  check_blackouts zone send_at [] = allow
  check_blackouts zone send_at (b ∷ rest) =
      if in_blackout p zone b send_at
      then reject (project_blackout b) blackout_rule_name suppress none
      else check_blackouts zone send_at rest

  unfoldable pub project_blackout_rule : PolicyRule
  unfolding check_blackouts
  project_blackout_rule ctx = elim ctx.delivery_constraint [
    | none ↦ allow
    | some c ↦
        check_blackouts (p.zone_info c.timezone) (or_else ctx.notification.send_at ctx.now)
          c.blackout_periods
  ]

  -- the loop of `ProjectQuietHoursRule.evaluate`
  unfoldable pub check_quiet_hours : Zone → DeliveryChannel → ℕ → List QuietHours → PolicyDecision
  check_quiet_hours zone channel wall [] = allow
  check_quiet_hours zone channel wall (window ∷ rest) =
      if window.channel == channel && covers window wall
      then reject (project_quiet_hours p.time_text window) quiet_hours_rule_name postpone
          (some (resume_time zone window wall))
      else check_quiet_hours zone channel wall rest

  unfoldable pub project_quiet_hours_rule : PolicyRule
  unfolding check_quiet_hours
  project_quiet_hours_rule ctx = elim ctx.delivery_constraint [
    | none ↦ allow
    | some c ↦
        let zone = p.zone_info c.timezone in
        check_quiet_hours zone ctx.notification.channel
          (astimezone p zone (or_else ctx.notification.send_at ctx.now)) c.quiet_hours
  ]

  abbrev pub intake_rules : List PolicyRule
  intake_rules =
      recipient_address_rule ∷ recipient_preference_rule ∷ project_blackout_rule
      ∷ project_quiet_hours_rule ∷ []

  abbrev pub dispatch_guard_rules : List PolicyRule
  dispatch_guard_rules =
      recipient_preference_rule ∷ project_blackout_rule ∷ project_quiet_hours_rule ∷ []

-- the loop of `PolicyResolver.evaluate`
unfoldable pub run_rules : List PolicyRule → PolicyContext → PolicyDecision
run_rules [] ctx = allow
run_rules (rule ∷ rules) ctx =
    let decision = rule ctx in if decision.allowed then run_rules rules ctx else decision

abbrev pub is_critical : NotificationCategory → Bool
is_critical critical = true
is_critical _ = false

-- `PolicyResolver(rules).evaluate(...)`, which reads the clock once, for the context.
unfoldable pub evaluate :
    List PolicyRule → ℕ → Notification → Recipient → Option DeliveryConstraint → PolicyDecision
unfolding run_rules
evaluate rules now notification recipient delivery_constraint =
    if is_critical notification.category
    then allow
    else run_rules rules (record {
      notification = notification;
      recipient = recipient;
      delivery_constraint = delivery_constraint;
      now = utc now;
    })
