-- ===== src/Policy/Reasons.antt =====
-- The texts that a rejection carries. They end up on the notification, which takes no empty one.
use tiber.Prelude.{ℕ, String, ◌≡◌, refl, false, is_empty, ◌<>◌}
use tiber.Enums.{
  DeliveryChannel, email, push, sms, in_app, NotificationCategory, critical, informational, social,
  promotional,
}
use tiber.Recipient.{QuietHours, BlackoutPeriod}

-- The values of the enumerations.
unfoldable pub channel_text : DeliveryChannel → String
channel_text email = "email"
channel_text push = "push"
channel_text sms = "sms"
channel_text in_app = "in_app"

unfoldable pub category_text : NotificationCategory → String
category_text critical = "critical"
category_text informational = "informational"
category_text social = "social"
category_text promotional = "promotional"

pub no_address : DeliveryChannel → String
unfolding ◌<>◌
no_address channel = "recipient has no " <> channel_text channel <> " address"

pub unsubscribed_category : NotificationCategory → String
unfolding ◌<>◌
unsubscribed_category category =
    "recipient unsubscribed from " <> category_text category <> " notifications"

pub opted_out : DeliveryChannel → String
unfolding ◌<>◌
opted_out channel = "recipient opted out of " <> channel_text channel <> " delivery channel"

pub unsubscribed_topic : (ℕ → String) → ℕ → String
unfolding ◌<>◌
unsubscribed_topic uuid_text topic = "recipient unsubscribed from topic " <> uuid_text topic

pub recipient_blackout : BlackoutPeriod → String
unfolding ◌<>◌
recipient_blackout b = "recipient blackout period " <> b.name <> " covers the send time"

pub recipient_quiet_hours : (ℕ → String) → QuietHours → String
unfolding ◌<>◌
recipient_quiet_hours time_text w =
    "recipient quiet hours ("
    <> time_text w.window_start
    <> " - "
    <> time_text w.window_end
    <> ") cover the send time for channel "
    <> channel_text w.channel

pub project_blackout : BlackoutPeriod → String
unfolding ◌<>◌
project_blackout b = "notification cannot be sent within " <> b.name <> " blackout period"

pub project_quiet_hours : (ℕ → String) → QuietHours → String
unfolding ◌<>◌
project_quiet_hours time_text w =
    "notification cannot be sent within configured restricted window ("
    <> time_text w.window_start
    <> " - "
    <> time_text w.window_end
    <> ") for channel "
    <> channel_text w.channel

-- Every text begins with a fixed word.
pub no_address-nonempty : (c : DeliveryChannel) → is_empty (no_address c) ≡ false
unfolding no_address
no_address-nonempty c = refl

pub unsubscribed_category-nonempty :
    (c : NotificationCategory) → is_empty (unsubscribed_category c) ≡ false
unfolding unsubscribed_category
unsubscribed_category-nonempty c = refl

pub opted_out-nonempty : (c : DeliveryChannel) → is_empty (opted_out c) ≡ false
unfolding opted_out
opted_out-nonempty c = refl

pub unsubscribed_topic-nonempty :
    (f : ℕ → String) (t : ℕ) → is_empty (unsubscribed_topic f t) ≡ false
unfolding unsubscribed_topic
unsubscribed_topic-nonempty f t = refl

pub recipient_blackout-nonempty : (b : BlackoutPeriod) → is_empty (recipient_blackout b) ≡ false
unfolding recipient_blackout
recipient_blackout-nonempty b = refl

pub recipient_quiet_hours-nonempty :
    (f : ℕ → String) (w : QuietHours) → is_empty (recipient_quiet_hours f w) ≡ false
unfolding recipient_quiet_hours
recipient_quiet_hours-nonempty f w = refl

pub project_blackout-nonempty : (b : BlackoutPeriod) → is_empty (project_blackout b) ≡ false
unfolding project_blackout
project_blackout-nonempty b = refl

pub project_quiet_hours-nonempty :
    (f : ℕ → String) (w : QuietHours) → is_empty (project_quiet_hours f w) ≡ false
unfolding project_quiet_hours
project_quiet_hours-nonempty f w = refl
