-- ===== src/Content.antt =====
-- The content of a notification (backend/src/tiber/domain/value_objects/notification_content.py)
-- and its validation for a channel (backend/src/tiber/domain/services/channel_content.py).
-- `urlparse` is not modelled, so actions and images carry addresses that were accepted already.
use tiber.Prelude.{
  String, Option, List, Bool, true, false, ◌&&◌, not, is_missing, is_missing_or_blank, is_blank,
}
use tiber.Enums.{DeliveryChannel, email, sms}
use tiber.Result.{Result, ok, raise_if, value_error, invalid_attribute, ◌>>◌}

pub record ContentAction : Type 0 where
  pub label : String
  pub url : String

pub record ContentImage : Type 0 where
  pub url : String
  pub alt : Option String

pub record NotificationContent : Type 0 where
  pub body : String
  pub title : Option String
  pub actions : List ContentAction
  pub images : List ContentImage

-- `NotificationContent(...)`, with the check of `__post_init__`
unfoldable pub make_content :
    String → Option String → List ContentAction → List ContentImage → Result NotificationContent
unfolding is_blank
make_content body title actions images = do
  raise_if (is_blank body) value_error
  ok (record { body = body; title = title; actions = actions; images = images })

abbrev pub is_email : DeliveryChannel → Bool
is_email email = true
is_email _ = false

abbrev pub is_sms : DeliveryChannel → Bool
is_sms sms = true
is_sms _ = false

unfoldable pub validate_content : DeliveryChannel → NotificationContent → Result (Unit {0})
unfolding is_missing_or_blank
validate_content channel content = do
  raise_if (is_email channel && is_missing_or_blank content.title) invalid_attribute
  raise_if (is_sms channel && not (is_missing content.title)) invalid_attribute
