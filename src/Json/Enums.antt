-- ===== src/Json/Enums.antt =====
-- The values of the enumerations in backend/src/tiber/domain/enums.py, and `sorted` on them.
use tiber.Prelude.{String, ◌≡◌, refl, List, [], ◌∷◌, Bool, true, false, ltb, if◌then◌else◌}
use tiber.Prelude.Eq.{◌==◌, nat_beq, string_eq}
use Prim.Native.Char.{code}
use tiber.Result.{Result, ok, err, value_error}
use tiber.Enums.{
  DeliveryChannel, email, push, sms, in_app, NotificationCategory, critical, informational, social,
  promotional, IntakeStatus, received, completed,
}

abbrev pub channel_value : DeliveryChannel → String
channel_value email = "email"
channel_value push = "push"
channel_value sms = "sms"
channel_value in_app = "in_app"

-- `DeliveryChannel(text)`
unfoldable pub channel_of : String → Result DeliveryChannel
channel_of s =
    if s == "email"
    then ok email
    else if s == "push"
    then ok push
    else if s == "sms"
    then ok sms
    else if s == "in_app"
    then ok in_app
    else err value_error

abbrev pub category_value : NotificationCategory → String
category_value critical = "critical"
category_value informational = "informational"
category_value social = "social"
category_value promotional = "promotional"

-- `NotificationCategory(text)`
unfoldable pub category_of : String → Result NotificationCategory
category_of s =
    if s == "critical"
    then ok critical
    else if s == "informational"
    then ok informational
    else if s == "social"
    then ok social
    else if s == "promotional"
    then ok promotional
    else err value_error

abbrev pub intake_status_value : IntakeStatus → String
intake_status_value received = "received"
intake_status_value IntakeStatus.processing = "processing"
intake_status_value completed = "completed"
intake_status_value IntakeStatus.failed = "failed"

-- `IntakeStatus(text)`
unfoldable pub intake_status_of : String → Result IntakeStatus
intake_status_of s =
    if s == "received"
    then ok received
    else if s == "processing"
    then ok IntakeStatus.processing
    else if s == "completed"
    then ok completed
    else if s == "failed"
    then ok IntakeStatus.failed
    else err value_error

pub channel_of-channel_value : (d : DeliveryChannel) → channel_of (channel_value d) ≡ ok d
unfolding channel_of
channel_of-channel_value email = refl
channel_of-channel_value push = refl
channel_of-channel_value sms = refl
channel_of-channel_value in_app = refl

pub category_of-category_value : (d : NotificationCategory) → category_of (category_value d) ≡ ok d
unfolding category_of
category_of-category_value critical = refl
category_of-category_value informational = refl
category_of-category_value social = refl
category_of-category_value promotional = refl

pub intake_status_of-intake_status_value :
    (d : IntakeStatus) → intake_status_of (intake_status_value d) ≡ ok d
unfolding intake_status_of
intake_status_of-intake_status_value received = refl
intake_status_of-intake_status_value IntakeStatus.processing = refl
intake_status_of-intake_status_value completed = refl
intake_status_of-intake_status_value IntakeStatus.failed = refl

-- s < t of texts, by code points
abbrev pub text_ltb : String → String → Bool
text_ltb _ String.[] = false
text_ltb String.[] (String.◌∷◌ _ _) = true
text_ltb (String.◌∷◌ a s) (String.◌∷◌ b t) =
    let rest = text_ltb s t in
    if ltb (code a) (code b) then true else if nat_beq (code a) (code b) then rest else false

-- The members of a set in the order that `sorted` gives their values.
module _ {ℓ} {A : Type ℓ} (value : A → String) where
  unfoldable pub insert_by : A → List A → List A
  insert_by a [] = a ∷ []
  insert_by a (x ∷ xs) =
      let rest = insert_by a xs in if text_ltb (value x) (value a) then x ∷ rest else a ∷ x ∷ xs

  unfoldable pub sort_by : List A → List A
  unfolding insert_by
  sort_by [] = []
  sort_by (x ∷ xs) = insert_by x (sort_by xs)
