-- ===== src/Command.antt =====
-- The request of a client and its `request_fingerprint` (backend/src/tiber/application/services/notification_intake.py): the document
-- that is hashed. `json.dumps(..., sort_keys=True)` with the hash of its bytes, and the UTC form of
-- a time, are parameters.
use tiber.Prelude.{Option, ℕ, ◌≡◌, refl, ap, ◌∙◌, arith, String, some, List, [], ◌∷◌, ltb}
use tiber.Content.{NotificationContent}
use tiber.Notification.{Variables}
use tiber.Enums.{NotificationCategory, DeliveryChannel, email, push, sms, in_app}
use tiber.Intake.Plan.{value_rank}
use tiber.Time.{DateTime}
use tiber.Recipient.{Addresses}
use tiber.Recipient.Entity.{Locale, normalize_address}
use tiber.Json.{Json, text, object, no_fields, field, write_fields, write_option}
use tiber.Json.Enums.{channel_value, text_ltb, insert_by, sort_by}
use tiber.Json.Content.{to_dict}
use tiber.IntakeStore.{category_to_json, variables_to_json, channel_set_to_json}

-- `AcceptNotificationCommand`
pub record AcceptCommand : Type 0 where
  pub project_id : ℕ
  pub recipient_id : Option String
  pub addresses : Addresses
  pub channels : Option (List DeliveryChannel)
  pub category : Option NotificationCategory
  pub topic_slug : Option String
  pub template_slug : Option String
  pub template_variables : Option Variables
  pub content : Option NotificationContent
  pub group_key : Option String
  pub send_at : Option DateTime
  pub idempotency_key : Option String

module _ (l : Locale) (utc_text : DateTime → String) where
  -- the canonical addresses by channel
  unfoldable pub addresses_to_json : Addresses → Json
  unfolding write_fields normalize_address
  addresses_to_json addresses =
      object
        (write_fields (λ e. channel_value e.0) (λ e. text (normalize_address l e.0 e.1)) addresses)

  -- `document`
  unfoldable pub fingerprint_document : AcceptCommand → Json
  unfolding addresses_to_json channel_set_to_json variables_to_json to_dict
  fingerprint_document cmd = object (
      field "recipient_id" (write_option text cmd.recipient_id) (
        field "addresses" (addresses_to_json cmd.addresses) (
          field "channels" (write_option channel_set_to_json cmd.channels) (
            field "category" (write_option category_to_json cmd.category) (
              field "topic_slug" (write_option text cmd.topic_slug) (
                field "template_slug" (write_option text cmd.template_slug) (
                  field "template_variables" (write_option variables_to_json cmd.template_variables)
                    (field "content" (write_option (λ n. object (to_dict n)) cmd.content) (
                      field "group_key" (write_option text cmd.group_key) (
                        field "send_at" (write_option (λ t. text (utc_text t)) cmd.send_at)
                          no_fields))))))))))

  -- `request_fingerprint`, with the encoding and the hash
  unfoldable pub request_fingerprint : (Json → String) → AcceptCommand → String
  unfolding fingerprint_document
  request_fingerprint digest cmd = digest (fingerprint_document cmd)

-- The same list in another order: two lists that are linked by exchanging neighbours.
infix 20 ◌≈◌
pub data ◌≈◌ : List DeliveryChannel → List DeliveryChannel → Type 0 where
  same : (ds : List DeliveryChannel) → ds ≈ ds
  exchange : (c d : DeliveryChannel) (ds : List DeliveryChannel) → (c ∷ d ∷ ds) ≈ (d ∷ c ∷ ds)
  behind : (c : DeliveryChannel) {ds es : List DeliveryChannel} → ds ≈ es → (c ∷ ds) ≈ (c ∷ es)
  after : {ds es fs : List DeliveryChannel} → ds ≈ es → es ≈ fs → ds ≈ fs

text_ltb-eq-ltb :
    (c d : DeliveryChannel)
    → text_ltb (channel_value c) (channel_value d) ≡ ltb (value_rank c) (value_rank d)
text_ltb-eq-ltb email email = refl
text_ltb-eq-ltb email push = refl
text_ltb-eq-ltb email sms = refl
text_ltb-eq-ltb email in_app = refl
text_ltb-eq-ltb push email = refl
text_ltb-eq-ltb push push = refl
text_ltb-eq-ltb push sms = refl
text_ltb-eq-ltb push in_app = refl
text_ltb-eq-ltb sms email = refl
text_ltb-eq-ltb sms push = refl
text_ltb-eq-ltb sms sms = refl
text_ltb-eq-ltb sms in_app = refl
text_ltb-eq-ltb in_app email = refl
text_ltb-eq-ltb in_app push = refl
text_ltb-eq-ltb in_app sms = refl
text_ltb-eq-ltb in_app in_app = refl

value_rank_injective : (c d : DeliveryChannel) → value_rank c ≡ value_rank d → c ≡ d
value_rank_injective c d h = ground arith

insert_by-exchange :
    (c d : DeliveryChannel) (ds : List DeliveryChannel)
    → insert_by channel_value c (insert_by channel_value d ds)
      ≡ insert_by channel_value d (insert_by channel_value c ds)
unfolding insert_by
insert_by-exchange c d [] =
    rw (text_ltb-eq-ltb c d, text_ltb-eq-ltb d c) (ground (arith, value_rank_injective c d))
insert_by-exchange c d (e ∷ ds) = ground (
  arith,
  text_ltb-eq-ltb c d,
  text_ltb-eq-ltb d c,
  text_ltb-eq-ltb e c,
  text_ltb-eq-ltb e d,
  value_rank_injective c d,
  insert_by-exchange c d ds,
)

sort_by-exchange :
    {ds es : List DeliveryChannel} → ds ≈ es → sort_by channel_value ds ≡ sort_by channel_value es
unfolding sort_by
sort_by-exchange (same ds) = refl
sort_by-exchange (exchange c d ds) = insert_by-exchange c d (sort_by channel_value ds)
sort_by-exchange (behind c h) = ap (insert_by channel_value c) (sort_by-exchange h)
sort_by-exchange (after h k) = sort_by-exchange h ∙ sort_by-exchange k

-- The order in which a request lists its channels does not change its fingerprint.
pub fingerprint-≈ :
    (l : Locale) (utc_text : DateTime → String) (digest : Json → String) (cmd : AcceptCommand)
    (ds es : List DeliveryChannel)
    → ds ≈ es
    → request_fingerprint l utc_text digest (record cmd { channels = some ds })
      ≡ request_fingerprint l utc_text digest (record cmd { channels = some es })
unfolding request_fingerprint fingerprint_document channel_set_to_json
fingerprint-≈ l utc_text digest cmd ds es h = rw (sort_by-exchange h) refl
