-- ===== src/Template.antt =====
-- Templates (backend/src/tiber/domain/entities/template.py, value_objects/template_variant.py and
-- services/template_variables.py). The regular expressions run in Python's `re`, so what they find
-- in a text is a parameter.
pub mod Render
use tiber.Prelude.{String, ℕ, Option, none, some, List, [], ◌∷◌, ◌++◌, if◌then◌else◌, is_empty}
use tiber.Prelude.Eq.{◌==◌}
use tiber.Enums.{DeliveryChannel, channel_eq}
use tiber.Result.{Result, ok, err, invalid_attribute, ◌>>=◌, ◌>>◌}
use tiber.Time.{DateTime}
use tiber.Content.{NotificationContent, ContentAction, ContentImage, validate_content}

pub record TemplateVariant : Type 0 where
  pub channel : DeliveryChannel
  pub content : NotificationContent

-- `TemplateVariant(...)`, with the check of `__post_init__`
unfoldable pub make_variant : DeliveryChannel → NotificationContent → Result TemplateVariant
make_variant channel content = do
  validate_content channel content
  ok (record { channel = channel; content = content })

abbrev pub Variants : Type 0
Variants = List (DeliveryChannel × TemplateVariant)

-- `variants.get(channel)`
unfoldable pub get_variant : DeliveryChannel → Variants → Option TemplateVariant
get_variant channel [] = none
get_variant channel ((ch, v) ∷ rest) = if ch == channel then some v else get_variant channel rest

pub record Template : Type 0 where
  pub id : ℕ
  pub project_id : ℕ
  pub name : String
  pub template_slug : Option String
  pub variants : Variants
  pub created_at : DateTime
  pub updated_at : DateTime

-- `findall` of one of the two patterns
module _ (findall : String → List String) where
  unfoldable pub extract_variables : Option String → List String
  extract_variables none = []
  extract_variables (some text) = if is_empty text then [] else findall text

  unfoldable pub action_variables : List ContentAction → List String
  unfolding extract_variables
  action_variables [] = []
  action_variables (a ∷ rest) =
      extract_variables (some a.label) ++ (extract_variables (some a.url) ++ action_variables rest)

  unfoldable pub image_variables : List ContentImage → List String
  unfolding extract_variables
  image_variables [] = []
  image_variables (i ∷ rest) =
      extract_variables (some i.url) ++ (extract_variables i.alt ++ image_variables rest)

  unfoldable pub content_variables : NotificationContent → List String
  unfolding extract_variables action_variables image_variables
  content_variables c =
      extract_variables c.title
      ++ (extract_variables (some c.body)
          ++ (action_variables c.actions ++ image_variables c.images))

  unfoldable pub variables_for : Template → DeliveryChannel → Result (List String)
  unfolding get_variant content_variables
  variables_for t channel = elim (get_variant channel t.variants) [
    | none ↦ err invalid_attribute
    | some v ↦ ok (content_variables v.content)
  ]
