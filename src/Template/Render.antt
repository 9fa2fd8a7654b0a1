-- ===== src/Template/Render.antt =====
-- Rendering (backend/src/tiber/domain/services/render.py) and the resolution of a notification's
-- content (backend/src/tiber/application/services/template.py). Python's `re` is a parameter.
use tiber.Prelude.{
  String, ℕ, Option, none, some, List, [], ◌∷◌, ◌++◌, true, false, if◌then◌else◌, is_none, keep,
  is_nil, is_missing, dedup, or_else,
}
use tiber.Prelude.Eq.{◌==◌, string_eq}
use tiber.Enums.{channel_eq}
use tiber.Result.{
  Result, ok, err, raise_if, template_render, entity_not_found, a_template, type_error, ◌>>◌,
}
use tiber.Content.{NotificationContent, make_content}
use tiber.Notification.{Notification, Variables}
use tiber.Template.{Template, TemplateVariant, get_variant, extract_variables}

-- `TEMPLATE_PLACEHOLDER_RE`: `findall`, and `sub` with a function of the name.
pub record Placeholders : Type 0 where
  pub findall : String → List String
  pub sub : (String → String) → String → String

-- `mapping.get(name)`
unfoldable pub get_value : String → Variables → Option String
get_value name [] = none
get_value name ((key, value) ∷ rest) = if key == name then value else get_value name rest

abbrev pub or_empty : Option Variables → Variables
or_empty none = []
or_empty (some v) = v

module _ (re : Placeholders) where
  -- `extract_placeholders(title, body)`
  unfoldable pub extract_placeholders : Option String → String → List String
  unfolding extract_variables dedup
  extract_placeholders title body =
      dedup (extract_variables re.findall title ++ extract_variables re.findall (some body))

  unfoldable pub missing_variables : TemplateVariant → Variables → List String
  unfolding extract_placeholders get_value
  missing_variables v mapping =
      keep (λ name. is_none (get_value name mapping))
        (extract_placeholders v.content.title v.content.body)

  unfoldable pub substitute : Variables → String → String
  unfolding get_value
  substitute mapping text = re.sub (λ name. or_else (get_value name mapping) "None") text

  unfoldable pub render_title : Variables → Option String → Option String
  unfolding substitute
  render_title mapping none = none
  render_title mapping (some title) =
      if is_missing (some title) then none else some (substitute mapping title)

  unfoldable pub render : TemplateVariant → Option Variables → Result NotificationContent
  unfolding missing_variables render_title substitute make_content
  render v variables = do
    let mapping = or_empty variables
    let missing = missing_variables v mapping
    raise_if (if is_nil missing then false else true) (template_render missing)
    make_content (substitute mapping v.content.body) (render_title mapping v.content.title)
        v.content.actions v.content.images

  -- A variant that is missing raises `TypeError`: `TemplateChannelMismatchError` takes two
  -- arguments and is given three.
  unfoldable pub resolve_content :
      (ℕ → ℕ → Option Template) → Notification → Result NotificationContent
  unfolding render get_variant
  resolve_content get_template n = elim n.template_id [
    | none ↦ ok n.content
    | some id ↦ elim (get_template id n.project_id) [
      | none ↦ err (entity_not_found a_template)
      | some t ↦ elim (get_variant n.channel t.variants) [
        | none ↦ err type_error
        | some v ↦ render v n.template_variables
      ]
    ]
  ]
