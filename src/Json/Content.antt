-- ===== src/Json/Content.antt =====
-- `NotificationContent.to_dict` and `from_dict`
-- (backend/src/tiber/domain/value_objects/notification_content.py), with the checks of
-- `ContentAction` and `ContentImage` that the rebuilding runs.
use tiber.Prelude.{
  String, Option, none, some, Bool, false, ◌&&◌, ◌||◌, not, every, is_blank, is_none, zero,
}
use tiber.Result.{Result, ok, err, ◌>>=◌, ◌>>◌, raise_if, value_error, other}
use tiber.Content.{ContentAction, ContentImage, NotificationContent, make_content}
use tiber.Json.{
  Json, null, boolean, number, text, array, object, Items, no_items, Fields, no_fields, field,
  Codec, entry, get, at_key, write_items, read_items, write_option, optional_text,
}

unfoldable pub action_to_json : ContentAction → Json
action_to_json a = object (field "label" (text a.label) (field "url" (text a.url) no_fields))

unfoldable pub image_to_json : ContentImage → Json
image_to_json i =
    object (field "url" (text i.url) (field "alt" (write_option text i.alt) no_fields))

-- `to_dict`
unfoldable pub to_dict : NotificationContent → Fields
unfolding action_to_json image_to_json write_items
to_dict n = field "title" (write_option text n.title) (
    field "body" (text n.body) (
      field "actions" (array (write_items action_to_json n.actions))
        (field "images" (array (write_items image_to_json n.images)) no_fields)))

-- `not self.label` and what `strip` needs: an empty value is refused as such, anything else that
-- is no text has no `strip`
unfoldable pub label_of : Json → Result String
label_of (text s) = ok s
label_of null = err value_error
label_of (boolean false) = err value_error
label_of (number zero) = err value_error
label_of (array no_items) = err value_error
label_of (object no_fields) = err value_error
label_of _ = err other

-- `url.strip()`
unfoldable pub url_of : Json → Result String
url_of (text s) = ok s
url_of _ = err other

abbrev pub title_of : Json → Result (Option String)
title_of null = ok none
title_of (text s) = ok (some s)
title_of _ = err value_error

abbrev pub body_of : Option Json → Result String
body_of (some (text s)) = ok s
body_of _ = err value_error

-- `data.get(k, [])`, which must be a list
abbrev pub list_of : Option Json → Result Items
list_of none = ok no_items
list_of (some (array xs)) = ok xs
list_of _ = err value_error

module _ (c : Codec) where
  -- `ContentAction(label=label, url=url)`
  unfoldable pub make_action : String → String → Result ContentAction
  make_action label url = do
    raise_if (is_blank label) value_error
    raise_if (not (c.is_url url)) value_error
    ok (record { label = label; url = url })

  -- `ContentImage(url=url, alt=alt)`
  unfoldable pub make_image : String → Option String → Result ContentImage
  make_image url alt = do
    raise_if (not (c.is_url url)) value_error
    ok (record { url = url; alt = alt })

  unfoldable pub action_of : Json → Result ContentAction
  unfolding label_of url_of make_action
  action_of (object raw) = do
    raise_if (is_none (entry "label" raw) || is_none (entry "url" raw)) value_error
    raw_label ← at_key "label" raw
    raw_url ← at_key "url" raw
    label ← label_of raw_label
    raise_if (is_blank label) value_error
    url ← url_of raw_url
    make_action label url
  action_of _ = err value_error

  unfoldable pub image_of : Json → Result ContentImage
  unfolding url_of make_image optional_text
  image_of (object raw) = do
    raise_if (is_none (entry "url" raw)) value_error
    raw_url ← at_key "url" raw
    url ← url_of raw_url
    alt ← optional_text (get "alt" raw)
    make_image url alt
  image_of _ = err value_error

  -- `from_dict`
  unfoldable pub from_dict : Fields → Result NotificationContent
  unfolding action_of image_of read_items make_content
  from_dict data_ = do
    body ← body_of (entry "body" data_)
    title ← title_of (get "title" data_)
    raw_actions ← list_of (entry "actions" data_)
    raw_images ← list_of (entry "images" data_)
    actions ← read_items action_of raw_actions
    images ← read_items image_of raw_images
    make_content body title actions images

  -- a content that the constructors accepted
  abbrev pub is_accepted : NotificationContent → Bool
  is_accepted n =
      not (is_blank n.body)
      && every (λ a. not (is_blank a.label) && c.is_url a.url) n.actions
      && every (λ i. c.is_url i.url) n.images
