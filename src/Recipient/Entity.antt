-- ===== src/Recipient/Entity.antt =====
-- The recipient entity (backend/src/tiber/domain/entities/recipient.py) and the canonical form of
-- addresses (backend/src/tiber/domain/services/addresses.py). The instant that a method reads with
-- `datetime.now(UTC)` is its argument `clock`.
use tiber.Prelude.{
  ℕ, suc, String, Option, none, some, List, [], ◌∷◌, Bool, false, ◌&&◌, ◌||◌, not, is_nil, is_some,
  is_missing_or_blank, leb, if◌then◌else◌, without, is_blank,
}
use tiber.Prelude.Eq.{◌==◌, nat_eq}
use tiber.Prelude.Text.{is_space}
use Prim.Native.Char.{code}
use tiber.Enums.{DeliveryChannel, channel_eq}
use tiber.Result.{Result, ok, raise_if, value_error, invalid_attribute, ◌>>◌}
use tiber.Time.{utc}
use tiber.Content.{is_email}
use tiber.Recipient.{Recipient, RecipientPreferences, Addresses}

-- What the entity takes from the standard library: whether `ZoneInfo` knows a key, and `str.lower`.
pub record Locale : Type 0 where
  pub is_zone : String → Bool
  pub lower : String → String

-- `str.lstrip()`, `str.strip()`
unfoldable pub lstrip : String → String
unfolding is_space
lstrip String.[] = String.[]
lstrip (String.◌∷◌ c s) = let rest = lstrip s in if is_space (code c) then rest else String.◌∷◌ c s

unfoldable pub strip_end : String → String
unfolding is_space is_blank
strip_end String.[] = String.[]
strip_end (String.◌∷◌ c s) =
    let rest = strip_end s in
    if is_space (code c) && is_blank s then String.[] else String.◌∷◌ c rest

unfoldable pub strip : String → String
unfolding lstrip strip_end
strip s = strip_end (lstrip s)

abbrev pub is_letter : ℕ → Bool
is_letter c = (leb 65 c && leb c 90) || (leb 97 c && leb c 122)

abbrev pub is_letter_or_digit : ℕ → Bool
is_letter_or_digit c = is_letter c || (leb 48 c && leb c 57)

-- `(-[a-zA-Z0-9]{2,8})*` against a whole text, with the length of the part that is being read
unfoldable pub is_subtags : ℕ → String → Bool
is_subtags n String.[] = leb 2 n && leb n 8
is_subtags n (String.◌∷◌ c s) =
    let longer = is_subtags (suc n) s in
    let next = is_subtags 0 s in
    if code c == 45 then leb 2 n && leb n 8 && next else is_letter_or_digit (code c) && longer

-- `[a-zA-Z]{2,3}` and what follows it
unfoldable pub is_language_from : ℕ → String → Bool
unfolding is_subtags
is_language_from n String.[] = leb 2 n && leb n 3
is_language_from n (String.◌∷◌ c s) =
    let longer = is_language_from (suc n) s in
    if code c == 45 then leb 2 n && leb n 3 && is_subtags 0 s else is_letter (code c) && longer

-- `_LANGUAGE_TAG_RE.fullmatch(text)`
unfoldable pub is_language_tag : String → Bool
unfolding is_language_from
is_language_tag s = is_language_from 0 s

abbrev pub channels : Addresses → List DeliveryChannel
channels [] = []
channels ((ch, _) ∷ rest) = ch ∷ channels rest

abbrev pub fails_test : (String → Bool) → Option String → Bool
fails_test test none = false
fails_test test (some s) = not (test s)

-- `d[channel] = address` of a dict, which keeps its order
unfoldable pub put_address : DeliveryChannel → String → Addresses → Addresses
put_address ch value [] = (ch, value) ∷ []
put_address ch value ((c, v) ∷ rest) =
    let others = put_address ch value rest in
    if c == ch then (ch, value) ∷ rest else (c, v) ∷ others

-- `{**old, **new}`
unfoldable pub merge_addresses : Addresses → Addresses → Addresses
unfolding put_address
merge_addresses old [] = old
merge_addresses old ((ch, value) ∷ rest) = merge_addresses (put_address ch value old) rest

-- `RecipientPreferences()`
abbrev pub default_preferences : RecipientPreferences
default_preferences = record {
  opted_out_channels = [];
  unsubscribed_categories = [];
  unsubscribed_topics = [];
  blackout_period = none;
  quiet_hours = none;
}

module _ (l : Locale) where
  -- `normalize_address`
  unfoldable pub normalize_address : DeliveryChannel → String → String
  unfolding strip
  normalize_address ch value = if is_email ch then l.lower (strip value) else strip value

  -- `normalize_addresses`
  unfoldable pub normalize_addresses : Addresses → Addresses
  unfolding normalize_address
  normalize_addresses [] = []
  normalize_addresses ((ch, value) ∷ rest) =
      (ch, normalize_address ch value) ∷ normalize_addresses rest

  -- `__post_init__`
  unfoldable pub recipient_post_init : Recipient → Result Recipient
  unfolding is_language_tag
  recipient_post_init r = do
    raise_if (is_nil r.addresses) invalid_attribute
    raise_if (not (is_nil (without r.preferences.opted_out_channels (channels r.addresses))))
        value_error
    raise_if (fails_test l.is_zone r.timezone) invalid_attribute
    raise_if (fails_test is_language_tag r.language) invalid_attribute
    ok r

  -- the address-based recipient that `create` makes
  unfoldable pub create_recipient : ℕ → ℕ → ℕ → Addresses → Result Recipient
  unfolding recipient_post_init
  create_recipient clock id project addresses = recipient_post_init (record {
    id = id;
    project_id = project;
    addresses = addresses;
    preferences = default_preferences;
    external_id = none;
    timezone = none;
    language = none;
    created_at = utc clock;
    updated_at = utc clock;
    archived_at = none;
  })

  unfoldable pub claim_recipient : ℕ → String → Addresses → Recipient → Result Recipient
  unfolding recipient_post_init merge_addresses strip
  claim_recipient clock external_id addresses r = do
    raise_if (is_missing_or_blank (some external_id)) value_error
    raise_if (is_some r.external_id) value_error
    recipient_post_init (record r {
      external_id = some (strip external_id);
      addresses = merge_addresses r.addresses addresses;
      updated_at = utc clock;
    })

  unfoldable pub update_addresses : ℕ → Addresses → Recipient → Result Recipient
  unfolding recipient_post_init
  update_addresses clock addresses r = do
    raise_if (is_nil addresses) value_error
    recipient_post_init (record r { addresses = addresses; updated_at = utc clock })

  unfoldable pub update_preferences : ℕ → RecipientPreferences → Recipient → Result Recipient
  unfolding recipient_post_init
  update_preferences clock preferences r =
      recipient_post_init (record r { preferences = preferences; updated_at = utc clock })

  unfoldable pub set_profile_facts :
      ℕ → Option String → Option String → Recipient → Result Recipient
  unfolding recipient_post_init
  set_profile_facts clock timezone language r =
      recipient_post_init
        (record r { timezone = timezone; language = language; updated_at = utc clock })

  unfoldable pub archive : ℕ → ℕ → Recipient → Result Recipient
  unfolding recipient_post_init
  archive clock clock' r =
      recipient_post_init (record r { archived_at = some (utc clock); updated_at = utc clock' })
