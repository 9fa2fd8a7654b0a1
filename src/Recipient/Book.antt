-- ===== src/Recipient/Book.antt =====
-- The recipients of the database
-- (backend/src/tiber/infrastructure/repositories/sqlalchemy_recipient_repository.py), a list of rows
-- in the order of `created_at, id`. The adapter expects a unique index for the addresses of each
-- channel; `address_index` says whether the database has them.
use tiber.Prelude.{
  ℕ, String, Option, none, some, List, [], ◌∷◌, Bool, false, ◌&&◌, ◌||◌, not, is_none,
  if◌then◌else◌, keep,
}
use tiber.Prelude.Eq.{◌==◌, nat_eq, string_eq}
use tiber.Enums.{DeliveryChannel, channel_eq}
use tiber.Result.{Result, ok, err, ◌>>=◌, recipient_address_taken, other}
use tiber.Time.{DateTime}
use tiber.Recipient.{Recipient, Addresses, get_address}
use tiber.Recipient.Entity.{Locale, normalize_addresses, recipient_post_init, default_preferences}

-- `RecipientModel`: no column for the preferences
pub record RecipientRow : Type 0 where
  pub id : ℕ
  pub project_id : ℕ
  pub external_id : Option String
  pub addresses : Addresses
  pub timezone : Option String
  pub language : Option String
  pub created_at : DateTime
  pub updated_at : DateTime
  pub archived_at : Option DateTime

abbrev pub Book : Type 0
Book = List RecipientRow

-- the row has that address on that channel
abbrev pub has_address : DeliveryChannel → String → Addresses → Bool
has_address ch value addresses = elim (get_address ch addresses) [
  | none ↦ false
  | some v ↦ v == value
]

-- the two have an address in common
abbrev pub shares : Addresses → Addresses → Bool
shares [] addresses = false
shares ((ch, value) ∷ rest) addresses = has_address ch value addresses || shares rest addresses

-- an active recipient of the project with one of the addresses
abbrev pub owns : ℕ → Addresses → RecipientRow → Bool
owns project addresses r =
    (r.project_id == project) && is_none r.archived_at && shares addresses r.addresses

-- a row that a write of this one clashes with, by the address index
abbrev pub clashes : RecipientRow → RecipientRow → Bool
clashes r r' = not (r'.id == r.id) && is_none r.archived_at && owns r.project_id r.addresses r'

-- and by the other unique constraints
abbrev pub same_external : Option String → Option String → Bool
same_external (some a) (some b) = a == b
same_external _ _ = false

abbrev pub clashes_external : RecipientRow → RecipientRow → Bool
clashes_external r r' =
    not (r'.id == r.id)
    && (r'.project_id == r.project_id)
    && same_external r'.external_id r.external_id

abbrev pub has_some : (RecipientRow → Bool) → Book → Bool
has_some p [] = false
has_some p (r ∷ rest) = p r || has_some p rest

abbrev pub first_row : (RecipientRow → Bool) → Book → Option RecipientRow
first_row p [] = none
first_row p (r ∷ rest) = let later = first_row p rest in if p r then some r else later

-- `merge` and `flush`
unfoldable pub put_row : RecipientRow → Book → Book
put_row r [] = r ∷ []
put_row r (r' ∷ rest) =
    let others = put_row r rest in if r'.id == r.id then r ∷ rest else r' ∷ others

module _ (l : Locale) (address_index : Bool) where
  -- `_to_model`
  unfoldable pub to_model : Recipient → RecipientRow
  unfolding normalize_addresses
  to_model r = record {
    id = r.id;
    project_id = r.project_id;
    external_id = r.external_id;
    addresses = normalize_addresses l r.addresses;
    timezone = r.timezone;
    language = r.language;
    created_at = r.created_at;
    updated_at = r.updated_at;
    archived_at = r.archived_at;
  }

  -- `_to_entity`: the preferences are the default ones
  unfoldable pub to_recipient : RecipientRow → Result Recipient
  unfolding recipient_post_init
  to_recipient r = recipient_post_init l (record {
    id = r.id;
    project_id = r.project_id;
    addresses = r.addresses;
    preferences = default_preferences;
    external_id = r.external_id;
    timezone = r.timezone;
    language = r.language;
    created_at = r.created_at;
    updated_at = r.updated_at;
    archived_at = r.archived_at;
  })

  -- `_write`, with the rows of another id that the write would clash with
  abbrev pub write_row : RecipientRow → Book → Book → Result Book
  write_row r written book =
      if address_index && has_some (clashes r) book
      then err recipient_address_taken
      else if has_some (clashes_external r) book
      then err other
      else ok written

  unfoldable pub add_recipient : Recipient → Book → Result Book
  unfolding to_model put_row
  add_recipient r book =
      if has_some (λ r'. r'.id == r.id) book
      then err other
      else write_row (to_model r) (put_row (to_model r) book) book

  unfoldable pub save_recipient : Recipient → Book → Result Book
  unfolding to_model put_row
  save_recipient r book = write_row (to_model r) (put_row (to_model r) book) book

  abbrev pub recipient_of : Option RecipientRow → Result (Option Recipient)
  recipient_of none = ok none
  recipient_of (some r) = to_recipient r >>= λ e. ok (some e)

  abbrev pub recipients_of : Book → Result (List Recipient)
  recipients_of [] = ok []
  recipients_of (r ∷ rest) = do e ← to_recipient r; es ← recipients_of rest; ok (e ∷ es)

  abbrev pub of_id : ℕ → ℕ → Option RecipientRow → Option RecipientRow
  of_id id project none = none
  of_id id project (some r) = if r.project_id == project then some r else none

  -- `get_by_id`
  unfoldable pub get_recipient : ℕ → ℕ → Book → Result (Option Recipient)
  unfolding to_recipient
  get_recipient id project book = recipient_of (of_id id project (first_row (λ r. r.id == id) book))

  unfoldable pub get_by_external_id : String → ℕ → Book → Result (Option Recipient)
  unfolding to_recipient
  get_by_external_id external_id project book = recipient_of (
      first_row (λ r. r.project_id == project && same_external r.external_id (some external_id))
        book)

  unfoldable pub find_by_addresses : ℕ → Addresses → Book → Result (List Recipient)
  unfolding to_recipient
  find_by_addresses project addresses book = recipients_of (keep (owns project addresses) book)

  abbrev pub first_recipient : List Recipient → Option Recipient
  first_recipient [] = none
  first_recipient (r ∷ _) = some r

  unfoldable pub get_by_address : ℕ → DeliveryChannel → String → Book → Result (Option Recipient)
  unfolding find_by_addresses
  get_by_address project ch address book = do
    found ← find_by_addresses project ((ch, address) ∷ []) book
    ok (first_recipient found)
