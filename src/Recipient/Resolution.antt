-- ===== src/Recipient/Resolution.antt =====
-- The recipient of a request (backend/src/tiber/application/services/recipient_resolution.py).
-- What other transactions commit between the reads and the write of a pass is a function of how
-- many passes are left after it.
use tiber.Prelude.{
  ℕ, zero, suc, String, Option, none, some, List, [], ◌∷◌, Bool, false, ◌||◌, not, is_nil, is_none,
  if◌then◌else◌,
}
use tiber.Prelude.Eq.{◌==◌, nat_eq, string_eq}
use tiber.Enums.{channel_eq}
use tiber.Result.{
  Result, ok, err, raise_if, ◌>>=◌, ◌>>◌, value_error, entity_not_found, a_recipient,
  recipient_address_taken, ambiguous_recipient, address_conflict,
}
use tiber.Recipient.{Recipient, Addresses, get_address}
use tiber.Recipient.Entity.{
  Locale, normalize_addresses, create_recipient, update_addresses, merge_addresses,
}
use tiber.Recipient.Book.{
  Book, add_recipient, save_recipient, get_by_external_id, find_by_addresses,
}

pub record Resolver : Type 0 where
  pub locale : Locale
  -- whether the database has the unique indexes for addresses
  pub address_index : Bool
  -- the book when a pass writes, where it read another
  pub between : ℕ → Book → Book
  pub clock : ℕ
  pub new_id : ℕ

-- `ch in existing.addresses and existing.addresses[ch] != addr` for one of them
abbrev pub conflicts : Addresses → Addresses → Bool
conflicts existing [] = false
conflicts existing ((ch, value) ∷ rest) =
    let others = conflicts existing rest in
    elim (get_address ch existing) [ none ↦ others | some v ↦ not (v == value) || others ]

-- the supplied channels that the recipient lacks
abbrev pub new_addresses : Addresses → Addresses → Addresses
new_addresses existing [] = []
new_addresses existing ((ch, value) ∷ rest) =
    let others = new_addresses existing rest in
    if is_none (get_address ch existing) then (ch, value) ∷ others else others

-- `matches`, a dict by id
abbrev pub by_id : List Recipient → List Recipient
by_id [] = []
by_id (r ∷ rest) = r ∷ without_id r.id (by_id rest)
  where
    without_id : ℕ → List Recipient → List Recipient
    without_id id [] = []
    without_id id (r' ∷ rest') =
        let others = without_id id rest' in if r'.id == id then others else r' ∷ others

module _ (v : Resolver) where
  -- an address that was taken meanwhile
  abbrev pub saved_or_ambiguous : Recipient → Result Book → Result (Recipient × Book)
  saved_or_ambiguous r (ok book) = ok (r, book)
  saved_or_ambiguous r (err recipient_address_taken) = err ambiguous_recipient
  saved_or_ambiguous r (err e) = err e

  -- `_extend`
  unfoldable pub extend : Recipient → Addresses → Book → Result (Recipient × Book)
  unfolding update_addresses merge_addresses save_recipient
  extend existing supplied book = do
    raise_if (conflicts existing.addresses supplied) address_conflict
    if is_nil (new_addresses existing.addresses supplied) then ok (existing, book) else do
      updated ←
          update_addresses v.locale v.clock
            (merge_addresses existing.addresses (new_addresses existing.addresses supplied))
            existing
      saved_or_ambiguous updated (save_recipient v.locale v.address_index updated book)

  -- after the insert of a new recipient: another pass if its address was taken
  abbrev pub added_or_next :
      Recipient → Result (Recipient × Book) → Result Book → Result (Recipient × Book)
  added_or_next r next (ok book) = ok (r, book)
  added_or_next r next (err recipient_address_taken) = next
  added_or_next r next (err e) = err e

  -- one pass on what was found
  abbrev pub on_matches :
      ℕ → Addresses → Result (Recipient × Book) → Book → List Recipient → Result (Recipient × Book)
  on_matches project supplied next book [] = do
    r ← create_recipient v.locale v.clock v.new_id project supplied
    added_or_next r next (add_recipient v.locale v.address_index r book)
  on_matches project supplied next book (r ∷ []) = extend r supplied book
  on_matches project supplied next book (_ ∷ _ ∷ _) = err ambiguous_recipient

  -- the passes that are left; a pass that lost the race leaves the book as it found it
  unfoldable pub resolve_passes : ℕ → ℕ → Addresses → Book → Result (Recipient × Book)
  unfolding extend find_by_addresses create_recipient add_recipient
  resolve_passes zero project supplied book = err ambiguous_recipient
  resolve_passes (suc left) project supplied book =
      let written = v.between left book in
      let next = resolve_passes left project supplied written in
      do
        found ← find_by_addresses v.locale v.address_index project supplied book
        on_matches project supplied next written (by_id found)

  -- `_resolve_adhoc`
  unfoldable pub resolve_adhoc : ℕ → Addresses → Book → Result (Recipient × Book)
  unfolding resolve_passes normalize_addresses
  resolve_adhoc project addresses book = do
    raise_if (is_nil addresses) value_error
    resolve_passes 2 project (normalize_addresses v.locale addresses) book

  abbrev pub registered : Book → Option Recipient → Result (Recipient × Book)
  registered book none = err (entity_not_found a_recipient)
  registered book (some r) = ok (r, book)

  -- `resolve`
  unfoldable pub resolve_recipient :
      ℕ → Option String → Addresses → Book → Result (Recipient × Book)
  unfolding resolve_adhoc get_by_external_id
  resolve_recipient project none addresses book = resolve_adhoc project addresses book
  resolve_recipient project (some external_id) addresses book = do
    raise_if (not (is_nil addresses)) value_error
    found ← get_by_external_id v.locale v.address_index external_id project book
    registered book found
