-- ===== src/Recipient/Owners.antt =====
-- Whose addresses a resolved recipient has: those of the request, and the ones it had before.
use tiber.Prelude.{
  ◌≡◌, refl, ap, sym, ◌∙◌, arith, ℕ, zero, suc, String, some, List, [], ◌∷◌, Bool, true, false,
  is_nil, distinct, if◌then◌else◌, Bool-cases, inl, inr,
}
use tiber.Prelude.Eq.{string_eq}
use tiber.Enums.{DeliveryChannel, channel_eq}
use tiber.Result.{
  Result, ok, err, recipient_address_taken, ◌>>=◌, >>=-eq-ok, ok-injective, raise_if,
  address_conflict,
}
use tiber.Recipient.{Recipient, Addresses, get_address}
use tiber.Recipient.Entity.{
  channels, merge_addresses, recipient_post_init, create_recipient, update_addresses,
}
use tiber.Recipient.Book.{Book, add_recipient, save_recipient, find_by_addresses}
use tiber.Recipient.Resolution.{
  Resolver, conflicts, new_addresses, by_id, saved_or_ambiguous, extend, added_or_next, on_matches,
  resolve_passes,
}
use tiber.Recipient.Merge.{merged-covers, known-covers}

-- What a resolved recipient has of the addresses that were supplied: all of them.
abbrev pub Covers : Addresses → Recipient → Type 0
Covers supplied r =
    (c : DeliveryChannel) (a : String)
    → get_address c supplied ≡ some a
    → get_address c r.addresses ≡ some a

module _ (v : Resolver) where
  update_addresses-eq :
      (addresses : Addresses) (r r' : Recipient)
      → update_addresses v.locale v.clock addresses r ≡ ok r'
      → r'.addresses ≡ addresses
  unfolding update_addresses recipient_post_init
  update_addresses-eq addresses r r' e = ground arith

  create_recipient-eq :
      (id project : ℕ) (addresses : Addresses) (r : Recipient)
      → create_recipient v.locale v.clock id project addresses ≡ ok r
      → r.addresses ≡ addresses
  unfolding create_recipient recipient_post_init
  create_recipient-eq id project addresses r e = ground arith

  saved-eq :
      (r : Recipient) (x : Result Book) (r' : Recipient) (book : Book)
      → saved_or_ambiguous v r x ≡ ok (r', book)
      → r' ≡ r
  saved-eq r (ok b) r' book e = sym (ap (λ y. y.0) (ok-injective e))
  saved-eq r (err recipient_address_taken) r' book e = absurd (ground arith)
  saved-eq r (err x) r' book e = absurd (ground arith)

  extended :
      (existing : Recipient) (supplied : Addresses) (book book' : Book) (r : Recipient) (b : Bool)
      → is_nil (new_addresses existing.addresses supplied) ≡ b
      → conflicts existing.addresses supplied ≡ false
      → distinct (channels supplied) ≡ true
      → (if b then ok (existing, book) else do
        updated ←
            update_addresses v.locale v.clock
              (merge_addresses existing.addresses (new_addresses existing.addresses supplied))
              existing
        saved_or_ambiguous v updated (save_recipient v.locale v.address_index updated book))
        ≡ ok (r, book')
      → Covers supplied r
  extended existing supplied book book' r true nothing free once e c a given =
      ap (λ y. get_address c y.0.addresses) (sym (ok-injective e))
      ∙ known-covers existing.addresses supplied nothing free c a given
  extended existing supplied book book' r false some_new free once e c a given =
      let (updated, done, saved) =
        >>=-eq-ok
          (update_addresses v.locale v.clock
            (merge_addresses existing.addresses (new_addresses existing.addresses supplied))
            existing)
          _ e in
      let same : r ≡ updated =
        saved-eq updated (save_recipient v.locale v.address_index updated book) r book' saved in
      ap (λ y. get_address c y.addresses) same
      ∙ ap (get_address c) (update_addresses-eq _ existing updated done)
      ∙ merged-covers existing.addresses supplied free once c a given

  extend-Covers :
      (existing : Recipient) (supplied : Addresses) (book book' : Book) (r : Recipient)
      → distinct (channels supplied) ≡ true
      → extend v existing supplied book ≡ ok (r, book')
      → Covers supplied r
  unfolding extend
  extend-Covers existing supplied book book' r once e =
      elim (Bool-cases (conflicts existing.addresses supplied)) [
        | inl clash ↦ absurd (ground arith)
        | inr free ↦
            let (_, _, rest) =
              >>=-eq-ok (raise_if (conflicts existing.addresses supplied) address_conflict) _ e in
            extended existing supplied book book' r
              (is_nil (new_addresses existing.addresses supplied)) refl free once rest
      ]

  added-Covers :
      (made : Recipient) (supplied : Addresses) (next : Result (Recipient × Book)) (x : Result Book)
      (r : Recipient) (book' : Book)
      → made.addresses ≡ supplied
      → (next ≡ ok (r, book') → Covers supplied r)
      → added_or_next v made next x ≡ ok (r, book')
      → Covers supplied r
  added-Covers made supplied next (ok b) r book' own h e = λ c a given.
      ap (λ y. get_address c y.0.addresses) (sym (ok-injective e)) ∙ ap (get_address c) own ∙ given
  added-Covers made supplied next (err recipient_address_taken) r book' own h e = h e
  added-Covers made supplied next (err x) r book' own h e = absurd (ground arith)

  on_matches-Covers :
      (project : ℕ) (supplied : Addresses) (next : Result (Recipient × Book)) (book : Book)
      (found : List Recipient) (r : Recipient) (book' : Book)
      → distinct (channels supplied) ≡ true
      → (next ≡ ok (r, book') → Covers supplied r)
      → on_matches v project supplied next book found ≡ ok (r, book')
      → Covers supplied r
  on_matches-Covers project supplied next book [] r book' once h e =
      let (made, created, rest) =
        >>=-eq-ok (create_recipient v.locale v.clock v.new_id project supplied) _ e in
      added-Covers made supplied next (add_recipient v.locale v.address_index made book) r book'
        (create_recipient-eq v.new_id project supplied made created) h rest
  on_matches-Covers project supplied next book (x ∷ []) r book' once h e =
      extend-Covers x supplied book book' r once e
  on_matches-Covers project supplied next book (x ∷ y ∷ xs) r book' once h e = absurd (ground arith)

  -- The recipient to which a request is resolved by its addresses has every address of it. The
  -- request has one address for a channel; how many passes are left, and what other transactions
  -- do between them, is open.
  pub resolve_passes-Covers :
      (passes project : ℕ) (supplied : Addresses) (book : Book) (r : Recipient) (book' : Book)
      → distinct (channels supplied) ≡ true
      → resolve_passes v passes project supplied book ≡ ok (r, book')
      → Covers supplied r
  unfolding resolve_passes
  resolve_passes-Covers zero project supplied book r book' once e = absurd (ground arith)
  resolve_passes-Covers (suc left) project supplied book r book' once e =
      let written = v.between left book in
      let (found, read, rest) =
        >>=-eq-ok (find_by_addresses v.locale v.address_index project supplied book) _ e in
      on_matches-Covers project supplied (resolve_passes v left project supplied written) written
        (by_id found) r book' once
        (resolve_passes-Covers left project supplied written r book' once) rest
