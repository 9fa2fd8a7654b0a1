-- ===== src/Recipient/Merge.antt =====
-- The dicts of addresses in the resolution of a recipient: what `{**existing, **new}` has where no
-- supplied address contradicts a known one.
use tiber.Prelude.{
  ◌≡◌, refl, ap, sym, ◌∙◌, arith, String, Option, none, some, [], ◌∷◌, Bool, true, false, ◌||◌, not,
  is_none, is_some, is_nil, contains, distinct, if◌then◌else◌, Bool-cases, Option-cases, inl, inr,
  ◌⊎◌,
}
use tiber.Prelude.Eq.{◌==◌, string_eq}
use tiber.Enums.{DeliveryChannel, channel_eq}
use tiber.Recipient.{Addresses, get_address}
use tiber.Recipient.Entity.{channels, put_address, merge_addresses}
use tiber.Recipient.Resolution.{conflicts, new_addresses}

get_address-put :
    (c ch : DeliveryChannel) (value : String) (a : Addresses)
    → get_address c (put_address ch value a) ≡ (if ch == c then some value else get_address c a)
unfolding get_address put_address
get_address-put c ch value [] = refl
get_address-put c ch value ((d, v) ∷ rest) = ground (
  arith,
  get_address-put c ch value rest,
  channel_eq.same_iff d ch,
  channel_eq.same_iff d c,
  channel_eq.same_iff ch c,
)

-- a channel without an address is not among the channels
get_address-none :
    (c : DeliveryChannel) (a : Addresses) → is_some (get_address c a) ≡ contains c (channels a)
unfolding get_address
get_address-none c [] = refl
get_address-none c ((d, v) ∷ rest) =
    ground (arith, get_address-none c rest, channel_eq.same_iff d c, channel_eq.same_iff c d)

-- an address on another channel stays
get_address-merge_old :
    (c : DeliveryChannel) (old new : Addresses)
    → get_address c new ≡ none
    → get_address c (merge_addresses old new) ≡ get_address c old
unfolding merge_addresses get_address
get_address-merge_old c old [] e = refl
get_address-merge_old c old ((d, w) ∷ rest) e =
    ground (arith, get_address-merge_old c (put_address d w old) rest, get_address-put c d w old)

-- an address that is merged in is the one that is found
get_address-merge_new :
    (c : DeliveryChannel) (v : String) (old new : Addresses)
    → distinct (channels new) ≡ true
    → get_address c new ≡ some v
    → get_address c (merge_addresses old new) ≡ some v
unfolding merge_addresses get_address
get_address-merge_new c v old [] h e = ground arith
get_address-merge_new c v old ((d, w) ∷ rest) h e = elim (Bool-cases (d == c)) [
  | inl own ↦
      let absent : get_address c rest ≡ none =
        ground (arith, get_address-none c rest, channel_eq.same_iff d c) in
      ground (
        arith,
        get_address-merge_old c (put_address d w old) rest absent,
        get_address-put c d w old,
      )
  | inr another ↦ get_address-merge_new c v (put_address d w old) rest (ground arith) (ground arith)
]

get_address-new :
    (c : DeliveryChannel) (existing supplied : Addresses)
    → get_address c (new_addresses existing supplied)
      ≡ (if is_none (get_address c existing) then get_address c supplied else none)
unfolding get_address
get_address-new c existing [] = ground arith
get_address-new c existing ((d, v) ∷ rest) =
    ground (arith, get_address-new c existing rest, channel_eq.same_iff d c)

contains-new :
    (c : DeliveryChannel) (existing supplied : Addresses)
    → contains c (channels supplied) ≡ false
    → contains c (channels (new_addresses existing supplied)) ≡ false
contains-new c existing [] h = refl
contains-new c existing ((d, v) ∷ rest) h = ground (arith, contains-new c existing rest)

distinct-new :
    (existing supplied : Addresses)
    → distinct (channels supplied) ≡ true
    → distinct (channels (new_addresses existing supplied)) ≡ true
distinct-new existing [] h = refl
distinct-new existing ((d, v) ∷ rest) h =
    ground (arith, distinct-new existing rest, contains-new d existing rest)

-- the address that is known, if any
abbrev agreeing : Option String → String → Bool
agreeing none value = true
agreeing (some v) value = v == value

known_here :
    (c : DeliveryChannel) (v : String) (existing : Addresses)
    → agreeing (get_address c existing) v ≡ true
    → (get_address c existing ≡ none) ⊎ (get_address c existing ≡ some v)
known_here c v existing h = elim (Option-cases (get_address c existing)) [
  | inl missing ↦ inl missing
  | inr (u, known) ↦
      let same : (u == v) ≡ true = sym (ap (λ o. agreeing o v) known) ∙ h in
      inr (known ∙ ap some ((string_eq.same_iff u v).0 same))
]

agreeing_of :
    (o : Option String) (w : String) (others : Bool)
    → (elim o [ none ↦ others | some u ↦ not (u == w) || others ]) ≡ false
    → agreeing o w ≡ true
agreeing_of none w others h = refl
agreeing_of (some u) w others h = ground arith

agrees :
    (existing : Addresses) (d : DeliveryChannel) (w : String) (rest : Addresses)
    {c : DeliveryChannel} {v : String}
    → conflicts existing ((d, w) ∷ rest) ≡ false
    → d ≡ c
    → w ≡ v
    → agreeing (get_address c existing) v ≡ true
agrees existing d w rest {c} {v} h e k =
    let here : agreeing (get_address d existing) w ≡ true =
      agreeing_of (get_address d existing) w (conflicts existing rest) h in
    ap (λ x. agreeing (get_address x existing) v) (sym e)
    ∙ ap (agreeing (get_address d existing)) (sym k)
    ∙ here

-- without a conflict a supplied address is new, or the one that is known
known_or_new :
    (c : DeliveryChannel) (v : String) (existing supplied : Addresses)
    → conflicts existing supplied ≡ false
    → get_address c supplied ≡ some v
    → (get_address c existing ≡ none) ⊎ (get_address c existing ≡ some v)
unfolding get_address
known_or_new c v existing [] h e = ground arith
known_or_new c v existing ((d, w) ∷ rest) h e = elim (Bool-cases (d == c)) [
  | inl own ↦
      let same : d ≡ c = (channel_eq.same_iff d c).0 own in
      let value : w ≡ v = ground arith in
      known_here c v existing (agrees existing d w rest h same value)
  | inr another ↦ known_or_new c v existing rest (ground arith) (ground arith)
]

get_address-nil : (c : DeliveryChannel) (a : Addresses) → is_nil a ≡ true → get_address c a ≡ none
unfolding get_address
get_address-nil c [] h = refl
get_address-nil c (x ∷ rest) h = absurd (ground arith)

-- the merged book has each supplied address
pub merged-covers :
    (existing supplied : Addresses)
    → conflicts existing supplied ≡ false
    → distinct (channels supplied) ≡ true
    → (c : DeliveryChannel) (a : String) → get_address c supplied ≡ some a
    → get_address c (merge_addresses existing (new_addresses existing supplied)) ≡ some a
merged-covers existing supplied free once c a given =
    elim (known_or_new c a existing supplied free given) [
      | inl missing ↦
          get_address-merge_new c a existing (new_addresses existing supplied)
            (distinct-new existing supplied once)
            (get_address-new c existing supplied
              ∙ ap (λ o. if is_none o then get_address c supplied else none) missing
              ∙ given)
      | inr known ↦
          get_address-merge_old c existing (new_addresses existing supplied) (
            get_address-new c existing supplied
            ∙ ap (λ o. if is_none o then get_address c supplied else none) known)
          ∙ known
    ]

-- without a new address the known ones cover
pub known-covers :
    (existing supplied : Addresses)
    → is_nil (new_addresses existing supplied) ≡ true
    → conflicts existing supplied ≡ false
    → (c : DeliveryChannel) (a : String) → get_address c supplied ≡ some a
    → get_address c existing ≡ some a
known-covers existing supplied nothing free c a given =
    elim (known_or_new c a existing supplied free given) [
      | inl missing ↦
          let nowhere : some a ≡ none =
            sym given
            ∙ ap (λ o. if is_none o then get_address c supplied else none) (sym missing)
            ∙ sym (get_address-new c existing supplied)
            ∙ get_address-nil c (new_addresses existing supplied) nothing in
          absurd (ground arith)
      | inr known ↦ known
    ]
