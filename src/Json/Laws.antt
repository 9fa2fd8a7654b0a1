-- ===== src/Json/Laws.antt =====
-- What is written is read back: lists, texts, the parts of a content, and sets in sorted order.
use tiber.Prelude.{
  ◌≡◌, refl, arith, List, [], ◌∷◌, Bool, true, false, not, is_nil, ◌&&◌, every, contains, distinct,
  dedup, String, is_blank,
}
use tiber.Prelude.Eq.{Eq}
use tiber.Prelude.Lists.{dedup_from}
use tiber.Result.{Result, ok}
use tiber.Content.{ContentAction, ContentImage, NotificationContent, make_content}
use tiber.Json.{Json, Codec, write_items, read_items, optional_text}
use tiber.Json.Enums.{insert_by, sort_by}
use tiber.Json.Content.{
  action_to_json, image_to_json, to_dict, label_of, url_of, make_action, make_image, action_of,
  image_of, from_dict, is_accepted,
}

pub read_items-write_items {ℓ} :
    {A : Type ℓ} (read : Json → Result A) (write : A → Json) (p : A → Bool)
    → ((x : A) → p x ≡ true → read (write x) ≡ ok x)
    → (xs : List A) → every p xs ≡ true
    → read_items read (write_items write xs) ≡ ok xs
unfolding read_items write_items
read_items-write_items read write p back [] h = refl
read_items-write_items read write p back (x ∷ xs) h =
    let first : read (write x) ≡ ok x = back x (ground arith) in
    rw (first, read_items-write_items read write p back xs (ground arith)) refl

pub action_of-action_to_json :
    (c : Codec) (a : ContentAction)
    → (not (is_blank a.label) && c.is_url a.url) ≡ true
    → action_of c (action_to_json a) ≡ ok a
unfolding action_of action_to_json label_of url_of make_action
action_of-action_to_json c a h = ground arith

pub image_of-image_to_json :
    (c : Codec) (i : ContentImage) → c.is_url i.url ≡ true → image_of c (image_to_json i) ≡ ok i
unfolding image_of image_to_json url_of make_image optional_text
image_of-image_to_json c i h = ground arith

pub from_dict-to_dict :
    (c : Codec) (n : NotificationContent) → is_accepted c n ≡ true → from_dict c (to_dict n) ≡ ok n
unfolding from_dict to_dict make_content
from_dict-to_dict c n h =
    rw
      (
        read_items-write_items (action_of c) action_to_json _ (action_of-action_to_json c) n.actions
            (ground arith),
        read_items-write_items (image_of c) image_to_json _ (image_of-image_to_json c) n.images
            (ground arith),
      )
      (ground arith)

module _ {ℓ} {A : Type ℓ} ⦃e : Eq A⦄ (value : A → String) where
  contains-insert_by :
      (a b : A) (xs : List A) → contains a (insert_by value b xs) ≡ contains a (b ∷ xs)
  unfolding insert_by
  contains-insert_by a b [] = refl
  contains-insert_by a b (x ∷ xs) = ground (arith, contains-insert_by a b xs)

  -- sorting keeps the members
  pub contains-sort_by : (a : A) (xs : List A) → contains a (sort_by value xs) ≡ contains a xs
  unfolding sort_by
  contains-sort_by a [] = refl
  contains-sort_by a (x ∷ xs) =
      ground (arith, contains-insert_by a x (sort_by value xs), contains-sort_by a xs)

  distinct-insert_by : (b : A) (xs : List A) → distinct (insert_by value b xs) ≡ distinct (b ∷ xs)
  unfolding insert_by
  distinct-insert_by b [] = refl
  distinct-insert_by b (x ∷ xs) =
      ground
        (arith, distinct-insert_by b xs, contains-insert_by x b xs, e.same_iff b x, e.same_iff x b)

  pub distinct-sort_by : (xs : List A) → distinct (sort_by value xs) ≡ distinct xs
  unfolding sort_by
  distinct-sort_by [] = refl
  distinct-sort_by (x ∷ xs) =
      ground
        (arith, distinct-insert_by x (sort_by value xs), contains-sort_by x xs, distinct-sort_by xs)

module _ {ℓ} {A : Type ℓ} ⦃e : Eq A⦄ where
  dedup_from-distinct :
      (seen xs : List A)
      → distinct xs ≡ true
      → ((y : A) → contains y xs ≡ true → contains y seen ≡ false)
      → dedup_from seen xs ≡ xs
  unfolding dedup_from
  dedup_from-distinct seen [] h k = refl
  dedup_from-distinct seen (x ∷ xs) h k =
      let new : contains x seen ≡ false = k x (ground (arith, e.same_iff x x)) in
      let rest : dedup_from (x ∷ seen) xs ≡ xs =
        dedup_from-distinct (x ∷ seen) xs (ground arith)
          (λ y c. ground (arith, e.same_iff y x, k y)) in
      rw (new, rest) refl

  -- a list without repetitions is its own set
  pub dedup-distinct : (xs : List A) → distinct xs ≡ true → dedup xs ≡ xs
  unfolding dedup
  dedup-distinct xs h = dedup_from-distinct [] xs h (λ y c. refl)

pub every-true {ℓ} : {A : Type ℓ} (xs : List A) → every (λ x. true) xs ≡ true
every-true [] = refl
every-true (x ∷ xs) = every-true xs

module _ {ℓ} {A : Type ℓ} (value : A → String) where
  is_nil-insert_by : (a : A) (xs : List A) → is_nil (insert_by value a xs) ≡ false
  unfolding insert_by
  is_nil-insert_by a [] = refl
  is_nil-insert_by a (x ∷ xs) = ground arith

  pub is_nil-sort_by : (xs : List A) → is_nil (sort_by value xs) ≡ is_nil xs
  unfolding sort_by
  is_nil-sort_by [] = refl
  is_nil-sort_by (x ∷ xs) = is_nil-insert_by x (sort_by value xs)
