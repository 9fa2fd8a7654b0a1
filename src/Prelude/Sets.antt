-- ===== src/Prelude/Sets.antt =====
-- The laws of the lists that stand for Python's sequences and sets.
use Prim.Native.Nat.{ℕ, zero, suc, ◌≤◌, ◌<◌}
use mathlib.Core.Path.{◌≡◌, refl}
use mathlib.Core.Bool.{Bool, true, false, ◌&&◌, not}
use mathlib.Core.List.{List, [], ◌∷◌}
use native.Mathlib.Omega.{arith}
use tiber.Prelude.Eq.{Eq}
use tiber.Prelude.Lists.{length, take, is_nil, keep, every, contains, dedup_from, dedup, distinct}

module _ {ℓ} {A : Type ℓ} (p : A → Bool) where
  pub every-keep : (xs : List A) → every p (keep p xs) ≡ true
  every-keep [] = refl
  every-keep (x ∷ xs) = ground (arith, every-keep xs)

  pub every-keep_of_every :
      (q : A → Bool) (xs : List A) → every p xs ≡ true → every p (keep q xs) ≡ true
  every-keep_of_every q [] h = refl
  every-keep_of_every q (x ∷ xs) h = ground (arith, every-keep_of_every q xs)

  pub every-take : (n : ℕ) (xs : List A) → every p xs ≡ true → every p (take n xs) ≡ true
  every-take zero xs h = refl
  every-take (suc n) [] h = refl
  every-take (suc n) (x ∷ xs) h = ground (arith, every-take n xs)

module _ {ℓ} {A : Type ℓ} where
  pub every-imp :
      (p q : A → Bool) (xs : List A)
      → ((x : A) → p x ≡ true → q x ≡ true)
      → every p xs ≡ true
      → every q xs ≡ true
  every-imp p q [] f h = refl
  every-imp p q (x ∷ xs) f h = ground (arith, every-imp p q xs f, f x)

  pub every-not_of_keep_nil :
      (p : A → Bool) (xs : List A) → is_nil (keep p xs) ≡ true → every (λ x. not (p x)) xs ≡ true
  every-not_of_keep_nil p [] h = refl
  every-not_of_keep_nil p (x ∷ xs) h = ground (arith, every-not_of_keep_nil p xs)

  pub every-and :
      (p q : A → Bool) (xs : List A)
      → every p xs ≡ true
      → every q xs ≡ true
      → every (λ x. p x && q x) xs ≡ true
  every-and p q [] h k = refl
  every-and p q (x ∷ xs) h k = ground (arith, every-and p q xs)

  pub length_pos : (xs : List A) → is_nil xs ≡ false → 1 ≤ length xs
  length_pos [] h = ground arith
  length_pos (x ∷ xs) h = omega arith

  pub is_nil-take : (n : ℕ) (xs : List A) → 0 < n → is_nil (take n xs) ≡ is_nil xs
  is_nil-take zero xs h = absurd (omega arith)
  is_nil-take (suc n) [] h = refl
  is_nil-take (suc n) (x ∷ xs) h = refl

  pub length-take_le : (n : ℕ) (xs : List A) → length (take n xs) ≤ n
  length-take_le zero xs = omega arith
  length-take_le (suc n) [] = omega arith
  length-take_le (suc n) (x ∷ xs) = omega (arith, length-take_le n xs)

  pub length-take_le_length : (n : ℕ) (xs : List A) → length (take n xs) ≤ length xs
  length-take_le_length zero xs = omega arith
  length-take_le_length (suc n) [] = omega arith
  length-take_le_length (suc n) (x ∷ xs) = omega (arith, length-take_le_length n xs)

  -- nothing fails a test that everything passes, and back
  pub every_of_keep_nil :
      (p : A → Bool) (xs : List A) → is_nil (keep (λ x. not (p x)) xs) ≡ true → every p xs ≡ true
  every_of_keep_nil p [] h = refl
  every_of_keep_nil p (x ∷ xs) h = ground (arith, every_of_keep_nil p xs)

module _ {ℓ} {A : Type ℓ} ⦃e : Eq A⦄ where
  pub contains-every :
      (p : A → Bool) (a : A) (xs : List A) → every p xs ≡ true → contains a xs ≡ true → p a ≡ true
  contains-every p a [] h c = ground arith
  contains-every p a (x ∷ xs) h c = ground (arith, contains-every p a xs, e.same_iff a x)

  pub every_of_contains :
      (p : A → Bool) (xs : List A)
      → ((x : A) → contains x xs ≡ true → p x ≡ true)
      → every p xs ≡ true
  every_of_contains p [] h = refl
  every_of_contains p (x ∷ xs) h =
      let first : p x ≡ true = h x (ground (arith, e.same_iff x x)) in
      let rest : every p xs ≡ true = every_of_contains p xs (λ y c. h y (ground arith)) in
      ground arith

  pub every-contains_self : (xs : List A) → every (λ x. contains x xs) xs ≡ true
  every-contains_self xs = every_of_contains (λ x. contains x xs) xs (λ x c. c)

  not-contains-take :
      (a : A) (n : ℕ) (xs : List A) → contains a xs ≡ false → contains a (take n xs) ≡ false
  not-contains-take a zero xs h = refl
  not-contains-take a (suc n) [] h = refl
  not-contains-take a (suc n) (x ∷ xs) h = ground (arith, not-contains-take a n xs)

  pub distinct-take : (n : ℕ) (xs : List A) → distinct xs ≡ true → distinct (take n xs) ≡ true
  distinct-take zero xs h = refl
  distinct-take (suc n) [] h = refl
  distinct-take (suc n) (x ∷ xs) h = ground (arith, distinct-take n xs, not-contains-take x n xs)

  pub not-contains-keep :
      (a : A) (p : A → Bool) (xs : List A) → contains a xs ≡ false → contains a (keep p xs) ≡ false
  not-contains-keep a p [] h = refl
  not-contains-keep a p (x ∷ xs) h = ground (arith, not-contains-keep a p xs)

  pub distinct-keep :
      (p : A → Bool) (xs : List A) → distinct xs ≡ true → distinct (keep p xs) ≡ true
  distinct-keep p [] h = refl
  distinct-keep p (x ∷ xs) h = ground (arith, distinct-keep p xs, not-contains-keep x p xs)

  -- what was seen does not come again
  contains-dedup_from :
      (a : A) (seen xs : List A)
      → contains a (dedup_from seen xs) ≡ (contains a xs && not (contains a seen))
  unfolding dedup_from
  contains-dedup_from a seen [] = refl
  contains-dedup_from a seen (x ∷ xs) =
      ground
        (arith, contains-dedup_from a seen xs, contains-dedup_from a (x ∷ seen) xs, e.same_iff a x)

  distinct-dedup_from : (seen xs : List A) → distinct (dedup_from seen xs) ≡ true
  unfolding dedup_from
  distinct-dedup_from seen [] = refl
  distinct-dedup_from seen (x ∷ xs) = ground (
    arith,
    distinct-dedup_from seen xs,
    distinct-dedup_from (x ∷ seen) xs,
    contains-dedup_from x (x ∷ seen) xs,
    e.same_iff x x,
  )

  pub contains-dedup : (a : A) (xs : List A) → contains a (dedup xs) ≡ contains a xs
  unfolding dedup
  contains-dedup a xs = ground (arith, contains-dedup_from a [] xs)

  pub distinct-dedup : (xs : List A) → distinct (dedup xs) ≡ true
  unfolding dedup
  distinct-dedup xs = distinct-dedup_from [] xs

  pub is_nil-dedup : (xs : List A) → is_nil (dedup xs) ≡ is_nil xs
  unfolding dedup dedup_from
  is_nil-dedup [] = refl
  is_nil-dedup (x ∷ xs) = refl

  every-dedup_from :
      (p : A → Bool) (seen xs : List A) → every p xs ≡ true → every p (dedup_from seen xs) ≡ true
  unfolding dedup_from
  every-dedup_from p seen [] h = refl
  every-dedup_from p seen (x ∷ xs) h =
      ground (arith, every-dedup_from p seen xs, every-dedup_from p (x ∷ seen) xs)

  pub every-dedup : (p : A → Bool) (xs : List A) → every p xs ≡ true → every p (dedup xs) ≡ true
  unfolding dedup
  every-dedup p xs h = every-dedup_from p [] xs h
