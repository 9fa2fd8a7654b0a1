-- ===== src/Intake/Plan/Channels.antt =====
-- The channels of a plan (backend/src/tiber/domain/services/plan_assembly.py).
use tiber.Prelude.{
  ℕ, ◌≤◌, ◌≡◌, refl, Option, List, [], ◌∷◌, Bool, true, false, ◌||◌, is_nil, contains, keep, dedup,
  distinct, every, length, arith, if◌then◌else◌, ◌∙◌, ap,
}
use tiber.Prelude.Eq.{◌==◌}
use tiber.Prelude.Sets.{
  every-keep, every-take, every-dedup, length-take_le, distinct-take, distinct-dedup,
}
use tiber.Enums.{DeliveryChannel, email, push, sms, in_app, channel_eq}
use tiber.Intake.{DecisionConstraints, MlSuggestion}
use tiber.Intake.Plan.{
  insert_channel, sort_channels, conforming, default_channels, suggested_channels,
}

contains-insert :
    (a c : DeliveryChannel) (cs : List DeliveryChannel)
    → contains a (insert_channel c cs) ≡ (a == c || contains a cs)
unfolding insert_channel
contains-insert a c [] = refl
contains-insert a c (d ∷ ds) = ground (arith, contains-insert a c ds)

pub contains-sort :
    (a : DeliveryChannel) (cs : List DeliveryChannel)
    → contains a (sort_channels cs) ≡ contains a cs
unfolding sort_channels
contains-sort a [] = refl
contains-sort a (c ∷ cs) =
    contains-insert a c (sort_channels cs) ∙ ap (λ b. a == c || b) (contains-sort a cs)

distinct-insert :
    (c : DeliveryChannel) (cs : List DeliveryChannel)
    → contains c cs ≡ false
    → distinct cs ≡ true
    → distinct (insert_channel c cs) ≡ true
unfolding insert_channel
distinct-insert c [] h d = refl
distinct-insert c (x ∷ xs) h d = ground (arith, distinct-insert c xs, contains-insert x c xs)

pub distinct-sort :
    (cs : List DeliveryChannel) → distinct cs ≡ true → distinct (sort_channels cs) ≡ true
unfolding sort_channels
distinct-sort [] h = refl
distinct-sort (c ∷ cs) h =
    distinct-insert c (sort_channels cs) (contains-sort c cs ∙ ground arith)
      (distinct-sort cs (ground arith))

is_nil-insert :
    (c : DeliveryChannel) (cs : List DeliveryChannel) → is_nil (insert_channel c cs) ≡ false
unfolding insert_channel
is_nil-insert c [] = refl
is_nil-insert c (d ∷ ds) = ground arith

pub is_nil-sort : (cs : List DeliveryChannel) → is_nil (sort_channels cs) ≡ is_nil cs
unfolding sort_channels
is_nil-sort [] = refl
is_nil-sort (c ∷ cs) = is_nil-insert c (sort_channels cs)

-- What a choice of channels promises: at least one, none twice, all feasible, at most so many.
pub record IsChoice (feasible : List DeliveryChannel) (limit : ℕ) (chosen : List DeliveryChannel)
    : Type 0 where
  pub nonempty : is_nil chosen ≡ false
  pub unique : distinct chosen ≡ true
  pub within : every (λ c. contains c feasible) chosen ≡ true
  pub at_most : length chosen ≤ limit

pub conforming-IsChoice :
    (k : DecisionConstraints) (s : Option MlSuggestion)
    → is_nil (conforming k s) ≡ false
    → IsChoice k.feasible_channels k.max_channels (conforming k s)
unfolding conforming
conforming-IsChoice k s h =
    let feasible : DeliveryChannel → Bool = λ c. contains c k.feasible_channels in
    let suggested : List DeliveryChannel = dedup (keep feasible (suggested_channels s)) in
    record {
      nonempty = h;
      unique =
          distinct-take k.max_channels suggested
            (distinct-dedup (keep feasible (suggested_channels s)));
      within = every-take feasible k.max_channels suggested (
          every-dedup feasible (keep feasible (suggested_channels s))
            (every-keep feasible (suggested_channels s)));
      at_most = length-take_le k.max_channels suggested;
    }

some_feasible :
    (cs : List DeliveryChannel)
    → is_nil cs ≡ false
    → (contains in_app cs || contains push cs || contains email cs || contains sms cs) ≡ true
some_feasible [] h = ground arith
some_feasible (in_app ∷ cs) h = ground arith
some_feasible (push ∷ cs) h = ground arith
some_feasible (email ∷ cs) h = ground arith
some_feasible (sms ∷ cs) h = ground arith

-- in-app, else push, else e-mail, else text message
abbrev pub cheapest : List DeliveryChannel → DeliveryChannel
cheapest feasible =
    if contains in_app feasible
    then in_app
    else if contains push feasible
    then push
    else if contains email feasible
    then email
    else sms

-- Where some channel is feasible, the default is the one cheapest feasible channel: in-app, else
-- push, else e-mail, else text message.
default_channels-eq-cheapest :
    (k : DecisionConstraints)
    → is_nil k.feasible_channels ≡ false
    → default_channels k ≡ cheapest k.feasible_channels ∷ []
unfolding default_channels
default_channels-eq-cheapest k h = ground (arith, some_feasible k.feasible_channels)

pub cheapest-feasible :
    (feasible : List DeliveryChannel)
    → is_nil feasible ≡ false
    → contains (cheapest feasible) feasible ≡ true
cheapest-feasible feasible h = ground (arith, some_feasible feasible)

pub default_channels-IsChoice :
    (k : DecisionConstraints)
    → is_nil k.feasible_channels ≡ false
    → IsChoice k.feasible_channels 1 (default_channels k)
default_channels-IsChoice k h = rw (default_channels-eq-cheapest k h) (record {
  nonempty = refl;
  unique = refl;
  within = ground (arith, cheapest-feasible k.feasible_channels);
  at_most = omega arith;
})
