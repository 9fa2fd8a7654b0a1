-- ===== src/Intake/Plan/Assembly.antt =====
-- A plan is always assembled, whatever the model suggests, and lies within the constraints
-- (backend/src/tiber/domain/services/plan_assembly.py).
use tiber.Prelude.{
  ℕ, ◌≤◌, ◌≡◌, refl, Option, none, some, List, [], Bool, true, false, ◌&&◌, ◌||◌, is_nil, is_some,
  contains, dedup, distinct, every, arith, Bool-cases, inl, inr, ltb, ◌∙◌,
}
use tiber.Prelude.Sets.{every-keep, every-imp, distinct-dedup, is_nil-dedup}
use tiber.Enums.{DeliveryChannel, NotificationCategory, channel_eq, category_eq}
use tiber.Result.{Result, ok}
use tiber.Time.{DateTime}
use tiber.Intake.{
  ChannelMode, ChannelSource, IntakePayload, DecisionConstraints, MlSuggestion, ResolvedTopic,
  NotificationPlan, constraints_post_init, plan_post_init,
}
use tiber.Intake.Plan.{
  choose_category, choose_channels, choose_send_at, plan_for, assemble_plan, is_critical,
  conforming, default_channels, sort_channels,
}
use tiber.Intake.Plan.Channels.{
  IsChoice, conforming-IsChoice, default_channels-IsChoice, is_nil-sort, distinct-sort,
}

-- What the constraints and the plan are, by the checks of their constructors.
pub record IsValid (k : DecisionConstraints) : Type 0 where
  pub feasible : is_nil k.feasible_channels ≡ false
  pub limit : 1 ≤ k.max_channels
  pub default : contains k.default_category k.allowed_categories ≡ true

pub IsValid-of_post_init :
    (k : DecisionConstraints) {k' : DecisionConstraints}
    → constraints_post_init k ≡ ok k'
    → IsValid k × (k' ≡ k)
unfolding constraints_post_init
IsValid-of_post_init k h = ground arith

-- A mode comes with the channels that it needs: a tuple of requested ones, or the set of those of
-- the addresses.
abbrev pub Serves : ChannelMode → IntakePayload → Type 0
Serves ChannelMode.client p =
    (cs : List DeliveryChannel) × (p.channels ≡ some cs) × (is_nil cs ≡ false)
Serves ChannelMode.addresses p =
    (cs : List DeliveryChannel) × (p.adhoc_channels ≡ some cs)
    × (is_nil cs ≡ false)
    × (distinct cs ≡ true)
Serves ChannelMode.ml p = Unit {0}

-- The send times that a plan may carry.
abbrev pub in_plan : ℕ → List DeliveryChannel → DeliveryChannel × DateTime → Bool
in_plan now channels e = contains e.0 channels && e.1.aware && ltb now e.1.at

-- The channels that are chosen, and what the plan's constructor checks of them.
pub record IsChosen (k : DecisionConstraints) (r : Result (List DeliveryChannel × ChannelSource))
    : Type 0 where
  pub channels : List DeliveryChannel
  pub source : ChannelSource
  pub returned : r ≡ ok (channels, source)
  pub nonempty : is_nil channels ≡ false
  pub unique : distinct channels ≡ true
  pub chosen :
      k.channel_mode ≡ ChannelMode.ml → IsChoice k.feasible_channels k.max_channels channels

choose_ml :
    (p : IntakePayload) (k : DecisionConstraints) (s : Option MlSuggestion)
    → IsValid k
    → k.channel_mode ≡ ChannelMode.ml
    → IsChosen k (choose_channels p k s)
unfolding choose_channels
choose_ml p k s v m = elim (Bool-cases (is_nil (conforming k s))) [
  | inl none_fits ↦
      let c = default_channels-IsChoice k v.feasible in
      record {
        channels = default_channels k;
        source = ChannelSource.default;
        returned = rw (m, none_fits) refl;
        nonempty = c.nonempty;
        unique = c.unique;
        chosen = λ _. record {
          nonempty = c.nonempty;
          unique = c.unique;
          within = c.within;
          at_most = omega (arith, c.at_most, v.limit);
        };
      }
  | inr some_fit ↦
      let c = conforming-IsChoice k s some_fit in
      record {
        channels = conforming k s;
        source = ChannelSource.ml;
        returned = rw (m, some_fit) refl;
        nonempty = c.nonempty;
        unique = c.unique;
        chosen = λ _. c;
      }
]

choose_channels-IsChosen :
    (mode : ChannelMode) (p : IntakePayload) (k : DecisionConstraints) (s : Option MlSuggestion)
    → IsValid k
    → k.channel_mode ≡ mode
    → Serves mode p
    → IsChosen k (choose_channels p k s)
unfolding choose_channels
choose_channels-IsChosen ChannelMode.client p k s v m (cs, given, some_given) = record {
  channels = dedup cs;
  source = ChannelSource.client;
  returned = rw (m, given) refl;
  nonempty = is_nil-dedup cs ∙ some_given;
  unique = distinct-dedup cs;
  chosen = λ e. cc;
}
choose_channels-IsChosen ChannelMode.addresses p k s v m (cs, given, some_given, unique) = record {
  channels = sort_channels cs;
  source = ChannelSource.addresses;
  returned = rw (m, given) refl;
  nonempty = is_nil-sort cs ∙ some_given;
  unique = distinct-sort cs unique;
  chosen = λ e. cc;
}
choose_channels-IsChosen ChannelMode.ml p k s v m h = choose_ml p k s v m

-- What holds of every plan.
pub record IsSound (now : ℕ) (p : IntakePayload) (k : DecisionConstraints) (plan : NotificationPlan)
    : Type 0 where
  pub nonempty : is_nil plan.channels ≡ false
  pub unique : distinct plan.channels ≡ true
  pub chosen :
      k.channel_mode ≡ ChannelMode.ml → IsChoice k.feasible_channels k.max_channels plan.channels
  pub times : every (in_plan now plan.channels) plan.send_at ≡ true
  pub client_category : (c : NotificationCategory) → p.category ≡ some c → plan.category ≡ c
  pub open_category : p.category ≡ none → contains plan.category k.allowed_categories ≡ true
  pub no_times : is_critical plan.category || is_some p.send_at ≡ true → plan.send_at ≡ []

choose_send_at-in_plan :
    (now : ℕ) (p : IntakePayload) (c : NotificationCategory) (cs : List DeliveryChannel)
    (s : Option MlSuggestion)
    → every (in_plan now cs) (choose_send_at now p c cs s) ≡ true
unfolding choose_send_at
choose_send_at-in_plan now p c cs none = refl
choose_send_at-in_plan now p c cs (some s) = ground (arith, every-keep (in_plan now cs) s.send_at)

choose_send_at-none :
    (now : ℕ) (p : IntakePayload) (c : NotificationCategory) (cs : List DeliveryChannel)
    (s : Option MlSuggestion)
    → is_critical c || is_some p.send_at ≡ true
    → choose_send_at now p c cs s ≡ []
unfolding choose_send_at
choose_send_at-none now p c cs none h = refl
choose_send_at-none now p c cs (some s) h = ground arith

choose_category-client :
    (p : IntakePayload) (k : DecisionConstraints) (s : Option MlSuggestion)
    (c : NotificationCategory)
    → p.category ≡ some c
    → (choose_category p k s).0 ≡ c
unfolding choose_category
choose_category-client p k s c e = rw e refl

choose_category-open :
    (p : IntakePayload) (k : DecisionConstraints) (s : Option MlSuggestion)
    → IsValid k
    → p.category ≡ none
    → contains (choose_category p k s).0 k.allowed_categories ≡ true
unfolding choose_category
choose_category-open p k s v e = ground arith

plan_post_init_ok :
    (now : ℕ) (p : NotificationPlan)
    → is_nil p.channels ≡ false
    → distinct p.channels ≡ true
    → every (in_plan now p.channels) p.send_at ≡ true
    → plan_post_init p ≡ ok p
unfolding plan_post_init
plan_post_init_ok now p n d t =
    let known =
      every-imp (in_plan now p.channels) (λ e. contains e.0 p.channels) p.send_at
        (λ e h. ground arith) t in
    let aware =
      every-imp (in_plan now p.channels) (λ e. e.1.aware) p.send_at (λ e h. ground arith) t in
    ground arith

-- From valid constraints, and a payload that has the channels its mode needs, a plan is assembled
-- whatever the model suggests, or if it does not answer. Its channels are some, none twice, and
-- where the model decides they are feasible and within the limit; a category that the client gave
-- is kept and any other is an allowed one; and its send times belong to its channels, are aware and
-- in the future, with none for a critical category or where the client gave a time.
pub assemble_plan_total :
    (p : IntakePayload) (k : DecisionConstraints) (s : Option MlSuggestion)
    (t : Option ResolvedTopic) (now : ℕ)
    → IsValid k
    → Serves k.channel_mode p
    → (plan : NotificationPlan) × (assemble_plan p k s t now ≡ ok plan) × IsSound now p k plan
unfolding assemble_plan
assemble_plan_total p k s t now v h =
    let c = choose_channels-IsChosen k.channel_mode p k s v refl h in
    let category = (choose_category p k s).0 in
    let times = choose_send_at now p category c.channels s in
    let future = choose_send_at-in_plan now p category c.channels s in
    let plan = plan_for p k s t now (c.channels, c.source) in
    (
      plan,
      rw c.returned (plan_post_init_ok now plan c.nonempty c.unique future),
      record {
        nonempty = c.nonempty;
        unique = c.unique;
        chosen = c.chosen;
        times = future;
        client_category = λ x e. choose_category-client p k s x e;
        open_category = λ e. choose_category-open p k s v e;
        no_times = λ e. choose_send_at-none now p category c.channels s e;
      },
    )
