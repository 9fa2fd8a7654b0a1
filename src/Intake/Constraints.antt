-- ===== src/Intake/Constraints.antt =====
-- Accept-time constraints (backend/src/tiber/domain/services/decision_constraints.py).
pub mod Feasible
use tiber.Prelude.{
  ℕ, Option, none, some, List, [], ◌∷◌, Bool, true, false, ◌&&◌, not, is_nil, is_some, contains,
  keep, without, dedup, length, if◌then◌else◌, map, String,
}
use tiber.Prelude.Eq.{string_eq}
use tiber.Enums.{
  DeliveryChannel, NotificationCategory, informational, social, promotional, channel_eq,
}
use tiber.Result.{Result, ok, err, is_ok, raise_if, value_error, channel_not_available, ◌>>=◌, ◌>>◌}
use tiber.Content.{NotificationContent, validate_content}
use tiber.Template.{Template, variables_for, get_variant}
use tiber.Notification.{Variables}
use tiber.Intake.{ChannelMode, DecisionConstraints, constraints_post_init}

abbrev pub default_category : NotificationCategory
default_category = informational

abbrev pub ml_inferable_categories : List NotificationCategory
ml_inferable_categories = informational ∷ social ∷ promotional ∷ []

-- `None or []`
abbrev pub given {ℓ} : {A : Type ℓ} → Option (List A) → List A
given none = []
given (some xs) = xs

abbrev pub names : Variables → List String
names [] = []
names ((name, _) ∷ rest) = name ∷ names rest

pub record Request : Type 0 where
  pub available_channels : List DeliveryChannel
  pub adhoc : Bool
  pub requested_channels : Option (List DeliveryChannel)
  pub opted_out : List DeliveryChannel
  pub client_category : Option NotificationCategory
  pub template : Option Template
  pub template_variables : Option Variables
  pub content : Option NotificationContent

-- step 1: the candidates, and who decides among them
unfoldable pub candidates : Request → Result (List DeliveryChannel × ChannelMode)
candidates r =
    if r.adhoc
    then ok (r.available_channels, ChannelMode.addresses)
    else if is_nil (given r.requested_channels)
    then ok (r.available_channels, ChannelMode.ml)
    else do
      let requested = dedup (given r.requested_channels)
      raise_if (not (is_nil (without requested r.available_channels))) channel_not_available
      ok (requested, ChannelMode.client)

-- step 3, in the mode "ml"
unfoldable pub reachable : Request → List DeliveryChannel → List DeliveryChannel × ℕ
reachable r feasible =
    let open_channels = without feasible r.opted_out in
    let chosen = if is_nil open_channels then feasible else open_channels in
    (chosen, if is_some r.template then length chosen else 1)

abbrev pub allowed_of :
    Option NotificationCategory → List NotificationCategory × NotificationCategory
allowed_of (some c) = (c ∷ [], c)
allowed_of none = (ml_inferable_categories, default_category)

abbrev pub constraints_for :
    Option NotificationCategory → ChannelMode → List DeliveryChannel × ℕ → DecisionConstraints
constraints_for client_category mode feasible = record {
  allowed_categories = (allowed_of client_category).0;
  default_category = (allowed_of client_category).1;
  channel_mode = mode;
  feasible_channels = feasible.0;
  max_channels = feasible.1;
}

module _ (findall : String → List String) where
  -- `_render_problem(...) is not None`
  unfoldable pub has_render_problem :
      DeliveryChannel → Option Template → List String → Option NotificationContent → Bool
  has_render_problem channel (some t) provided content = elim (variables_for findall t channel) [
    | ok needed ↦ not (is_nil (without needed provided))
    | err _ ↦ true
  ]
  has_render_problem channel none provided none = true
  has_render_problem channel none provided (some content) =
      not (is_ok (validate_content channel content))

  unfoldable pub feasible_among :
      Request → List DeliveryChannel → ChannelMode → Result (List DeliveryChannel × ℕ)
  unfolding reachable
  feasible_among r channels ChannelMode.ml = do
    let feasible =
        keep
          (λ c.
            not (has_render_problem c r.template (names (given r.template_variables)) r.content))
          channels
    raise_if (is_nil feasible) channel_not_available
    ok (reachable r feasible)
  feasible_among r channels _ = do
    let problems =
        keep (λ c. has_render_problem c r.template (names (given r.template_variables)) r.content)
          channels
    raise_if (not (is_nil problems)) channel_not_available
    ok (channels, length channels)

  unfoldable pub compute_constraints : Request → Result DecisionConstraints
  compute_constraints r = do
    raise_if (r.adhoc && not (is_nil (given r.requested_channels))) value_error
    chosen ← candidates r
    feasible ← feasible_among r chosen.0 chosen.1
    constraints_post_init (constraints_for r.client_category chosen.1 feasible)
