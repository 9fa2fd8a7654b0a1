-- ===== src/Intake/Constraints/Feasible.antt =====
-- The constraints that a request is accepted with
-- (backend/src/tiber/domain/services/decision_constraints.py).
use tiber.Prelude.{
  ℕ, ◌≤◌, ◌≡◌, refl, none, List, Bool, true, false, ◌&&◌, not, is_nil, contains, keep, dedup,
  without, every, length, arith, Bool-cases, inl, inr, ◌⊎◌, String, ◌≢◌,
}
use mathlib.Core.Path.{subst}
use tiber.Prelude.Sets.{
  every-and, every-not_of_keep_nil, length_pos, every-keep, every-keep_of_every, every-imp,
  every_of_keep_nil, every-contains_self,
}
use tiber.Enums.{DeliveryChannel, channel_eq, category_eq, critical}
use tiber.Result.{ok, value_error, >>=-eq-ok, raise_if}
use tiber.Intake.{ChannelMode, DecisionConstraints}
use tiber.Intake.Plan.Assembly.{IsValid, IsValid-of_post_init}
use tiber.Intake.Constraints.{
  Request, given, names, candidates, has_render_problem, reachable, feasible_among, constraints_for,
  compute_constraints,
}

-- what the mode says of the request
abbrev pub ModeOf : ChannelMode → Request → Type 0
ModeOf ChannelMode.addresses r = r.adhoc ≡ true
ModeOf ChannelMode.client r = (r.adhoc ≡ false) × (is_nil (given r.requested_channels) ≡ false)
ModeOf ChannelMode.ml r = (r.adhoc ≡ false) × (is_nil (given r.requested_channels) ≡ true)

candidates_available :
    (r : Request) {cs : List DeliveryChannel} {m : ChannelMode}
    → candidates r ≡ ok (cs, m)
    → (every (λ c. contains c r.available_channels) cs ≡ true) × ModeOf m r
unfolding candidates
candidates_available r {cs} {m = ChannelMode.addresses} h =
    ground (arith, every-contains_self r.available_channels)
candidates_available r {cs} {m = ChannelMode.ml} h =
    ground (arith, every-contains_self r.available_channels)
candidates_available r {cs} {m = ChannelMode.client} h =
    let requested = dedup (given r.requested_channels) in
    ground (arith, every_of_keep_nil (λ c. contains c r.available_channels) requested)

-- What the constraints promise of a request that was accepted.
pub record IsFeasible (deliverable : DeliveryChannel → Bool) (r : Request) (k : DecisionConstraints)
    : Type 0 where
  pub valid : IsValid k
  pub mode : ModeOf k.channel_mode r
  pub available : every (λ c. contains c r.available_channels) k.feasible_channels ≡ true
  pub can_deliver : every deliverable k.feasible_channels ≡ true
  pub count : k.max_channels ≤ length k.feasible_channels
  pub direct : k.channel_mode ≡ ChannelMode.ml → r.template ≡ none → k.max_channels ≡ 1
  pub consent :
      k.channel_mode ≡ ChannelMode.ml
      → every (λ c. not (contains c r.opted_out)) k.feasible_channels ≡ true
        ⊎ every (λ c. contains c r.opted_out) k.feasible_channels ≡ true
  pub never_inferred : r.client_category ≡ none → contains critical k.allowed_categories ≡ false

-- Channels and their limit, as a step has kept them.
record IsKept (r : Request) (m : ChannelMode) (p : DeliveryChannel → Bool)
    (kept : List DeliveryChannel × ℕ) : Type 0 where
  passing : every p kept.0 ≡ true
  count : kept.1 ≤ length kept.0
  direct : m ≡ ChannelMode.ml → r.template ≡ none → kept.1 ≡ 1
  consent :
      m ≡ ChannelMode.ml
      → (every (λ c. not (contains c r.opted_out)) kept.0 ≡ true)
        ⊎ (every (λ c. contains c r.opted_out) kept.0 ≡ true)

-- Of the feasible channels those are kept that the recipient has not opted out of, if there are any.
reachable-IsKept :
    (r : Request) (m : ChannelMode) (p : DeliveryChannel → Bool) (cs : List DeliveryChannel)
    → every p cs ≡ true
    → is_nil cs ≡ false
    → IsKept r m p (reachable r cs)
unfolding reachable
reachable-IsKept r m p cs h n = elim (Bool-cases (is_nil (without cs r.opted_out))) [
  | inl all_out ↦ record {
    passing = rw all_out h;
    count = rw all_out (ground (arith, length_pos cs));
    direct = λ _ e. rw e refl;
    consent = λ _. rw all_out (inr (every_of_keep_nil (λ c. contains c r.opted_out) cs all_out));
  }
  | inr some_open ↦ record {
    passing = rw some_open (every-keep_of_every p (λ c. not (contains c r.opted_out)) cs h);
    count = rw some_open (ground (arith, length_pos (without cs r.opted_out)));
    direct = λ _ e. rw e refl;
    consent = λ _. rw some_open (inl (every-keep (λ c. not (contains c r.opted_out)) cs));
  }
]

module _ (findall : String → List String) where
  abbrev pub problem : Request → DeliveryChannel → Bool
  problem r c =
      has_render_problem findall c r.template (names (given r.template_variables)) r.content

  abbrev pub deliverable : Request → DeliveryChannel → Bool
  deliverable r c = not (problem r c)

  named-IsKept :
      (r : Request) (cs : List DeliveryChannel) (m : ChannelMode) (p : DeliveryChannel → Bool)
      {kept : List DeliveryChannel × ℕ}
      → m ≢ ChannelMode.ml
      → is_nil (keep (problem r) cs) ≡ true
      → kept ≡ (cs, length cs)
      → every p cs ≡ true
      → IsKept r m (λ c. p c && deliverable r c) kept
  named-IsKept r cs m p named fine e h = rw e (record {
    passing = every-and p (deliverable r) cs h (every-not_of_keep_nil (problem r) cs fine);
    count = omega arith;
    direct = λ x. absurd (named x);
    consent = λ x. absurd (named x);
  })

  -- The mode "ml" drops what cannot be delivered, and the others refuse it.
  feasible_among-IsKept :
      (r : Request) (cs : List DeliveryChannel) (m : ChannelMode) (p : DeliveryChannel → Bool)
      {kept : List DeliveryChannel × ℕ}
      → feasible_among findall r cs m ≡ ok kept
      → every p cs ≡ true
      → IsKept r m (λ c. p c && deliverable r c) kept
  unfolding feasible_among
  feasible_among-IsKept r cs ChannelMode.ml p {kept} e h =
      let fs : List DeliveryChannel = keep (deliverable r) cs in
      let both =
        every-and p (deliverable r) fs (every-keep_of_every p (deliverable r) cs h)
          (every-keep (deliverable r) cs) in
      let some_left : is_nil fs ≡ false = ground arith in
      let result : reachable r fs ≡ kept = ground arith in
      subst (IsKept r ChannelMode.ml (λ c. p c && deliverable r c)) result
        (reachable-IsKept r ChannelMode.ml (λ c. p c && deliverable r c) fs both some_left)
  feasible_among-IsKept r cs ChannelMode.client p e h =
      named-IsKept r cs ChannelMode.client p (λ x. cc) (ground arith) (ground arith) h
  feasible_among-IsKept r cs ChannelMode.addresses p e h =
      named-IsKept r cs ChannelMode.addresses p (λ x. cc) (ground arith) (ground arith) h

  kept-IsFeasible :
      (r : Request) (m : ChannelMode) (kept : List DeliveryChannel × ℕ)
      → IsValid (constraints_for r.client_category m kept)
      → ModeOf m r
      → IsKept r m (λ c. contains c r.available_channels && deliverable r c) kept
      → IsFeasible (deliverable r) r (constraints_for r.client_category m kept)
  kept-IsFeasible r m kept v mode h = record {
    valid = v;
    mode = mode;
    available =
        every-imp _ (λ c. contains c r.available_channels) kept.0 (λ c x. ground arith) h.passing;
    can_deliver = every-imp _ (deliverable r) kept.0 (λ c x. ground arith) h.passing;
    count = h.count;
    direct = h.direct;
    consent = h.consent;
    never_inferred = λ e. rw e refl;
  }

  -- Constraints that are returned are valid: their channels are available and deliverable, at least
  -- as many as the limit, which is one for direct content that the model places; the mode is the
  -- one the request asks for; in the mode of the model none of the channels is opted out, or all
  -- are; and without a category from the client CRITICAL is not allowed.
  pub compute_constraints-IsFeasible :
      (r : Request) {k : DecisionConstraints}
      → compute_constraints findall r ≡ ok k
      → IsFeasible (deliverable r) r k
  unfolding compute_constraints
  compute_constraints-IsFeasible r {k} e =
      let (_, _, e1) =
        >>=-eq-ok (raise_if (r.adhoc && not (is_nil (given r.requested_channels))) value_error) _
          e in
      let ((cs, m), e2, e3) = >>=-eq-ok (candidates r) _ e1 in
      let (kept, e4, e5) = >>=-eq-ok (feasible_among findall r cs m) _ e3 in
      let (v, same) = IsValid-of_post_init (constraints_for r.client_category m kept) e5 in
      let (known, mode) = candidates_available r e2 in
      let kept_all = feasible_among-IsKept r cs m (λ c. contains c r.available_channels) e4 known in
      rw same (kept-IsFeasible r m kept v mode kept_all)
