-- ===== src/Policy/Chain.antt =====
-- What a chain of rules decides (`PolicyResolver.evaluate` of
-- backend/src/tiber/domain/policies/rules.py).
use tiber.Prelude.{
  ℕ, ◌≡◌, ◌&&◌, not, Bool, true, false, arith, refl, Option, List, [], ◌∷◌, every, is_missing, leb,
  if◌then◌else◌, ap, ◌∙◌, sym, ◌⊎◌, inl, inr, Bool-cases,
}
use mathlib.Core.Path.{ap₂}
use tiber.Time.{DateTime, utc}
use tiber.Enums.{channel_eq}
use tiber.Platform.{Zone, Platform, instant_of}
use tiber.Recipient.{Recipient, DeliveryConstraint, BlackoutPeriod, get_address}
use tiber.Notification.{Notification}
use tiber.Policy.{
  PolicyDecision, PolicyRule, PolicyContext, allow, recipient_address_rule, check_blackouts,
  evaluate, run_rules, intake_rules, dispatch_guard_rules, in_blackout, is_critical,
}

abbrev pub context : ℕ → Notification → Recipient → Option DeliveryConstraint → PolicyContext
context now n r c = record {
  notification = n;
  recipient = r;
  delivery_constraint = c;
  now = utc now;
}

-- How a chain comes to its decision: every rule allows, or a first rule rejects.
pub data Decides (ctx : PolicyContext) (d : PolicyDecision) : List PolicyRule → Type 0 where
  all_allow : d ≡ allow → Decides ctx d []
  rejects :
      {rule : PolicyRule} {rules : List PolicyRule}
      → (rule ctx).allowed ≡ false
      → d ≡ rule ctx
      → Decides ctx d (rule ∷ rules)
  passes :
      {rule : PolicyRule} {rules : List PolicyRule}
      → (rule ctx).allowed ≡ true
      → Decides ctx d rules
      → Decides ctx d (rule ∷ rules)

Decides-if :
    {ctx : PolicyContext} {rules : List PolicyRule} (rule : PolicyRule) (later : PolicyDecision)
    (b : Bool)
    → (rule ctx).allowed ≡ b
    → Decides ctx later rules
    → Decides ctx (if b then later else rule ctx) (rule ∷ rules)
Decides-if rule later true e h = passes e h
Decides-if rule later false e h = rejects e refl

run_rules-Decides :
    (rules : List PolicyRule) (ctx : PolicyContext) → Decides ctx (run_rules rules ctx) rules
unfolding run_rules
run_rules-Decides [] ctx = all_allow refl
run_rules-Decides (rule ∷ rules) ctx =
    Decides-if rule (run_rules rules ctx) (rule ctx).allowed refl (run_rules-Decides rules ctx)

-- A critical notification is allowed whatever the rules say, and any other is decided by the first
-- rule of the chain that rejects, or allowed where every rule allows.
pub evaluate-Decides :
    (rules : List PolicyRule) (now : ℕ) (n : Notification) (r : Recipient)
    (c : Option DeliveryConstraint)
    → ((is_critical n.category ≡ true) × (evaluate rules now n r c ≡ allow))
      ⊎ ((is_critical n.category ≡ false)
          × Decides (context now n r c) (evaluate rules now n r c) rules)
unfolding evaluate
evaluate-Decides rules now n r c = elim (Bool-cases (is_critical n.category)) [
  | inl e ↦ inl (e, rw e refl)
  | inr e ↦ inr (e, rw e (run_rules-Decides rules (context now n r c)))
]

-- For a notification that is not critical, the intake chain allows exactly where the recipient has
-- an address on its channel and the chain of the dispatch guard allows.
pub allowed-intake_rules :
    (p : Platform) (now : ℕ) (n : Notification) (r : Recipient) (c : Option DeliveryConstraint)
    → is_critical n.category ≡ false
    → (evaluate (intake_rules p) now n r c).allowed ≡ (
        not (is_missing (get_address n.channel r.addresses))
        && (evaluate (dispatch_guard_rules p) now n r c).allowed)
unfolding evaluate recipient_address_rule
allowed-intake_rules p now n r c h = ground arith

-- The blackout rule allows exactly when no period contains the send time on the wall clock.
check_blackouts-allowed :
    (p : Platform) (zone : Zone) (t : DateTime) (bs : List BlackoutPeriod)
    → (check_blackouts p zone t bs).allowed ≡ every (λ b. not (in_blackout p zone b t)) bs
unfolding check_blackouts
check_blackouts-allowed p zone t [] = refl
check_blackouts-allowed p zone t (b ∷ bs) = ground (arith, check_blackouts-allowed p zone t bs)

abbrev pub between : Platform → BlackoutPeriod → DateTime → Bool
between p b t =
    leb (instant_of p b.start) (instant_of p t) && leb (instant_of p t) (instant_of p b.end)

-- The zone keeps the order of instants, as one with a fixed offset does.
pub record IsMonotone (zone : Zone) : Type 0 where
  pub same_order : (a b : ℕ) → leb (zone.local a) (zone.local b) ≡ leb a b

pub in_blackout-eq-between :
    (p : Platform) (zone : Zone) (b : BlackoutPeriod) (t : DateTime)
    → IsMonotone zone
    → in_blackout p zone b t ≡ between p b t
in_blackout-eq-between p zone b t h = simp h.same_order

-- In a zone that keeps the order of instants, the blackout rule allows exactly where no period
-- contains the send time as instants.
pub check_blackouts-between :
    (p : Platform) (zone : Zone) (t : DateTime) (bs : List BlackoutPeriod)
    → IsMonotone zone
    → (check_blackouts p zone t bs).allowed ≡ every (λ b. not (between p b t)) bs
check_blackouts-between p zone t [] h = unfold check_blackouts in refl
check_blackouts-between p zone t (b ∷ bs) h =
    check_blackouts-allowed p zone t (b ∷ bs)
    ∙ ap₂ ◌&&◌ (ap not (in_blackout-eq-between p zone b t h))
        (sym (check_blackouts-allowed p zone t bs) ∙ check_blackouts-between p zone t bs h)
