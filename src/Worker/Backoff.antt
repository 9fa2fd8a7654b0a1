-- ===== src/Worker/Backoff.antt =====
-- The delays between retries (backend/src/tiber/worker/retry.py).
use tiber.Prelude.{ℕ, ◌+◌, ◌*◌, ◌^◌, min, ◌≤◌, ◌≡◌, arith, refl, ◌∙◌, inl, inr, ap, leb, Bool-cases}
use native.Mathlib.Nat.{
  pow-le-pow_right, mul-le-mul_left, mul-le-mul_right, mul_comm, mul-one, mul_left_comm,
}
use native.Mathlib.Numerals.{unary_clauses}
use tiber.Worker.{exponential_backoff}

-- a cap that is applied before a growth, and again after it
min-mul : (cap x factor : ℕ) → 1 ≤ factor → min cap (factor * x) ≡ min cap (factor * min cap x)
min-mul cap x factor h =
    let up = mul-le-mul_right x h in
    let cap_up = mul-le-mul_right cap h in
    elim (Bool-cases (leb cap x)) [
      | inl e ↦ let capped : min cap x ≡ cap = ground arith in rw capped (ground arith)
      | inr e ↦ let under : min cap x ≡ x = ground arith in rw under refl
    ]

-- With a positive factor the first delay is the base delay, each further delay is the one before
-- it times the factor, and both are capped. So the delays never fall, and never exceed the cap.
pub exponential_backoff-bounds :
    (attempt later base_delay factor max_delay : ℕ)
    → 1 ≤ factor
    → attempt ≤ later
    → (exponential_backoff 0 base_delay factor max_delay ≡ min max_delay base_delay)
      × (exponential_backoff (attempt + 1) base_delay factor max_delay
          ≡ min max_delay (factor * exponential_backoff attempt base_delay factor max_delay))
      × (exponential_backoff attempt base_delay factor max_delay
          ≤ exponential_backoff later base_delay factor max_delay)
      × (exponential_backoff later base_delay factor max_delay ≤ max_delay)
unfolding exponential_backoff
exponential_backoff-bounds a b base_delay factor max_delay h k =
    let up = mul-le-mul_left base_delay (pow-le-pow_right h k) in
    let grown : base_delay * factor ^ (a + 1) ≡ factor * (base_delay * factor ^ a) =
      simp unary_clauses (
        ap (λ x. base_delay * x) (mul_comm (factor ^ a) factor)
        ∙ mul_left_comm base_delay factor (factor ^ a)) in
    (
      simp (unary_clauses, mul-one) refl,
      ap (min max_delay) grown ∙ min-mul max_delay (base_delay * factor ^ a) factor h,
      ground arith,
      ground arith,
    )
