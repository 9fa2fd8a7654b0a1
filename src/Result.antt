-- ===== src/Result.antt =====
-- The exceptions of backend/src/tiber/domain/exceptions.py that the modelled code raises or
-- catches, with Python's own `ValueError` and `TypeError`, and functions that may raise.
-- The texts of the exceptions are not modelled.
use tiber.Prelude.{◌≡◌, refl, ap, Bool, true, false, not, String, List}
use tiber.Enums.{NotificationStatus, IntakeStatus}

-- the `entity_cls` of an `EntityNotFoundError`
pub data Entity : Type 0 where
  a_notification a_recipient a_template a_topic : Entity

pub data Error : Type 0 where
  entity_not_found : Entity → Error
  template_render : List String → Error
  channel_not_available idempotency_conflict : Error
  invalid_transition : NotificationStatus → NotificationStatus → Error
  invalid_intake_transition : IntakeStatus → IntakeStatus → Error
  invalid_attribute value_error type_error key_error : Error
  intake_already_exists ambiguous_recipient address_conflict recipient_address_taken : Error
  -- `raise Exception(...)`, and what a port raises
  other : Error

-- What a call returns, or the exception that it raises.
pub data Result {ℓ} (T : Type ℓ) : Type ℓ where
  err : (error : Error) → Result T
  ok : (value : T) → Result T

abbrev pub is_ok {ℓ} : {T : Type ℓ} → Result T → Bool
is_ok (err _) = false
is_ok (ok _) = true

-- `if not test: raise error`
abbrev pub require : Bool → Error → Result (Unit {0})
require false error = err error
require true _ = ok tt

-- `if test: raise error`
abbrev pub raise_if : Bool → Error → Result (Unit {0})
raise_if test error = require (not test) error

infixl 5 ◌>>◌ ◌>>=◌
-- What follows a call runs if it returns.
abbrev pub ◌>>=◌ {ℓ κ} : {T : Type ℓ} {U : Type κ} → Result T → (T → Result U) → Result U
err error >>= next = err error
ok value >>= next = next value

abbrev pub ◌>>◌ {ℓ} : {T : Type ℓ} → Result (Unit {0}) → Result T → Result T
call >> rest = call >>= λ nothing. rest

pub >>=-eq-ok {ℓ κ} :
    {T : Type ℓ} {U : Type κ} (call : Result T) (next : T → Result U) {last : U}
    → (call >>= next) ≡ ok last
    → (value : T) × (call ≡ ok value) × (next value ≡ ok last)
>>=-eq-ok (err error) next returned = cc
>>=-eq-ok (ok value) next returned = (value, refl, returned)

pub ok-injective {ℓ} : {T : Type ℓ} {a b : T} → ok a ≡ ok b → a ≡ b
ok-injective {a = a} e = ap (λ r. elim r [ err _ ↦ a | ok value ↦ value ]) e
