-- ===== src/Json.antt =====
-- JSON values as `json` and the JSONB columns give them, and the readers of
-- backend/src/tiber/infrastructure/repositories/sqlalchemy_notification_intake_repository.py.
-- What the standard library does with a text (UUID, ISO 8601, `int`, `str`, `urlparse`) is a
-- parameter, a `Codec`.
pub mod Enums
pub mod Content
pub mod Laws
use tiber.Prelude.{◌≡◌, ℕ, String, List, [], ◌∷◌, Option, none, some, Bool, if◌then◌else◌}
use tiber.Prelude.Eq.{◌==◌, string_eq}
use tiber.Result.{Result, ok, err, ◌>>=◌, value_error, type_error, key_error}
use tiber.Time.{DateTime}

mutual
  pub data Json : Type 0 where
    null : Json
    boolean : Bool → Json
    number : ℕ → Json
    text : String → Json
    array : Items → Json
    object : Fields → Json

  pub data Items : Type 0 where
    no_items : Items
    item : Json → Items → Items

  pub data Fields : Type 0 where
    no_fields : Fields
    field : String → Json → Fields → Fields

pub record Codec : Type 0 where
  -- `str(uuid)` and `UUID(text)`
  pub uuid_text : ℕ → String
  pub uuid_of : String → Result ℕ
  -- `t.isoformat()` and `datetime.fromisoformat(text)`
  pub iso_text : DateTime → String
  pub iso_of : String → Result DateTime
  -- `str(value)` of a value that is no text, `int(value)` of one that is no number
  pub shown : Json → String
  pub int_of : Json → Result ℕ
  -- what `_validate_url` asks of `urlparse(url.strip())`
  pub is_url : String → Bool

-- What is written is read back.
pub record IsFaithful (c : Codec) : Type 0 where
  pub uuid : (n : ℕ) → c.uuid_of (c.uuid_text n) ≡ ok n
  pub iso : (t : DateTime) → c.iso_of (c.iso_text t) ≡ ok t

-- the entry of a dict
abbrev pub entry : String → Fields → Option Json
entry k no_fields = none
entry k (field j v fs) = if k == j then some v else entry k fs

-- `data.get(k)`
abbrev pub get : String → Fields → Json
get k fs = elim (entry k fs) [ none ↦ null | some v ↦ v ]

-- `data[k]`
abbrev pub at_key : String → Fields → Result Json
at_key k fs = elim (entry k fs) [ none ↦ err key_error | some v ↦ ok v ]

unfoldable pub object_of : Json → Result Fields
object_of (object fs) = ok fs
object_of _ = err value_error

unfoldable pub array_of : Json → Result Items
array_of (array xs) = ok xs
array_of _ = err value_error

-- `[write(x) for x in xs]`
unfoldable pub write_items {ℓ} : {A : Type ℓ} → (A → Json) → List A → Items
write_items write [] = no_items
write_items write (x ∷ xs) = item (write x) (write_items write xs)

-- `[read(x) for x in xs]`, where `read` may raise
unfoldable pub read_items {ℓ} : {A : Type ℓ} → (Json → Result A) → Items → Result (List A)
read_items read no_items = ok []
read_items read (item v vs) = do x ← read v; xs ← read_items read vs; ok (x ∷ xs)

-- `{key(e): value(e) for e in entries}`
unfoldable pub write_fields {ℓ} : {A : Type ℓ} → (A → String) → (A → Json) → List A → Fields
write_fields key value [] = no_fields
write_fields key value (e ∷ es) = field (key e) (value e) (write_fields key value es)

unfoldable pub read_fields {ℓ} :
    {A : Type ℓ} → (String → Json → Result A) → Fields → Result (List A)
read_fields read no_fields = ok []
read_fields read (field k v fs) = do x ← read k v; xs ← read_fields read fs; ok (x ∷ xs)

-- `write(x) if x is not None else None`
abbrev pub write_option {ℓ} : {A : Type ℓ} → (A → Json) → Option A → Json
write_option write none = null
write_option write (some x) = write x

-- `read(v) if v is not None else None`
abbrev pub read_option {ℓ} : {A : Type ℓ} → (Json → Result A) → Json → Result (Option A)
read_option read null = ok none
read_option read v = read v >>= λ x. ok (some x)

-- A value that is annotated `str | None` and taken as it is: what is neither is not modelled,
-- and refused here.
unfoldable pub optional_text : Json → Result (Option String)
optional_text null = ok none
optional_text (text s) = ok (some s)
optional_text _ = err type_error

module _ (c : Codec) where
  -- `str(value)`
  unfoldable pub str_of : Json → String
  str_of (text s) = s
  str_of v = c.shown v

  unfoldable pub datetime_of : Json → Result DateTime
  datetime_of (text s) = c.iso_of s
  datetime_of _ = err value_error

  unfoldable pub optional_datetime_of : Json → Result (Option DateTime)
  unfolding datetime_of
  optional_datetime_of v = read_option datetime_of v

  unfoldable pub uuid_of : Json → Result ℕ
  uuid_of (text s) = c.uuid_of s
  uuid_of _ = err value_error

  -- `int(value)`
  abbrev pub int_of : Json → Result ℕ
  int_of (number n) = ok n
  int_of v = c.int_of v
