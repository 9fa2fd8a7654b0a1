-- ===== src/Time.antt =====
-- Python's datetimes as the program uses them: microseconds from a fixed origin, and whether
-- `tzinfo` is set. A naive and an aware datetime cannot be ordered.
use tiber.Prelude.{ℕ, ◌*◌, Bool, true, ltb, leb, if◌then◌else◌, not}
use tiber.Result.{Result, ok, err, type_error}

pub record DateTime : Type 0 where
  -- of an aware datetime the instant, of a naive one its wall clock
  pub at : ℕ
  -- `tzinfo is not None`
  pub aware : Bool

-- `datetime.now(UTC)` at that instant
abbrev pub utc : ℕ → DateTime
utc n = record { at = n; aware = true }

abbrev pub seconds : ℕ
seconds = 1_000_000

abbrev pub day : ℕ
day = 86_400 * 1_000_000

abbrev pub same_kind : DateTime → DateTime → Bool
same_kind a b = if a.aware then b.aware else not b.aware

-- a > b
abbrev pub is_after : DateTime → DateTime → Result Bool
is_after a b = if same_kind a b then ok (ltb b.at a.at) else err type_error

-- a <= b
abbrev pub is_at_most : DateTime → DateTime → Result Bool
is_at_most a b = if same_kind a b then ok (leb a.at b.at) else err type_error
