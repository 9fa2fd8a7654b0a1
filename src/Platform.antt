-- ===== src/Platform.antt =====
-- What the program takes from Python's runtime: the time zones of `zoneinfo`, the system's own
-- zone, which `astimezone` gives a naive datetime, and the texts of times and identifiers.
use tiber.Prelude.{ℕ, String, if◌then◌else◌}
use tiber.Time.{DateTime}

-- A time zone: the wall clock of an instant, and the instant of a wall clock (with `fold=0`), both
-- in microseconds from the same origin, which is a midnight.
pub record Zone : Type 0 where
  pub local : ℕ → ℕ
  pub instant : ℕ → ℕ

pub record Platform : Type 0 where
  -- `ZoneInfo(key)` of a key that the entities have checked
  pub zone_info : String → Zone
  -- the zone of the operating system
  pub system : Zone
  -- `str` of a `time` and of a `UUID`
  pub time_text : ℕ → String
  pub uuid_text : ℕ → String

-- The instant that a datetime stands for.
abbrev pub instant_of : Platform → DateTime → ℕ
instant_of p d = if d.aware then d.at else p.system.instant d.at

-- The wall clock of `d.astimezone(zone)`.
abbrev pub astimezone : Platform → Zone → DateTime → ℕ
astimezone p zone d = zone.local (instant_of p d)
