-- ===== src/Outbox.antt =====
-- The outbox and its relay (backend/src/tiber/application/services/outbox_relay.py,
-- backend/src/tiber/infrastructure/repositories/sqlalchemy_outbox.py). One relay drains the table, so
-- that no row is locked by another, and reads the clock once for each message. Instants are aware. The
-- texts of errors are not modelled, nor a row of another kind, which the table refuses.
pub mod Order
pub mod Sound
pub mod Batch
use tiber.Prelude.{
  ℕ, zero, suc, ◌+◌, ◌*◌, ◌^◌, min, Option, none, some, List, [], ◌∷◌, Bool, true, false, ◌&&◌,
  ◌||◌, if◌then◌else◌, leb, ltb, is_none,
}
use tiber.Prelude.Eq.{◌==◌, nat_eq}
use tiber.Time.{seconds}
use tiber.Notification.{Notification}
use tiber.Store.{Store, get_by_id}

pub data OutboxKind : Type 0 where
  intake dispatch : OutboxKind

-- A row of the table, as far as the relay uses it.
pub record OutboxRow : Type 0 where
  pub id : ℕ
  pub kind : OutboxKind
  pub aggregate_id : ℕ
  -- `payload.get("project_id")`, where it is the text of a UUID
  pub project_id : Option ℕ
  pub priority : ℕ
  pub available_at : ℕ
  pub attempts : ℕ
  pub published_at : Option ℕ
  pub dead_lettered_at : Option ℕ

abbrev pub is_due : ℕ → OutboxRow → Bool
is_due now r = is_none r.published_at && is_none r.dead_lettered_at && leb r.available_at now

-- ORDER BY priority, available_at, id
abbrev pub comes_first : OutboxRow → OutboxRow → Bool
comes_first a b =
    ltb a.priority b.priority
    || a.priority == b.priority
      && (ltb a.available_at b.available_at || a.available_at == b.available_at && leb a.id b.id)

abbrev pub earlier : OutboxRow → Option OutboxRow → OutboxRow
earlier r none = r
earlier r (some best) = if comes_first r best then r else best

-- `claim_next`: the first of the rows that are due
unfoldable pub claim_next : ℕ → List OutboxRow → Option OutboxRow
claim_next now [] = none
claim_next now (r ∷ rest) =
    let best = claim_next now rest in if is_due now r then some (earlier r best) else best

-- UPDATE ... WHERE id = message_id
unfoldable pub update_row : ℕ → (OutboxRow → OutboxRow) → List OutboxRow → List OutboxRow
update_row id f [] = []
update_row id f (r ∷ rest) =
    let others = update_row id f rest in if r.id == id then f r ∷ others else r ∷ others

abbrev pub published : ℕ → OutboxRow → OutboxRow
published now r = record r { published_at = some now }

-- `mark_failed`, with the time of the next attempt or none
abbrev pub failed : ℕ → Option ℕ → OutboxRow → OutboxRow
failed now none r = record r { attempts = r.attempts + 1; dead_lettered_at = some now }
failed now (some t) r = record r { attempts = r.attempts + 1; available_at = t }

-- The settings, and the publisher: whether it takes an intake or a notification, or raises.
pub record Relay : Type 0 where
  pub max_attempts : ℕ
  pub retry_base_seconds : ℕ
  pub retry_max_seconds : ℕ
  pub publish_intake : ℕ → Bool
  pub publish_notification : Notification → Bool

-- `_retry_delay`
unfoldable pub retry_delay : Relay → ℕ → ℕ
retry_delay c previous_attempts =
    min (c.retry_base_seconds * 2 ^ previous_attempts) c.retry_max_seconds

abbrev pub publish_found : Relay → Option Notification → Bool
publish_found c none = false
publish_found c (some n) = c.publish_notification n

abbrev pub publish_dispatch : Relay → Store → ℕ → Option ℕ → Bool
publish_dispatch c s aggregate_id none = false
publish_dispatch c s aggregate_id (some project_id) =
    publish_found c (get_by_id aggregate_id project_id s)

-- `_publish`: whether it returns
unfoldable pub publish : Relay → Store → OutboxRow → Bool
publish c s r = elim r.kind [
  | intake ↦ c.publish_intake r.aggregate_id
  | dispatch ↦ publish_dispatch c s r.aggregate_id r.project_id
]

-- the time of the next attempt, if there is one
unfoldable pub retry_at : Relay → ℕ → OutboxRow → Option ℕ
unfolding retry_delay
retry_at c now r =
    if leb c.max_attempts (r.attempts + 1)
    then none
    else some (now + retry_delay c r.attempts * seconds)

-- What the transaction of one message writes.
abbrev pub settled : Relay → Store → ℕ → OutboxRow → OutboxRow → OutboxRow
settled c s now r row =
    if publish c s r then published now row else failed now (retry_at c now r) row

-- `relay_available`: up to so many messages, at the times of a clock. It returns how many were
-- published.
abbrev pub relay_claimed :
    Relay
    → Store
    → ℕ
    → Option OutboxRow
    → List OutboxRow
    → (List OutboxRow → ℕ × List OutboxRow)
    → ℕ × List OutboxRow
relay_claimed c s now none rows more = (0, rows)
relay_claimed c s now (some r) rows more =
    let rest = more (update_row r.id (settled c s now r) rows) in
    (if publish c s r then (rest.0 + 1, rest.1) else rest)

unfoldable pub relay_available : ℕ → Relay → Store → (ℕ → ℕ) → List OutboxRow → ℕ × List OutboxRow
unfolding claim_next update_row publish retry_at
relay_available zero c s clock rows = (0, rows)
relay_available (suc batch) c s clock rows =
    relay_claimed c s (clock batch) (claim_next (clock batch) rows) rows
      (λ rows'. relay_available batch c s clock rows')
