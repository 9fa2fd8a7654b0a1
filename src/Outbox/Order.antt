-- ===== src/Outbox/Order.antt =====
-- Which message the relay takes (backend/src/tiber/infrastructure/repositories/sqlalchemy_outbox.py).
use tiber.Prelude.{ℕ, Option, none, some, List, Bool, true, false, ◌≡◌, every, not, ◌||◌}
use tiber.Prelude.Eq.{◌==◌, nat_eq}
use tiber.Outbox.{OutboxRow, is_due, comes_first}

-- The row comes before every row that is due.
abbrev pub leads : ℕ → OutboxRow → OutboxRow → Bool
leads now r x = not (is_due now x) || comes_first r x

-- What it means that a row, or none, is next: it is a row of the table that is due and comes before
-- every other that is due; or none is due.
abbrev pub IsNext : ℕ → List OutboxRow → Option OutboxRow → Type 0
IsNext now rows none = every (λ x. not (is_due now x)) rows ≡ true
IsNext now rows (some r) =
    (is_due now r ≡ true)
    × (every (leads now r) rows ≡ true)
    × (every (λ x. not (x.id == r.id)) rows ≡ false)
