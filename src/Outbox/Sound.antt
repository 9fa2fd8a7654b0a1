-- ===== src/Outbox/Sound.antt =====
-- What one transaction of the relay writes (backend/src/tiber/application/services/outbox_relay.py).
use tiber.Prelude.{
  ℕ, ◌+◌, ◌*◌, ◌<◌, ◌≤◌, none, some, true, false, ◌≡◌, ◌≢◌, arith, refl, Bool-cases, inl, inr, leb,
}
use native.Mathlib.Nat.{one-le-pow, mul-le-mul_left}
use tiber.Time.{seconds}
use tiber.Store.{Store}
use tiber.Outbox.{
  OutboxRow, Relay, is_due, publish, retry_at, retry_delay, settled, published, failed,
}

-- A row that waits has attempts left, and one is dead-lettered when they are spent.
pub record IsBounded (limit : ℕ) (r : OutboxRow) : Type 0 where
  pub open_attempts : r.dead_lettered_at ≡ none → r.published_at ≡ none → r.attempts < limit
  pub spent : r.dead_lettered_at ≢ none → r.attempts ≡ limit
  pub one_end : r.dead_lettered_at ≢ none → r.published_at ≡ none

-- How the transaction of one message ends.
pub data Settles (c : Relay) (s : Store) (now : ℕ) (r r' : OutboxRow) : Type 0 where
  goes_out : publish c s r ≡ true → r' ≡ published now r → Settles c s now r r'
  waits :
      publish c s r ≡ false
      → r'.attempts ≡ r.attempts + 1
      → r'.attempts < c.max_attempts
      → now < r'.available_at
      → r'.available_at ≤ now + c.retry_max_seconds * seconds
      → Settles c s now r r'
  dead_letters :
      publish c s r ≡ false
      → r'.attempts ≡ c.max_attempts
      → r'.dead_lettered_at ≡ some now
      → Settles c s now r r'

retry_delay-bounds :
    (c : Relay) (n : ℕ)
    → 1 ≤ c.retry_base_seconds
    → 1 ≤ c.retry_max_seconds
    → (1 ≤ retry_delay c n) × (retry_delay c n ≤ c.retry_max_seconds)
unfolding retry_delay
retry_delay-bounds c n b m =
    let up = one-le-pow n 2 (ground arith) in
    let wide = mul-le-mul_left c.retry_base_seconds up in ground arith

module _ (c : Relay) (s : Store) (now : ℕ) (r : OutboxRow) (due : is_due now r ≡ true)
    (h : IsBounded c.max_attempts r) where
  published-Settles :
      publish c s r ≡ true
      → IsBounded c.max_attempts (published now r) × Settles c s now r (published now r)
  published-Settles e = (ground arith, goes_out e refl)

  dead-Settles :
      publish c s r ≡ false
      → leb c.max_attempts (r.attempts + 1) ≡ true
      → IsBounded c.max_attempts (failed now none r) × Settles c s now r (failed now none r)
  dead-Settles e full =
      let open' : r.attempts < c.max_attempts = ground arith in
      (ground arith, dead_letters e (ground arith) refl)

  waiting-Settles :
      (delay : ℕ)
      → publish c s r ≡ false
      → leb c.max_attempts (r.attempts + 1) ≡ false
      → 1 ≤ delay
      → delay ≤ c.retry_max_seconds
      → let r' = failed now (some (now + delay * seconds)) r in
        IsBounded c.max_attempts r' × Settles c s now r r'
  waiting-Settles delay e left some_delay most =
      (ground arith, waits e refl (ground arith) (ground arith) (ground arith))

-- With delays of at least a second, a row that is due and keeps the bound on attempts is published
-- where the publisher takes it. Otherwise it counts one attempt more, and waits for a later time,
-- by the longest delay at most, while attempts are left, and is dead-lettered when they are spent.
-- The bound on attempts is kept.
pub settled-Settles :
    (c : Relay) (s : Store) (now : ℕ) (r : OutboxRow)
    → 1 ≤ c.retry_base_seconds
    → 1 ≤ c.retry_max_seconds
    → is_due now r ≡ true
    → IsBounded c.max_attempts r
    → IsBounded c.max_attempts (settled c s now r r) × Settles c s now r (settled c s now r r)
unfolding retry_at
settled-Settles c s now r b m due h =
    let (some_delay, most) = retry_delay-bounds c r.attempts b m in
    elim (Bool-cases (publish c s r)) [
      | inl taken ↦ rw taken (published-Settles c s now r due h taken)
      | inr refused ↦ elim (Bool-cases (leb c.max_attempts (r.attempts + 1))) [
        | inl full ↦ rw (refused, full) (dead-Settles c s now r due h refused full)
        | inr left ↦
            rw (refused, left)
              (waiting-Settles c s now r due h (retry_delay c r.attempts) refused left some_delay
                most)
      ]
    ]
