-- ===== src/Outbox/Batch.antt =====
-- What a whole run of the relay keeps (backend/src/tiber/application/services/outbox_relay.py).
use tiber.Prelude.{
  ℕ, zero, suc, ◌+◌, ◌≤◌, Option, none, some, List, [], ◌∷◌, Bool, true, false, ◌≡◌, ◌≢◌, ap, ◌⊎◌,
  arith, refl, Bool-cases, inl, inr, if◌then◌else◌, sym, ◌∙◌,
}
use tiber.Prelude.Eq.{◌==◌, nat_eq, nat_beq_iff}
use tiber.Store.{Store}
use tiber.Outbox.{
  OutboxRow, Relay, is_due, earlier, claim_next, update_row, publish, settled, published, failed,
  retry_at, relay_claimed, relay_available,
}
use tiber.Outbox.Sound.{IsBounded, settled-Settles}

abbrev pub In : OutboxRow → List OutboxRow → Type 0
In x [] = ⊥
In x (r ∷ rest) = (x ≡ r) ⊎ In x rest

-- The rows have numbers of their own and keep the bound on attempts.
pub record IsTable (limit : ℕ) (rows : List OutboxRow) : Type 0 where
  pub unique : (x y : OutboxRow) → In x rows → In y rows → x.id ≡ y.id → x ≡ y
  pub bounded : (x : OutboxRow) → In x rows → IsBounded limit x

-- The row that is claimed is a row of the table, and due.
abbrev IsClaim : ℕ → List OutboxRow → Option OutboxRow → Type 0
IsClaim now rows none = Unit {0}
IsClaim now rows (some r) = In r rows × (is_due now r ≡ true)

earlier-IsClaim :
    (now : ℕ) (r best : OutboxRow) (rest : List OutboxRow) (b : Bool)
    → is_due now r ≡ true
    → In best rest × (is_due now best ≡ true)
    → IsClaim now (r ∷ rest) (some (if b then r else best))
earlier-IsClaim now r best rest true due h = (inl refl, due)
earlier-IsClaim now r best rest false due (at, d) = (inr at, d)

step-IsClaim :
    (now : ℕ) (r : OutboxRow) (rest : List OutboxRow) (best : Option OutboxRow) (b : Bool)
    → is_due now r ≡ b
    → IsClaim now rest best
    → IsClaim now (r ∷ rest) (if b then some (earlier r best) else best)
step-IsClaim now r rest none true due h = (inl refl, due)
step-IsClaim now r rest none false due h = tt
step-IsClaim now r rest (some best) true due h = earlier-IsClaim now r best rest _ due h
step-IsClaim now r rest (some best) false due (at, d) = (inr at, d)

claim_next-IsClaim : (now : ℕ) (rows : List OutboxRow) → IsClaim now rows (claim_next now rows)
unfolding claim_next
claim_next-IsClaim now [] = tt
claim_next-IsClaim now (r ∷ rest) =
    step-IsClaim now r rest (claim_next now rest) _ refl (claim_next-IsClaim now rest)

-- A row of the updated table was there with another number, or is the update of a row.
abbrev From : ℕ → (OutboxRow → OutboxRow) → List OutboxRow → OutboxRow → Type 0
From id f rows y =
    (In y rows × ((y.id == id) ≡ false)) ⊎ ((x : OutboxRow) × In x rows × (x.id ≡ id) × (y ≡ f x))

From-later :
    (id : ℕ) (f : OutboxRow → OutboxRow) (r : OutboxRow) (rest : List OutboxRow) (y : OutboxRow)
    → From id f rest y
    → From id f (r ∷ rest) y
From-later id f r rest y (inl (at, other)) = inl (inr at, other)
From-later id f r rest y (inr (x, at, k, e)) = inr (x, inr at, k, e)

cons-From :
    (id : ℕ) (f : OutboxRow → OutboxRow) (r : OutboxRow) (rest others : List OutboxRow)
    (y : OutboxRow) (b : Bool)
    → (r.id == id) ≡ b
    → (In y others → From id f rest y)
    → In y (if b then f r ∷ others else r ∷ others)
    → From id f (r ∷ rest) y
cons-From id f r rest others y true e ih (inl q) = inr (r, inl refl, (nat_beq_iff r.id id).0 e, q)
cons-From id f r rest others y true e ih (inr at) = From-later id f r rest y (ih at)
cons-From id f r rest others y false e ih (inl q) = inl (inl q, rw q e)
cons-From id f r rest others y false e ih (inr at) = From-later id f r rest y (ih at)

update-From :
    (id : ℕ) (f : OutboxRow → OutboxRow) (rows : List OutboxRow) (y : OutboxRow)
    → In y (update_row id f rows)
    → From id f rows y
unfolding update_row
update-From id f [] y h = absurd h
update-From id f (r ∷ rest) y h =
    cons-From id f r rest (update_row id f rest) y _ refl (update-From id f rest y) h

settled-id : (c : Relay) (s : Store) (now : ℕ) (r x : OutboxRow) → (settled c s now r x).id ≡ x.id
settled-id c s now r x = go (publish c s r) (retry_at c now r)
  where
    go : (b : Bool) (t : Option ℕ) → (if b then published now x else failed now t x).id ≡ x.id
    go true t = refl
    go false none = refl
    go false (some t) = refl

other_number : (x : OutboxRow) (id : ℕ) → (x.id == id) ≡ false → x.id ≢ id
other_number x id p e = let t = (nat_beq_iff x.id id).1 e in cc

module _ (c : Relay) (s : Store) (base : 1 ≤ c.retry_base_seconds)
    (most : 1 ≤ c.retry_max_seconds) where
  update-IsTable :
      (now : ℕ) (r : OutboxRow) (rows : List OutboxRow)
      → In r rows
      → is_due now r ≡ true
      → IsTable c.max_attempts rows
      → IsTable c.max_attempts (update_row r.id (settled c s now r) rows)
  update-IsTable now r rows at due h = record {
    unique = λ x y a b e. same x y (update-From r.id _ rows x a) (update-From r.id _ rows y b) e;
    bounded = λ x a. within x (update-From r.id _ rows x a);
  }
    where
      same :
          (x y : OutboxRow)
          → From r.id (settled c s now r) rows x
          → From r.id (settled c s now r) rows y
          → x.id ≡ y.id
          → x ≡ y
      same x y (inl (a, p)) (inl (b, q)) e = h.unique x y a b e
      same x y (inl (a, p)) (inr (w, b, k, q)) e =
          absurd (other_number x r.id p (e ∙ ap (λ z. z.id) q ∙ settled-id c s now r w ∙ k))
      same x y (inr (v, a, k, p)) (inl (b, q)) e =
          absurd (other_number y r.id q (sym e ∙ ap (λ z. z.id) p ∙ settled-id c s now r v ∙ k))
      same x y (inr (v, a, k, p)) (inr (w, b, l, q)) e =
          p ∙ ap (settled c s now r) (h.unique v r a at k ∙ sym (h.unique w r b at l)) ∙ sym q

      within : (x : OutboxRow) → From r.id (settled c s now r) rows x → IsBounded c.max_attempts x
      within x (inl (a, p)) = h.bounded x a
      within x (inr (w, a, k, p)) =
          rw (p, h.unique w r a at k) (settled-Settles c s now r base most due (h.bounded r at)).0

  claimed-IsTable :
      (now : ℕ) (rows : List OutboxRow) (claim : Option OutboxRow) (batch : ℕ)
      (more : List OutboxRow → ℕ × List OutboxRow)
      → IsClaim now rows claim
      → IsTable c.max_attempts rows
      → ((rows' : List OutboxRow)
          → IsTable c.max_attempts rows'
          → ((more rows').0 ≤ batch) × IsTable c.max_attempts (more rows').1)
      → ((relay_claimed c s now claim rows more).0 ≤ batch + 1)
        × IsTable c.max_attempts (relay_claimed c s now claim rows more).1
  claimed-IsTable now rows none batch more k h ih = (omega arith, h)
  claimed-IsTable now rows (some r) batch more (at, due) h ih =
      let (few, t) = ih _ (update-IsTable now r rows at due h) in
      elim (Bool-cases (publish c s r)) [
        | inl y ↦ rw y (ground arith, t)
        | inr n ↦ rw n (ground arith, t)
      ]

  -- With delays of at least a second, a run of the relay publishes at most as many messages as the
  -- batch, and keeps the table: rows with numbers of their own, with attempts below the limit while
  -- a row waits and equal to it once it is dead-lettered.
  pub relay_available-IsTable :
      (batch : ℕ) (clock : ℕ → ℕ) (rows : List OutboxRow)
      → IsTable c.max_attempts rows
      → ((relay_available batch c s clock rows).0 ≤ batch)
        × IsTable c.max_attempts (relay_available batch c s clock rows).1
  unfolding relay_available
  relay_available-IsTable zero clock rows h = (omega arith, h)
  relay_available-IsTable (suc batch) clock rows h =
      let (few, t) =
        claimed-IsTable (clock batch) rows (claim_next (clock batch) rows) batch
          (λ rows'. relay_available batch c s clock rows') (claim_next-IsClaim (clock batch) rows) h
          (λ rows' h'. relay_available-IsTable batch clock rows' h') in
      (ground arith, t)
