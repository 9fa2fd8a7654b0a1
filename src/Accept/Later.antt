-- ===== src/Accept/Later.antt =====
-- What happens to the intakes between two calls of `accept`
-- (backend/src/tiber/application/services/notification_intake.py), and that it leaves a replay as it
-- was.
use mathlib.Core.Path.{ap₂}
use tiber.Prelude.{
  ◌≡◌, ◌⊎◌, ap, sym, ◌∙◌, arith, ℕ, String, Option, none, some, [], ◌∷◌, Bool, true, inl, inr,
  Option-cases, Bool-cases, if◌then◌else◌, ◌&&◌,
}
use tiber.Prelude.Eq.{◌==◌, nat_eq, string_eq}
use tiber.Result.{Result, ok, err, ◌>>=◌, >>=-eq-ok, ok-injective, idempotency_conflict}
use tiber.Time.{day}
use tiber.Json.{Codec, IsFaithful}
use tiber.Json.Enums.{intake_status_of}
use tiber.Intake.Record.{NotificationIntake, intake_post_init}
use tiber.IntakeStore.Shapes.{payload_from_json, constraints_from_json}
use tiber.IntakeStore.Rows.{
  Row, Table, row_where, merge, same_key, has_id, has_key, values, stored_plan, to_entity,
  entity_of, add, save, get_by_idempotency_key,
}
use tiber.IntakeStore.Roundtrip.{IsStorable, to_entity-values}
use tiber.IntakeStore.Lookup.{add-eq_ok}
use tiber.Command.{AcceptCommand}
use tiber.Accept.{AcceptPorts, AcceptedIntake, fingerprint, replay_found, replay_key, replay}

-- The time for which the API documents that a key is kept (backend/src/tiber/api/openapi.yaml). The
-- code never reads it: a key stays taken.
abbrev pub idempotency_window : ℕ
idempotency_window = day

-- The intake is the one of the row, at whatever stage: its methods keep these.
pub record Continues (i : NotificationIntake) (r : Row) : Type 0 where
  pub same_project : i.project_id ≡ r.project_id
  pub same_transaction : i.transaction_id ≡ r.transaction_id
  pub same_fingerprint : i.request_fingerprint ≡ r.request_fingerprint
  pub same_idempotency_key : i.idempotency_key ≡ r.idempotency_key

-- What the transactions that follow make of the intakes: they add intakes, and save a stored intake
-- as its processing goes on.
pub data Later (c : Codec) (rows : Table) : Table → Type 0 where
  unchanged : Later c rows rows
  stored :
      {rows' rows'' : Table}
      → Later c rows rows'
      → (i : NotificationIntake) → add c i rows' ≡ ok rows''
      → Later c rows rows''
  saved :
      {rows' : Table}
      → Later c rows rows'
      → (i : NotificationIntake) (r : Row) → row_where (has_id i.id) rows' ≡ some r
      → Continues i r
      → IsStorable c i
      → Later c rows (save c i rows')

same_key-eq : (o : Option String) (key : String) → same_key o (some key) ≡ true → o ≡ some key
same_key-eq none key h = absurd (ground arith)
same_key-eq (some k) key h = ap some ((string_eq.same_iff k key).0 h)

has_key-eq :
    (c : Codec) (i : NotificationIntake) (project : ℕ) (key : String)
    → has_key project (some key) (values c i) ≡ true
    → (i.project_id ≡ project) × (i.idempotency_key ≡ some key)
unfolding values
has_key-eq c i project key h =
    let own : (i.project_id == project) ≡ true = ground arith in
    let keyed : same_key i.idempotency_key (some key) ≡ true = ground arith in
    ((nat_eq.same_iff i.project_id project).0 own, same_key-eq i.idempotency_key key keyed)

-- An intake that is added takes no key of another.
row_where-added :
    (c : Codec) (i : NotificationIntake) (project : ℕ) (key : String) (r : Row) (rows rows' : Table)
    → row_where (has_key project (some key)) rows ≡ some r
    → add c i rows ≡ ok rows'
    → row_where (has_key project (some key)) rows' ≡ some r
unfolding add values
row_where-added c i project key r rows rows' found fresh =
    elim (Bool-cases (has_key project (some key) (values c i))) [
      | inl e ↦
          let (own, keyed) = has_key-eq c i project key e in
          let hit = ap₂ (λ n o. row_where (has_key n o) rows) own keyed ∙ found in
          absurd (ground (arith, hit))
      | inr e ↦ rw (add-eq_ok c i rows rows' fresh, e) found
    ]

-- A saved row is found where the row that it replaces was.
row_where-merge_same :
    (test : Row → Bool) (r' r : Row) (rows : Table)
    → row_where (has_id r'.id) rows ≡ some r
    → test r' ≡ test r
    → (row_where test (merge r' rows) ≡ row_where test rows)
      ⊎ ((row_where test (merge r' rows) ≡ some r') × (row_where test rows ≡ some r))
unfolding merge
row_where-merge_same test r' r [] found same = absurd (ground arith)
row_where-merge_same test r' r (r0 ∷ rows) found same = elim (Bool-cases (r0.id == r'.id)) [
  | inl e ↦
      let own : r0 ≡ r = ground arith in
      let alike : test r' ≡ test r0 = same ∙ ap test (sym own) in
      elim (Bool-cases (test r0)) [
        | inl t ↦ inr (ground (arith, alike), ground (arith, own))
        | inr t ↦ inl (ground (arith, alike))
      ]
  | inr e ↦
      let later : row_where (has_id r'.id) rows ≡ some r = ground arith in
      elim (row_where-merge_same test r' r rows later same) [
        | inl kept ↦ inl (ground (arith, kept))
        | inr (new, old) ↦ elim (Bool-cases (test r0)) [
          | inl t ↦ inl (ground arith)
          | inr t ↦ inr (ground arith, ground arith)
        ]
      ]
]

intake_post_init-eq : (i j : NotificationIntake) → intake_post_init i ≡ ok j → i ≡ j
unfolding intake_post_init
intake_post_init-eq i j e = ground arith

module _ (c : Codec) where
  -- what the intake of a row has of the row
  to_entity-Continues : (r : Row) (i : NotificationIntake) → to_entity c r ≡ ok i → Continues i r
  unfolding to_entity
  to_entity-Continues r i e =
      let (payload, _, e1) = >>=-eq-ok (payload_from_json c r.payload) _ e in
      let (constraints, _, e2) = >>=-eq-ok (constraints_from_json c r.constraints) _ e1 in
      let (status, _, e3) = >>=-eq-ok (intake_status_of r.status) _ e2 in
      let (plan, _, e4) = >>=-eq-ok (stored_plan c r.plan) _ e3 in
      let same = intake_post_init-eq _ i e4 in
      record {
        same_project = ap (λ x. x.project_id) (sym same);
        same_transaction = ap (λ x. x.transaction_id) (sym same);
        same_fingerprint = ap (λ x. x.request_fingerprint) (sym same);
        same_idempotency_key = ap (λ x. x.idempotency_key) (sym same);
      }

module _ (p : AcceptPorts) (cmd : AcceptCommand) where
  -- the answer from the row of the key
  abbrev answer : Option Row → Result (Option AcceptedIntake)
  answer o = entity_of p.codec o >>= replay_found cmd (fingerprint p cmd)

  replay-answer :
      (rows : Table) (key : String)
      → cmd.idempotency_key ≡ some key
      → replay p cmd (fingerprint p cmd) rows
        ≡ answer (row_where (has_key cmd.project_id (some key)) rows)
  unfolding replay get_by_idempotency_key
  replay-answer rows key keyed = ap (replay_key p cmd (fingerprint p cmd) rows) keyed

  answer_from : String → ℕ → ℕ → Result (Option AcceptedIntake)
  answer_from hash transaction project =
      (if hash == fingerprint p cmd
        then ok (record { transaction_id = transaction; project_id = project; replayed = true })
        else err idempotency_conflict)
      >>= λ a. ok (some a)

  answer-saved :
      (i : NotificationIntake) (r : Row) (a : AcceptedIntake)
      → IsFaithful p.codec
      → IsStorable p.codec i
      → Continues i r
      → answer (some r) ≡ ok (some a)
      → answer (some (values p.codec i)) ≡ ok (some a)
  unfolding entity_of answer_from
  answer-saved i r a faithful storable kept found =
      let (o, loaded, rest) = >>=-eq-ok (entity_of p.codec (some r)) _ found in
      let (e, read, last) = >>=-eq-ok (to_entity p.codec r) _ loaded in
      let own = to_entity-Continues p.codec r e read in
      let stored = ap (replay_found cmd (fingerprint p cmd)) (ok-injective last) ∙ rest in
      rw (to_entity-values p.codec faithful i storable) (
        ap₂ (λ h t. answer_from h t i.project_id) (kept.same_fingerprint ∙ sym own.same_fingerprint)
          (kept.same_transaction ∙ sym own.same_transaction)
        ∙ ap (λ n. answer_from e.request_fingerprint e.transaction_id n)
            (kept.same_project ∙ sym own.same_project)
        ∙ stored)

  -- Intakes that are added or processed later do not change an answer.
  pub replay-Later :
      IsFaithful p.codec
      → (rows rows' : Table) (key : String) (a : AcceptedIntake) → cmd.idempotency_key ≡ some key
      → Later p.codec rows rows'
      → replay p cmd (fingerprint p cmd) rows ≡ ok (some a)
      → replay p cmd (fingerprint p cmd) rows' ≡ ok (some a)
  unfolding save values entity_of
  replay-Later faithful rows _ key a keyed unchanged found = found
  replay-Later faithful rows rows'' key a keyed (stored {rows'} before i fresh) found =
      let test = has_key cmd.project_id (some key) in
      let earlier = replay-Later faithful rows rows' key a keyed before found in
      let at_row = sym (replay-answer rows' key keyed) ∙ earlier in
      replay-answer rows'' key keyed ∙ elim (Option-cases (row_where test rows')) [
        | inl missing ↦
            let raised : ok none ≡ ok (some a) = sym (ap answer missing) ∙ at_row in
            absurd (ground arith)
        | inr (r, held) ↦
            let same = row_where-added p.codec i cmd.project_id key r rows' rows'' held fresh in
            ap answer (same ∙ sym held) ∙ at_row
      ]
  replay-Later faithful rows _ key a keyed (saved {rows'} before i r held kept storable) found =
      let test = has_key cmd.project_id (some key) in
      let earlier = replay-Later faithful rows rows' key a keyed before found in
      let at_row = sym (replay-answer rows' key keyed) ∙ earlier in
      let alike : test (values p.codec i) ≡ test r =
        ap₂ (λ n k. (n == cmd.project_id) && same_key k (some key)) kept.same_project
          kept.same_idempotency_key in
      replay-answer _ key keyed
      ∙ elim (row_where-merge_same test (values p.codec i) r rows' held alike) [
        | inl same ↦ ap answer same ∙ at_row
        | inr (new, old) ↦
            ap answer new ∙ answer-saved i r a faithful storable kept (sym (ap answer old) ∙ at_row)
      ]
