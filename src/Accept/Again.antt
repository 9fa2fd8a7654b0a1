-- ===== src/Accept/Again.antt =====
-- Idempotency of the acceptance: a request that is sent again under its key gets the first answer
-- and writes nothing (`accept` and `_replay` of
-- backend/src/tiber/application/services/notification_intake.py).
use tiber.Prelude.{
  ◌≡◌, ◌≤◌, ◌+◌, refl, ap, sym, ◌∙◌, arith, ℕ, String, Option, none, some, true, inl, inr,
  Option-cases,
}
use tiber.Prelude.Eq.{==-refl, nat_eq, string_eq}
use tiber.Result.{ok, ◌>>=◌, >>=-eq-ok, ok-injective}
use tiber.Intake.{payload_post_init}
use tiber.Intake.Constraints.{compute_constraints}
use tiber.Intake.Record.{
  NotificationIntake, NewIntake, new_received, create_intake, intake_post_init,
}
use tiber.Recipient.Resolution.{resolve_recipient}
use tiber.Json.{IsFaithful}
use tiber.Recipient.Book.{Book}
use tiber.IntakeStore.Parts.{ordered_intake}
use tiber.IntakeStore.Rows.{Table, add, get_by_idempotency_key}
use tiber.IntakeStore.Roundtrip.{IsStorable}
use tiber.IntakeStore.Lookup.{get_by_idempotency_key-add}
use tiber.Command.{AcceptCommand}
use tiber.Accept.{
  fingerprint, require_topic, require_template, request_of, payload_of, AcceptedIntake, Desk,
  AcceptPorts, replay_found, replay_key, replay, make_intake, after_replay, accept,
}
use tiber.Accept.Later.{Later, replay-Later, idempotency_window}
use tiber.Accept.Replay.{Outcome, replayed, created, accept-Outcome}

-- the answer of a replay
abbrev pub again : AcceptedIntake → AcceptedIntake
again a = record a { replayed = true }

-- A lookup that answers does so as a replay, so that the same lookup answers again.
replay_found-again :
    (cmd : AcceptCommand) (hash : String) (o : Option NotificationIntake) (a : AcceptedIntake)
    → replay_found cmd hash o ≡ ok (some a)
    → again a ≡ a
replay_found-again cmd hash none a e = ground arith
replay_found-again cmd hash (some i) a e = ground arith

replay-again :
    (p : AcceptPorts) (cmd : AcceptCommand) (f : String) (rows : Table) (a : AcceptedIntake)
    → replay p cmd f rows ≡ ok (some a)
    → again a ≡ a
unfolding replay
replay-again p cmd f rows a e = elim (Option-cases cmd.idempotency_key) [
  | inl missing ↦
      let raised : ok none ≡ ok (some a) = sym (ap (replay_key p cmd f rows) missing) ∙ e in
      absurd (ground arith)
  | inr (key, given) ↦
      let found = sym (ap (replay_key p cmd f rows) given) ∙ e in
      let (o, loaded, rest) =
        >>=-eq-ok (get_by_idempotency_key p.codec cmd.project_id key rows) _ found in
      replay_found-again cmd f o a rest
]

replay_key-codec :
    (q p : AcceptPorts) (cmd : AcceptCommand) (f : String) (rows : Table) (o : Option String)
    → q.codec ≡ p.codec
    → replay_key q cmd f rows o ≡ replay_key p cmd f rows o
replay_key-codec q p cmd f rows none same = refl
replay_key-codec q p cmd f rows (some key) same =
    ap (λ c. get_by_idempotency_key c cmd.project_id key rows >>= replay_found cmd f) same

replay-codec :
    (q p : AcceptPorts) (cmd : AcceptCommand) (f : String) (rows : Table)
    → q.codec ≡ p.codec
    → replay q cmd f rows ≡ replay p cmd f rows
unfolding replay
replay-codec q p cmd f rows same = replay_key-codec q p cmd f rows cmd.idempotency_key same

create_intake-eq :
    (clock : ℕ) (f : NewIntake) (i : NotificationIntake)
    → create_intake clock f ≡ ok i
    → i ≡ new_received clock f
unfolding create_intake intake_post_init
create_intake-eq clock f i e = ground arith

module _ (p : AcceptPorts) (cmd : AcceptCommand) where
  matching :
      (intake : NotificationIntake)
      → intake.request_fingerprint ≡ fingerprint p cmd
      → replay_found cmd (fingerprint p cmd) (some (ordered_intake intake))
        ≡ ok (
            some (record {
              transaction_id = intake.transaction_id;
              project_id = intake.project_id;
              replayed = true;
            }))
  matching intake same = rw (same, ==-refl (fingerprint p cmd)) refl

  found-again :
      (rows rows' : Table) (intake : NotificationIntake) (book : Book) (key : String)
      → IsFaithful p.codec
      → IsStorable p.codec intake
      → intake.request_fingerprint ≡ fingerprint p cmd
      → intake.project_id ≡ cmd.project_id
      → intake.idempotency_key ≡ some key
      → cmd.idempotency_key ≡ some key
      → add p.codec intake rows ≡ ok rows'
      → replay p cmd (fingerprint p cmd) rows'
        ≡ ok (
            some (record {
              transaction_id = intake.transaction_id;
              project_id = intake.project_id;
              replayed = true;
            }))
  unfolding replay
  found-again rows rows' intake book key faithful storable same project keyed keyed' added =
      let lookup : get_by_idempotency_key p.codec cmd.project_id key rows'
          ≡ ok (some (ordered_intake intake)) =
        ap (λ n. get_by_idempotency_key p.codec n key rows') (sym project)
        ∙ (get_by_idempotency_key-add p.codec intake key rows rows' faithful storable keyed
            added).0 in
      ap (replay_key p cmd (fingerprint p cmd) rows') keyed'
      ∙ ap (λ o. o >>= replay_found cmd (fingerprint p cmd)) lookup
      ∙ matching intake same

  -- what the intake that `make_intake` gives has of the request
  make_intake-fields :
      (recipients : Book) (intake : NotificationIntake) (book : Book)
      → make_intake p cmd recipients ≡ ok (intake, book)
      → (intake.request_fingerprint ≡ fingerprint p cmd)
        × (intake.project_id ≡ cmd.project_id)
        × (intake.idempotency_key ≡ cmd.idempotency_key)
  unfolding make_intake
  make_intake-fields recipients intake book e =
      let (topic, _, e1) = >>=-eq-ok (require_topic p cmd) _ e in
      let (template, _, e2) = >>=-eq-ok (require_template p cmd) _ e1 in
      let (resolved, _, e3) =
        >>=-eq-ok
          (resolve_recipient p.resolver cmd.project_id cmd.recipient_id cmd.addresses recipients) _
          e2 in
      let (constraints, _, e4) =
        >>=-eq-ok (compute_constraints p.findall (request_of p cmd template resolved.0)) _ e3 in
      let (payload, _, e5) = >>=-eq-ok (payload_post_init (payload_of p cmd topic template)) _ e4 in
      let (i, built, e6) = >>=-eq-ok (create_intake p.clock _) _ e5 in
      let same : i ≡ intake = ap (λ x. x.0) (ok-injective e6) in
      let new = sym same ∙ create_intake-eq p.clock _ i built in
      (
        ap (λ x. x.request_fingerprint) new,
        ap (λ x. x.project_id) new,
        ap (λ x. x.idempotency_key) new,
      )

  answers :
      (desk : Desk) (a : AcceptedIntake) (desk' : Desk) (key : String)
      → IsFaithful p.codec
      → cmd.idempotency_key ≡ some key
      → ((intake : NotificationIntake) (book : Book)
          → make_intake p cmd desk.recipients ≡ ok (intake, book)
          → IsStorable p.codec intake)
      → Outcome p cmd desk a desk'
      → replay p cmd (fingerprint p cmd) desk'.intakes ≡ ok (some (again a))
  answers desk a desk' key faithful keyed storable (replayed found kept) =
      found
      ∙ ap (λ b. ok (some b)) (sym (replay-again p cmd (fingerprint p cmd) desk'.intakes a found))
  answers desk a desk' key faithful keyed storable (created intake book made added answer sent) =
      let (same, project, own) = make_intake-fields desk.recipients intake book made in
      found-again (p.between desk.intakes) desk'.intakes intake book key faithful
        (storable intake book made) same project (own ∙ keyed) keyed added
      ∙ ap (λ b. ok (some (again b))) (sym answer)

  -- Within the time for which the API documents that a key is kept, a request under an idempotency
  -- key whose `accept` returned is answered by a second `accept` with the same transaction, marked
  -- as a replay, and the tables that it reads stay as they are. In between, intakes may have been
  -- added, and stored ones saved as they are processed: storable, under the same project,
  -- transaction, fingerprint and key. The messages and the recipients may be any. The codec and
  -- the fingerprint of the request are the same at both calls, the codec is faithful, and an intake
  -- that the first call made is storable.
  pub accept-again :
      (q : AcceptPorts) (desk : Desk) (a : AcceptedIntake) (desk' now : Desk) (key : String)
      → IsFaithful p.codec
      → q.codec ≡ p.codec
      → fingerprint q cmd ≡ fingerprint p cmd
      → cmd.idempotency_key ≡ some key
      → ((intake : NotificationIntake) (book : Book)
          → make_intake p cmd desk.recipients ≡ ok (intake, book)
          → IsStorable p.codec intake)
      → accept p cmd desk ≡ ok (a, desk')
      → q.clock ≤ p.clock + idempotency_window
      → Later p.codec desk'.intakes now.intakes
      → accept q cmd now ≡ ok (again a, now)
  unfolding accept
  accept-again q desk a desk' now key faithful codec hash keyed storable e within later =
      let first =
        answers desk a desk' key faithful keyed storable (accept-Outcome p cmd desk a desk' e) in
      let answered =
        replay-Later p cmd faithful desk'.intakes now.intakes key (again a) keyed later first in
      ap (λ o. o >>= after_replay q cmd now)
        (ap (λ f. replay q cmd f now.intakes) hash
          ∙ replay-codec q p cmd (fingerprint p cmd) now.intakes codec
          ∙ answered)
