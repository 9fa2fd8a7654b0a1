-- ===== src/Accept/Replay.antt =====
-- What a call of `accept` has done (backend/src/tiber/application/services/notification_intake.py): it
-- has answered from a stored intake, or stored a new one together with its message.
use tiber.Prelude.{◌≡◌, refl, ap, sym, ◌∙◌, arith, Option, none, some, ◌∷◌, false}
use tiber.Prelude.Eq.{string_eq}
use tiber.Result.{Result, ok, err, >>=-eq-ok, ok-injective, intake_already_exists}
use tiber.Intake.Record.{NotificationIntake}
use tiber.Recipient.Book.{Book}
use tiber.IntakeStore.Rows.{Table, add}
use tiber.Command.{AcceptCommand}
use tiber.Accept.{
  fingerprint, AcceptedIntake, Desk, AcceptPorts, replay, make_intake, message_of, replay_winner,
  after_add, after_replay, accept,
}

module _ (p : AcceptPorts) (cmd : AcceptCommand) where
  -- What a call of `accept` that returns has done: answered from the intakes that it read or that
  -- were committed meanwhile, or added an intake.
  pub data Outcome (desk : Desk) (a : AcceptedIntake) (desk' : Desk) : Type 0 where
    replayed :
        replay p cmd (fingerprint p cmd) desk'.intakes ≡ ok (some a)
        → desk'.messages ≡ desk.messages
        → Outcome desk a desk'
    created :
        (intake : NotificationIntake) (book : Book)
        → make_intake p cmd desk.recipients ≡ ok (intake, book)
        → add p.codec intake (p.between desk.intakes) ≡ ok desk'.intakes
        → a ≡ record {
          transaction_id = intake.transaction_id;
          project_id = intake.project_id;
          replayed = false;
        }
        → desk'.messages ≡ message_of p cmd intake ∷ desk.messages
        → Outcome desk a desk'

  replay_winner-Outcome :
      (desk present : Desk) (o : Option AcceptedIntake) (a : AcceptedIntake) (desk' : Desk)
      → present.messages ≡ desk.messages
      → replay p cmd (fingerprint p cmd) present.intakes ≡ ok o
      → replay_winner p present o ≡ ok (a, desk')
      → Outcome desk a desk'
  replay_winner-Outcome desk present none a desk' kept found e = absurd (ground arith)
  replay_winner-Outcome desk present (some b) a desk' kept found e =
      let pair = ok-injective e in
      let same : present ≡ desk' = ap (λ x. x.1) pair in
      replayed
        (ap (λ d. replay p cmd (fingerprint p cmd) d.intakes) (sym same)
          ∙ found
          ∙ ap (λ x. ok (some x.0)) pair)
        (ap (λ d. d.messages) (sym same) ∙ kept)

  after_add-Outcome :
      (desk : Desk) (intake : NotificationIntake) (book : Book) (x : Result Table)
      (a : AcceptedIntake) (desk' : Desk)
      → make_intake p cmd desk.recipients ≡ ok (intake, book)
      → add p.codec intake (p.between desk.intakes) ≡ x
      → after_add p cmd intake
          (record desk { intakes = p.between desk.intakes; recipients = book })
          x
        ≡ ok (a, desk')
      → Outcome desk a desk'
  after_add-Outcome desk intake book (ok rows) a desk' made added e =
      let pair = ok-injective e in
      created intake book made (added ∙ ap (λ x. ok x.1.intakes) pair) (sym (ap (λ x. x.0) pair))
        (sym (ap (λ x. x.1.messages) pair))
  after_add-Outcome desk intake book (err intake_already_exists) a desk' made added e =
      let present : Desk = record desk { intakes = p.between desk.intakes; recipients = book } in
      let (o, found, rest) = >>=-eq-ok (replay p cmd (fingerprint p cmd) present.intakes) _ e in
      replay_winner-Outcome desk present o a desk' refl found rest
  after_add-Outcome desk intake book (err x) a desk' made added e = absurd (ground arith)

  after_replay-Outcome :
      (desk : Desk) (o : Option AcceptedIntake) (a : AcceptedIntake) (desk' : Desk)
      → replay p cmd (fingerprint p cmd) desk.intakes ≡ ok o
      → after_replay p cmd desk o ≡ ok (a, desk')
      → Outcome desk a desk'
  after_replay-Outcome desk (some b) a desk' found e =
      replay_winner-Outcome desk desk (some b) a desk' refl found e
  after_replay-Outcome desk none a desk' found e =
      let (made, built, rest) = >>=-eq-ok (make_intake p cmd desk.recipients) _ e in
      after_add-Outcome desk made.0 made.1 (add p.codec made.0 (p.between desk.intakes)) a desk'
        built refl rest

  -- A call of `accept` that returns has either answered as a replay and written no message, or
  -- added one intake and one message for it.
  pub accept-Outcome :
      (desk : Desk) (a : AcceptedIntake) (desk' : Desk)
      → accept p cmd desk ≡ ok (a, desk')
      → Outcome desk a desk'
  unfolding accept
  accept-Outcome desk a desk' e =
      let (o, found, rest) = >>=-eq-ok (replay p cmd (fingerprint p cmd) desk.intakes) _ e in
      after_replay-Outcome desk o a desk' found rest
