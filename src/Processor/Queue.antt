-- ===== src/Processor/Queue.antt =====
-- No notification that waits is forgotten: each one that is pending or postponed has a dispatch
-- row, written in the transaction that stores it.
use tiber.Prelude.{
  ◌≡◌, refl, arith, ℕ, String, Option, none, some, List, [], ◌∷◌, Bool, true, false, ◌||◌, not,
  every, if◌then◌else◌, Option-cases, inl, inr, ltb, if-both, is_none,
}
use tiber.Prelude.Eq.{◌==◌, nat_eq, nat_beq_iff}
use tiber.Prelude.Sets.{every-imp}
use tiber.Enums.{NotificationStatus, pending, postponed, status_eq}
use tiber.Result.{Result, ok, err, >>=-eq-ok}
use tiber.Time.{utc}
use tiber.Recipient.{Recipient}
use tiber.Notification.{Notification}
use tiber.Intake.Record
use tiber.Intake.Record.{NotificationIntake, is_claimable}
use tiber.Intake.Plan.{wanted_decisions, assemble_plan}
use tiber.Processor.{
  IntakePorts, Tables, Dispatch, save_intake, claim_if, claim_found, claim_intake, decide_plan,
  fail_found, fail_intake, is_caught, starting, claiming, planning, save_failed, storing, ask,
  suggested_topic, is_over, failing, load_recipient,
}
use tiber.Processor.FanOut.{is_queued, save_row, save_child, save_children, fan_out}
use tiber.Processor.Channels.{fan_out-eq_ok, fan_out_unplanned}
use tiber.Processor.Process.{
  finish_fan_out, planned_intake, on_planned, on_recipient, expand, handle, on_claim, process,
}

abbrev pub has_dispatch : ℕ → List Dispatch → Bool
has_dispatch id [] = false
has_dispatch id (d ∷ rest) = d.notification_id == id || has_dispatch id rest

-- a notification that is still to be delivered: pending or postponed
abbrev pub is_waiting : NotificationStatus → Bool
is_waiting pending = true
is_waiting postponed = true
is_waiting _ = false

abbrev pub is_announced : List Dispatch → Notification → Bool
is_announced dispatches n = not (is_waiting n.status) || has_dispatch n.id dispatches

-- every notification that waits has a dispatch row
abbrev pub AllAnnounced : Tables → Type 0
AllAnnounced w = every (is_announced w.dispatches) w.notifications ≡ true

is_waiting-eq-is_queued : (n : Notification) → is_waiting n.status ≡ is_queued n
is_waiting-eq-is_queued n = ground arith

every-save_row :
    (f : Notification → Bool) (n : Notification) (rows : List Notification)
    → f n ≡ true
    → every f rows ≡ true
    → every f (save_row n rows) ≡ true
unfolding save_row
every-save_row f n [] new h = ground arith
every-save_row f n (m ∷ rest) new h = ground (arith, every-save_row f n rest new)

save_child-AllAnnounced :
    (n : Notification) (w : Tables) → AllAnnounced w → AllAnnounced (save_child n w)
save_child-AllAnnounced n w h =
    every-save_row (is_announced (save_child n w).dispatches) n w.notifications
      (ground (arith, is_waiting-eq-is_queued n, nat_beq_iff n.id n.id))
      (every-imp (is_announced w.dispatches) (is_announced (save_child n w).dispatches)
        w.notifications (λ m k. ground arith) h)

save_children-AllAnnounced :
    (children : List Notification) (w : Tables)
    → AllAnnounced w
    → AllAnnounced (save_children children w)
unfolding save_children
save_children-AllAnnounced [] w h = h
save_children-AllAnnounced (n ∷ rest) w h =
    save_children-AllAnnounced rest (save_child n w) (save_child-AllAnnounced n w h)

save_intake-AllAnnounced :
    (i : NotificationIntake) (w : Tables) → AllAnnounced w → AllAnnounced (save_intake i w)
unfolding save_intake
save_intake-AllAnnounced i w h = h

-- what holds of the tables of an outcome
abbrev Announced : Result (Unit {0}) × Tables → Type 0
Announced outcome = AllAnnounced outcome.1

module _ (p : IntakePorts) where
  claim_if-AllAnnounced :
      (w : Tables) (i : NotificationIntake) (b : Bool) (o : Option NotificationIntake) (w' : Tables)
      → AllAnnounced w
      → claim_if p w i b ≡ ok (o, w')
      → AllAnnounced w'
  claim_if-AllAnnounced w i false o w' h e = let same : w' ≡ w = ground arith in rw same h
  claim_if-AllAnnounced w i true o w' h e =
      let (c, claimed, saved) =
        >>=-eq-ok (Record.claim (p.clock claiming) (utc (p.clock starting)) p.lease i) _ e in
      let same : w' ≡ save_intake c w = ground arith in rw same (save_intake-AllAnnounced c w h)

  claim_found-AllAnnounced :
      (w : Tables) (o o' : Option NotificationIntake) (w' : Tables)
      → AllAnnounced w
      → claim_found p w o ≡ ok (o', w')
      → AllAnnounced w'
  unfolding claim_found
  claim_found-AllAnnounced w none o' w' h e = let same : w' ≡ w = ground arith in rw same h
  claim_found-AllAnnounced w (some i) o' w' h e =
      let (b, claimable, rest) = >>=-eq-ok (is_claimable (utc (p.clock starting)) p.lease i) _ e in
      claim_if-AllAnnounced w i b o' w' h rest

  decide_plan-AllAnnounced :
      (i : NotificationIntake) (r : Recipient) (w : Tables) (j : NotificationIntake) (w' : Tables)
      → AllAnnounced w
      → decide_plan p i r w ≡ ok (j, w')
      → AllAnnounced w'
  unfolding decide_plan
  decide_plan-AllAnnounced i r w j w' h e =
      let want = wanted_decisions i.payload i.constraints in
      let suggestion = ask p i r want in
      let (plan, assembled, rest) =
        >>=-eq-ok
          (assemble_plan i.payload i.constraints suggestion (suggested_topic p i want suggestion)
            (p.clock planning))
          _ e in
      let (k, planned, saved) = >>=-eq-ok (Record.with_plan (p.clock storing) plan i) _ rest in
      let same : w' ≡ save_intake k w = ground arith in rw same (save_intake-AllAnnounced k w h)

  save_failed-Announced :
      (w : Tables) (x : Result NotificationIntake) → AllAnnounced w → Announced (save_failed w x)
  save_failed-Announced w (err e) h = h
  save_failed-Announced w (ok i) h = save_intake-AllAnnounced i w h

  fail_found-Announced :
      (reason : String) (w : Tables) (o : Option NotificationIntake)
      → AllAnnounced w
      → Announced (fail_found p reason w o)
  fail_found-Announced reason w none h = h
  fail_found-Announced reason w (some i) h =
      if-both Announced (is_over i) h
        (save_failed-Announced w (Record.fail (p.clock failing) reason i) h)

  fan_out-AllAnnounced :
      (i : NotificationIntake) (r : Recipient) (w w' : Tables)
      → AllAnnounced w
      → fan_out p i r w ≡ ok w'
      → AllAnnounced w'
  fan_out-AllAnnounced i r w w' h e = elim (Option-cases i.plan) [
    | inl missing ↦ absurd (fan_out_unplanned p i r w w' missing e)
    | inr (plan, planned) ↦
        let (children, made, j, completed, same) = fan_out-eq_ok p i plan r w w' planned e in
        rw same (
          save_intake-AllAnnounced j (save_children children w)
            (save_children-AllAnnounced children w h))
  ]

  finish-Announced :
      (w : Tables) (x : Result Tables)
      → AllAnnounced w
      → ((w' : Tables) → x ≡ ok w' → AllAnnounced w')
      → Announced (finish_fan_out w x)
  finish-Announced w (err e) h k = h
  finish-Announced w (ok w') h k = k w' refl

  on_planned-Announced :
      (r : Recipient) (w : Tables) (x : Result (NotificationIntake × Tables))
      → AllAnnounced w
      → ((j : NotificationIntake) (w' : Tables) → x ≡ ok (j, w') → AllAnnounced w')
      → Announced (on_planned p r w x)
  on_planned-Announced r w (err e) h k = h
  on_planned-Announced r w (ok (j, w')) h k =
      finish-Announced w' (fan_out p j r w') (k j w' refl)
        (λ w'' e. fan_out-AllAnnounced j r w' w'' (k j w' refl) e)

  planned_intake-AllAnnounced :
      (i : NotificationIntake) (r : Recipient) (w : Tables) (b : Bool) (j : NotificationIntake)
      (w' : Tables)
      → AllAnnounced w
      → (if b then decide_plan p i r w else ok (i, w)) ≡ ok (j, w')
      → AllAnnounced w'
  planned_intake-AllAnnounced i r w true j w' h e = decide_plan-AllAnnounced i r w j w' h e
  planned_intake-AllAnnounced i r w false j w' h e = let same : w' ≡ w = ground arith in rw same h

  on_recipient-Announced :
      (i : NotificationIntake) (w : Tables) (x : Result Recipient)
      → AllAnnounced w
      → Announced (on_recipient p i w x)
  on_recipient-Announced i w (err e) h = h
  on_recipient-Announced i w (ok r) h =
      on_planned-Announced r w (planned_intake p i r w) h
        (λ j w' e. planned_intake-AllAnnounced i r w (is_none i.plan) j w' h e)

  handle-Announced :
      (id : ℕ) (x : Result (Unit {0}) × Tables) → Announced x → Announced (handle p id x)
  unfolding fail_intake
  handle-Announced id (ok _, w) h = h
  handle-Announced id (err e, w) h =
      if-both Announced (is_caught e) (fail_found-Announced (p.error_text e) w (w.intakes id) h) h

  on_claim-Announced :
      (w : Tables) (x : Result (Option NotificationIntake × Tables))
      → AllAnnounced w
      → ((o : Option NotificationIntake) (w' : Tables) → x ≡ ok (o, w') → AllAnnounced w')
      → Announced (on_claim p w x)
  unfolding fail_intake expand
  on_claim-Announced w (err e) h k = h
  on_claim-Announced w (ok (none, w')) h k = k none w' refl
  on_claim-Announced w (ok (some i, w')) h k =
      let claimed = k (some i) w' refl in
      if-both Announced (ltb p.max_attempts i.attempts)
        (fail_found-Announced (p.exceeded_text p.max_attempts) w' (w'.intakes i.id) claimed)
        (handle-Announced i.id (expand p i w')
          (on_recipient-Announced i w' (load_recipient p i) claimed))

  -- However `process` ends, each notification that is pending or postponed has a dispatch row if
  -- each had one before.
  pub process-AllAnnounced :
      (id : ℕ) (w : Tables) → AllAnnounced w → AllAnnounced (process p id w).1
  unfolding process claim_intake
  process-AllAnnounced id w h =
      on_claim-Announced w (claim_found p w (w.intakes id)) h
        (λ o w' e. claim_found-AllAnnounced w (w.intakes id) o w' h e)
