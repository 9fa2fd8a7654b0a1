-- ===== src/Processor/Ends.antt =====
-- How `process` ends: an intake that it claimed is completed or failed, unless an exception leaves
-- it claimed for a retry.
use tiber.Prelude.{
  ◌≡◌, refl, ap, if-both, if-split, ◌∙◌, sym, arith, ℕ, String, some, Bool, true, false,
  if◌then◌else◌, Option-cases, inl, inr, ltb, is_none,
}
use tiber.Prelude.Eq.{nat_eq, nat_beq_iff}
use mathlib.Core.Path.{subst, subst⁻¹}
use tiber.Result.{Result, Error, ok, err, >>=-eq-ok}
use tiber.Time.{DateTime, utc}
use tiber.Recipient.{Recipient}
use tiber.Intake.{NotificationPlan}
use tiber.Intake.Record
use tiber.Intake.Record.{NotificationIntake, intake_post_init, is_claimable}
use tiber.Intake.Plan.{wanted_decisions, assemble_plan}
use tiber.Processor.{
  IntakePorts, Tables, save_intake, claim_if, claim_found, claim_intake, decide_plan, save_failed,
  fail_found, fail_intake, is_caught, starting, claiming, planning, storing, ask, suggested_topic,
  is_over, failing, load_recipient, completing, finishing,
}
use tiber.Processor.FanOut.{save_children, fan_out}
use tiber.Processor.Channels.{fan_out-eq_ok, fan_out_unplanned}
use tiber.Processor.Process.{
  finish_fan_out, planned_intake, on_planned, on_recipient, expand, handle, on_claimed, on_claim,
  process,
}

-- the table has an intake under its own identifier
pub record IsFiled (id : ℕ) (w : Tables) : Type 0 where
  pub intake : NotificationIntake
  pub found : w.intakes id ≡ some intake
  pub own : intake.id ≡ id

-- the table has an intake there that is completed or failed
pub record IsOver (id : ℕ) (w : Tables) : Type 0 where
  pub intake : NotificationIntake
  pub found : w.intakes id ≡ some intake
  pub over : is_over intake ≡ true

save_intake-IsFiled :
    (i : NotificationIntake) (id : ℕ) (w : Tables) → i.id ≡ id → IsFiled id (save_intake i w)
unfolding save_intake
save_intake-IsFiled i id w own = record {
  intake = i;
  found = ground (arith, nat_beq_iff id i.id);
  own = own;
}

save_intake-IsOver :
    (i : NotificationIntake) (id : ℕ) (w : Tables)
    → i.id ≡ id
    → is_over i ≡ true
    → IsOver id (save_intake i w)
unfolding save_intake
save_intake-IsOver i id w own over = record {
  intake = i;
  found = ground (arith, nat_beq_iff id i.id);
  over = over;
}

claim-id :
    (clock lease : ℕ) (now : DateTime) (i j : NotificationIntake)
    → Record.claim clock now lease i ≡ ok j
    → j.id ≡ i.id
unfolding Record.claim intake_post_init
claim-id clock lease now i j e = ground arith

with_plan-id :
    (clock : ℕ) (plan : NotificationPlan) (i j : NotificationIntake)
    → Record.with_plan clock plan i ≡ ok j
    → j.id ≡ i.id
unfolding Record.with_plan intake_post_init
with_plan-id clock plan i j e = ground arith

complete-over :
    (clock : ℕ) (now : DateTime) (i j : NotificationIntake)
    → Record.complete clock now i ≡ ok j
    → (j.id ≡ i.id) × (is_over j ≡ true)
unfolding Record.complete intake_post_init
complete-over clock now i j e = ground arith

fail-over :
    (clock : ℕ) (reason : String) (i j : NotificationIntake)
    → Record.fail clock reason i ≡ ok j
    → (j.id ≡ i.id) × (is_over j ≡ true)
unfolding Record.fail intake_post_init
fail-over clock reason i j e = ground arith

module _ (p : IntakePorts) (id : ℕ) where
  -- a return leaves the intake completed or failed
  abbrev Settles : Result (Unit {0}) × Tables → Type 0
  Settles outcome = outcome.0 ≡ ok tt → IsOver id outcome.1

  save_failed-Settles :
      (w : Tables) (x : Result NotificationIntake)
      → ((j : NotificationIntake) → x ≡ ok j → (j.id ≡ id) × (is_over j ≡ true))
      → Settles (save_failed w x)
  save_failed-Settles w (err e) h returned = absurd (ground arith)
  save_failed-Settles w (ok j) h returned = save_intake-IsOver j id w (h j refl).0 (h j refl).1

  fail_found-Settles :
      (reason : String) (w : Tables) (i : NotificationIntake)
      → w.intakes id ≡ some i
      → i.id ≡ id
      → Settles (fail_found p reason w (some i))
  fail_found-Settles reason w i found own =
      if-split Settles (is_over i)
        (λ over returned. record { intake = i; found = found; over = over })
        (λ running. save_failed-Settles w (Record.fail (p.clock failing) reason i) (λ j failed.
          let (same, over) = fail-over (p.clock failing) reason i j failed in (same ∙ own, over)))

  fail_intake-Settles :
      (reason : String) (w : Tables) → IsFiled id w → Settles (fail_intake p id reason w)
  unfolding fail_intake
  fail_intake-Settles reason w filed =
      subst⁻¹ (λ o. Settles (fail_found p reason w o)) filed.found
        (fail_found-Settles reason w filed.intake filed.found filed.own)

  finish-Settles :
      (w : Tables) (x : Result Tables)
      → ((w' : Tables) → x ≡ ok w' → IsOver id w')
      → Settles (finish_fan_out w x)
  finish-Settles w (err e) h returned = absurd (ground arith)
  finish-Settles w (ok w') h returned = h w' refl

  fan_out-IsOver :
      (i : NotificationIntake) (r : Recipient) (w w' : Tables)
      → i.id ≡ id
      → fan_out p i r w ≡ ok w'
      → IsOver id w'
  fan_out-IsOver i r w w' own e = elim (Option-cases i.plan) [
    | inl missing ↦ absurd (fan_out_unplanned p i r w w' missing e)
    | inr (plan, planned) ↦
        let (children, made, j, done, same) = fan_out-eq_ok p i plan r w w' planned e in
        let (kept, over) = complete-over (p.clock completing) (utc (p.clock finishing)) i j done in
        subst⁻¹ (IsOver id) same
          (save_intake-IsOver j id (save_children children w) (kept ∙ own) over)
  ]

  decide_plan-id :
      (i : NotificationIntake) (r : Recipient) (w : Tables) (j : NotificationIntake) (w' : Tables)
      → i.id ≡ id
      → decide_plan p i r w ≡ ok (j, w')
      → (j.id ≡ id) × IsFiled id w'
  unfolding decide_plan
  decide_plan-id i r w j w' own e =
      let want = wanted_decisions i.payload i.constraints in
      let suggestion = ask p i r want in
      let (plan, assembled, rest) =
        >>=-eq-ok
          (assemble_plan i.payload i.constraints suggestion (suggested_topic p i want suggestion)
            (p.clock planning))
          _ e in
      let (k, planned, saved) = >>=-eq-ok (Record.with_plan (p.clock storing) plan i) _ rest in
      let kept : k.id ≡ id = with_plan-id (p.clock storing) plan i k planned ∙ own in
      let stored : w' ≡ save_intake k w = ground arith in
      let same : j ≡ k = ground arith in
      (ground arith, subst⁻¹ (IsFiled id) stored (save_intake-IsFiled k id w kept))

  -- what the body of the `try` leaves: settled by a return, still filed by an exception
  abbrev Proceeds : Result (Unit {0}) × Tables → Type 0
  Proceeds outcome = Settles outcome × ((e : Error) → outcome.0 ≡ err e → IsFiled id outcome.1)

  finish-Proceeds :
      (w : Tables) (x : Result Tables)
      → IsFiled id w
      → ((w' : Tables) → x ≡ ok w' → IsOver id w')
      → Proceeds (finish_fan_out w x)
  finish-Proceeds w (err e) filed h = (λ r. absurd (ground arith), λ e' r. filed)
  finish-Proceeds w (ok w') filed h = (λ r. h w' refl, λ e' r. absurd (ground arith))

  on_planned-Proceeds :
      (r : Recipient) (w : Tables) (x : Result (NotificationIntake × Tables))
      → IsFiled id w
      → ((j : NotificationIntake) (w' : Tables) → x ≡ ok (j, w') → (j.id ≡ id) × IsFiled id w')
      → Proceeds (on_planned p r w x)
  on_planned-Proceeds r w (err e) filed h = (λ q. absurd (ground arith), λ e' q. filed)
  on_planned-Proceeds r w (ok (j, w')) filed h =
      let (own, kept) = h j w' refl in
      finish-Proceeds w' (fan_out p j r w') kept (λ w'' e. fan_out-IsOver j r w' w'' own e)

  planned_intake-id :
      (i : NotificationIntake) (r : Recipient) (w : Tables) (b : Bool) (j : NotificationIntake)
      (w' : Tables)
      → i.id ≡ id
      → IsFiled id w
      → (if b then decide_plan p i r w else ok (i, w)) ≡ ok (j, w')
      → (j.id ≡ id) × IsFiled id w'
  planned_intake-id i r w true j w' own filed e = decide_plan-id i r w j w' own e
  planned_intake-id i r w false j w' own filed e =
      let stored : w' ≡ w = ground arith in
      let same : j ≡ i = ground arith in (ground arith, subst⁻¹ (IsFiled id) stored filed)

  on_recipient-Proceeds :
      (i : NotificationIntake) (w : Tables) (x : Result Recipient)
      → i.id ≡ id
      → IsFiled id w
      → Proceeds (on_recipient p i w x)
  on_recipient-Proceeds i w (err e) own filed = (λ q. absurd (ground arith), λ e' q. filed)
  on_recipient-Proceeds i w (ok r) own filed =
      on_planned-Proceeds r w (planned_intake p i r w) filed
        (λ j w' e. planned_intake-id i r w (is_none i.plan) j w' own filed e)

  handle-Settles : (x : Result (Unit {0}) × Tables) → Proceeds x → Settles (handle p id x)
  handle-Settles (ok _, w) h = h.0
  handle-Settles (err e, w) h =
      if-both Settles (is_caught e) (fail_intake-Settles (p.error_text e) w (h.1 e refl))
        (λ returned. absurd (ground arith))

  on_claimed-Settles :
      (i : NotificationIntake) (w : Tables) → i.id ≡ id → IsFiled id w → Settles (on_claimed p i w)
  unfolding expand
  on_claimed-Settles i w own filed =
      subst⁻¹
        (λ k. Settles (
          if ltb p.max_attempts i.attempts
          then fail_intake p k (p.exceeded_text p.max_attempts) w
          else handle p k (expand p i w)))
        own
        (if-both Settles (ltb p.max_attempts i.attempts)
          (fail_intake-Settles (p.exceeded_text p.max_attempts) w filed)
          (handle-Settles (expand p i w)
            (on_recipient-Proceeds i w (load_recipient p i) own filed)))

  claim_intake-id :
      (w : Tables) (i : NotificationIntake) (w' : Tables)
      → IsFiled id w
      → claim_intake p id w ≡ ok (some i, w')
      → (i.id ≡ id) × IsFiled id w'
  unfolding claim_intake claim_found
  claim_intake-id w i w' filed e =
      let found = sym (ap (claim_found p w) filed.found) ∙ e in
      let (b, claimable, rest) =
        >>=-eq-ok (is_claimable (utc (p.clock starting)) p.lease filed.intake) _ found in
      claim_if-id w filed.intake b i w' filed.own rest
    where
      claim_if-id :
          (w : Tables) (k : NotificationIntake) (b : Bool) (i : NotificationIntake) (w' : Tables)
          → k.id ≡ id
          → claim_if p w k b ≡ ok (some i, w')
          → (i.id ≡ id) × IsFiled id w'
      claim_if-id w k false i w' own e = absurd (ground arith)
      claim_if-id w k true i w' own e =
          let (c, claimed, saved) =
            >>=-eq-ok (Record.claim (p.clock claiming) (utc (p.clock starting)) p.lease k) _ e in
          let kept : c.id ≡ id =
            claim-id (p.clock claiming) p.lease (utc (p.clock starting)) k c claimed ∙ own in
          let stored : w' ≡ save_intake c w = ground arith in
          let same : i ≡ c = ground arith in
          (ground arith, subst⁻¹ (IsFiled id) stored (save_intake-IsFiled c id w kept))

  -- A `process` that claims its intake and returns leaves it completed or failed.
  pub process-IsOver :
      (w : Tables) (i : NotificationIntake) (w' w'' : Tables)
      → IsFiled id w
      → claim_intake p id w ≡ ok (some i, w')
      → process p id w ≡ (ok tt, w'')
      → IsOver id w''
  unfolding process
  process-IsOver w i w' w'' filed claimed returned =
      let (own, kept) = claim_intake-id w i w' filed claimed in
      let run : on_claimed p i w' ≡ (ok tt, w'') = sym (ap (on_claim p w) claimed) ∙ returned in
      subst (IsOver id) (ap (λ x. x.1) run) (on_claimed-Settles i w' own kept (ap (λ x. x.0) run))
