-- ===== src/Processor/Channels.antt =====
-- The fan-out against its specification: a union of two sets of channels.
use tiber.Prelude.{
  ◌≡◌, ◌≢◌, refl, ap, ◌∙◌, sym, arith, ℕ, none, some, List, [], ◌∷◌, ◌++◌, true, ◌||◌, not,
  contains, distinct, keep, every,
}
use tiber.Prelude.Eq.{nat_eq}
use tiber.Prelude.Sets.{distinct-keep, every_of_contains}
use tiber.Enums.{DeliveryChannel, channel_eq}
use tiber.Result.{ok, err, other, >>=-eq-ok, ok-injective}
use tiber.Recipient.{Recipient}
use tiber.Notification.{Notification}
use tiber.Intake.{NotificationPlan}
use tiber.Intake.Record
use tiber.Intake.Record.{NotificationIntake}
use tiber.Time.{utc}
use tiber.Processor.{IntakePorts, Tables, save_intake, completing, finishing}
use tiber.Processor.FanOut.{make_children, channels_of, save_children, fan_out_of, fan_out}
use tiber.Processor.Spread.{
  IsFresh, channel_list, contains-append, contains-keep, distinct-append, make_children-AreNew,
  channels_of-children, all_new-children, save_children-notifications,
}

-- the notifications after a fan-out that returns
pub fan_out-eq_ok :
    (p : IntakePorts) (i : NotificationIntake) (plan : NotificationPlan) (r : Recipient)
    (w w' : Tables)
    → i.plan ≡ some plan
    → fan_out p i r w ≡ ok w'
    → (children : List Notification) × (make_children p i plan r
          (channels_of i.transaction_id i.project_id w.notifications)
          plan.channels
        ≡ ok children)
      × (j : NotificationIntake) × (Record.complete (p.clock completing) (utc (p.clock finishing)) i
          ≡ ok j)
      × (w' ≡ save_intake j (save_children children w))
unfolding fan_out
fan_out-eq_ok p i plan r w w' planned returned =
    let (children, made, rest) =
      >>=-eq-ok
        (make_children p i plan r (channels_of i.transaction_id i.project_id w.notifications)
          plan.channels)
        _ (sym (ap (fan_out_of p i r w) planned) ∙ returned) in
    let (j, completed, saved) =
      >>=-eq-ok (Record.complete (p.clock completing) (utc (p.clock finishing)) i) _ rest in
    (children, made, j, completed, ground arith)

-- an intake without a plan is not fanned out
pub fan_out_unplanned :
    (p : IntakePorts) (i : NotificationIntake) (r : Recipient) (w w' : Tables)
    → i.plan ≡ none
    → fan_out p i r w ≢ ok w'
unfolding fan_out
fan_out_unplanned p i r w w' missing returned =
    let raised : err other ≡ ok w' = sym (ap (fan_out_of p i r w) missing) ∙ returned in
    absurd (ground arith)

channels_of-append :
    (t q : ℕ) (rows more : List Notification)
    → channels_of t q (rows ++ more) ≡ channels_of t q rows ++ channels_of t q more
channels_of-append t q [] more = refl
channels_of-append t q (n ∷ rows) more = ground (arith, channels_of-append t q rows more)

-- what the fan-out adds to the channels of the transaction
added :
    (p : IntakePorts) (i : NotificationIntake) (plan : NotificationPlan) (r : Recipient)
    (w w' : Tables)
    → IsFresh p w.notifications
    → i.plan ≡ some plan
    → distinct plan.channels ≡ true
    → fan_out p i r w ≡ ok w'
    → channels_of i.transaction_id i.project_id w'.notifications
      ≡ channels_of i.transaction_id i.project_id w.notifications
        ++ keep
            (λ c. not (contains c (channels_of i.transaction_id i.project_id w.notifications)))
            plan.channels
unfolding save_intake
added p i plan r w w' fresh planned once returned =
    let existing = channels_of i.transaction_id i.project_id w.notifications in
    let (children, made, j, completed, same) = fan_out-eq_ok p i plan r w w' planned returned in
    let new = make_children-AreNew p i plan r existing plan.channels children made in
    let unique : distinct (channel_list children) ≡ true =
      rw new.channels (distinct-keep (λ c. not (contains c existing)) plan.channels once) in
    let ids =
      all_new-children p i plan children w.notifications (λ c _. fresh.unused c) fresh.own unique
        new.all in
    let rows : w'.notifications ≡ w.notifications ++ children =
      rw same (save_children-notifications children w ids) in
    rw
      (
        rows,
        channels_of-append i.transaction_id i.project_id w.notifications children,
        channels_of-children p i plan children new.all,
        new.channels,
      )
      refl

-- A fan-out that returns leaves the intake's transaction on exactly the channels that it was on
-- before and the channels of the plan, and on no channel twice if it was on none twice. The
-- identifiers of the children are fresh and the channels of the plan distinct.
pub fan_out-channels :
    (p : IntakePorts) (i : NotificationIntake) (plan : NotificationPlan) (r : Recipient)
    (w w' : Tables)
    → IsFresh p w.notifications
    → i.plan ≡ some plan
    → distinct plan.channels ≡ true
    → fan_out p i r w ≡ ok w'
    → ((c : DeliveryChannel)
        → contains c (channels_of i.transaction_id i.project_id w'.notifications) ≡ (
            contains c (channels_of i.transaction_id i.project_id w.notifications)
            || contains c plan.channels))
      × (distinct (channels_of i.transaction_id i.project_id w.notifications) ≡ true
          → distinct (channels_of i.transaction_id i.project_id w'.notifications) ≡ true)
fan_out-channels p i plan r w w' fresh planned once returned =
    let existing = channels_of i.transaction_id i.project_id w.notifications in
    let new : List DeliveryChannel = keep (λ c. not (contains c existing)) plan.channels in
    let after = added p i plan r w w' fresh planned once returned in
    (
      λ c. ground (
        arith,
        after,
        contains-append c existing new,
        contains-keep c (λ d. not (contains d existing)) plan.channels,
      ),
      λ before. rw after (
          distinct-append existing new before (distinct-keep _ plan.channels once) (λ c found.
            ground (arith, contains-keep c (λ d. not (contains d existing)) plan.channels))),
    )

make_children-nil :
    (p : IntakePorts) (i : NotificationIntake) (plan : NotificationPlan) (r : Recipient)
    (existing cs : List DeliveryChannel)
    → every (λ c. contains c existing) cs ≡ true
    → make_children p i plan r existing cs ≡ ok []
unfolding make_children
make_children-nil p i plan r existing [] h = refl
make_children-nil p i plan r existing (c ∷ cs) h =
    let old : contains c existing ≡ true = ground arith in
    rw old (make_children-nil p i plan r existing cs (ground arith))

-- A second fan-out of the same plan, as after a crash before the message was acknowledged, stores
-- no notification and no dispatch row, whatever the ports say by then. The identifiers of the
-- first are fresh and the channels of the plan distinct.
pub fan_out-again :
    (p q : IntakePorts) (i : NotificationIntake) (plan : NotificationPlan) (r r' : Recipient)
    (w w' w'' : Tables)
    → IsFresh p w.notifications
    → i.plan ≡ some plan
    → distinct plan.channels ≡ true
    → fan_out p i r w ≡ ok w'
    → fan_out q i r' w' ≡ ok w''
    → (w''.notifications ≡ w'.notifications) × (w''.dispatches ≡ w'.dispatches)
unfolding save_intake save_children
fan_out-again p q i plan r r' w w' w'' fresh planned once first second =
    let existing = channels_of i.transaction_id i.project_id w'.notifications in
    let spread = (fan_out-channels p i plan r w w' fresh planned once first).0 in
    let all : every (λ c. contains c existing) plan.channels ≡ true =
      every_of_contains (λ c. contains c existing) plan.channels
        (λ c found. ground (arith, spread c)) in
    let (children, made, j, completed, same) = fan_out-eq_ok q i plan r' w' w'' planned second in
    let none_new : children ≡ [] =
      ok-injective (sym made ∙ make_children-nil q i plan r' existing plan.channels all) in
    let stored : w'' ≡ save_intake j (save_children [] w') =
      same ∙ ap (λ cs. save_intake j (save_children cs w')) none_new in
    (ap (λ t. t.notifications) stored, ap (λ t. t.dispatches) stored)
