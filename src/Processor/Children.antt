-- ===== src/Processor/Children.antt =====
-- What the fan-out makes of one planned channel: the identity of the child and where it stands.
use tiber.Prelude.{
  ◌≡◌, arith, ℕ, String, Option, none, some, ◌⊎◌, inl, inr, Option-cases, Bool-cases,
}
use tiber.Enums.{DeliveryChannel, pending, postponed, suppressed, status_eq}
use tiber.Result.{ok, >>=-eq-ok}
use tiber.Time.{DateTime, utc}
use tiber.Content.{NotificationContent, validate_content}
use tiber.Notification.{
  Notification, new_pending, create, with_content, schedule, transition, mark_postponed,
  mark_suppressed,
}
use tiber.Notification.Invariant.{IsConsistent, post_init-IsConsistent}
use tiber.Recipient.{Recipient, DeliveryConstraint}
use tiber.Policy.{PolicyDecision, evaluate}
use tiber.Template.Render.{resolve_content}
use tiber.Intake.{NotificationPlan}
use tiber.Intake.Record.{NotificationIntake}
use tiber.Processor.{IntakePorts, creating, rendering, scheduling, checking, deciding}
use tiber.Delivery.Begin.{is_postpone, reason_of}
use tiber.Processor.FanOut.{
  child_fields, placeholder, render_template, render_content, render_by, render_child, time_for,
  schedule_child, build_child, on_rejection, apply_policy, make_child,
}

-- The child of a planned channel: its identity comes from the intake and the plan, and it waits,
-- is postponed or is suppressed.
pub record IsChild (p : IntakePorts) (i : NotificationIntake) (plan : NotificationPlan)
    (channel : DeliveryChannel) (n : Notification) : Type 0 where
  pub id : n.id ≡ p.new_id channel
  pub project : n.project_id ≡ i.project_id
  pub recipient : n.recipient_id ≡ i.recipient_id
  pub transaction : n.transaction_id ≡ i.transaction_id
  pub on_channel : n.channel ≡ channel
  pub category : n.category ≡ plan.category
  pub key : n.idempotency_key ≡ i.idempotency_key
  pub status : (n.status ≡ pending) ⊎ ((n.status ≡ postponed) ⊎ (n.status ≡ suppressed))
  pub consistent : IsConsistent n

module _ (p : IntakePorts) (i : NotificationIntake) (plan : NotificationPlan)
    (channel : DeliveryChannel) where
  create-IsChild :
      (now : ℕ) (content : NotificationContent) {n : Notification}
      → create now (p.new_id channel) content (child_fields i plan channel) ≡ ok n
      → IsChild p i plan channel n
  unfolding create
  create-IsChild now content {n} e = ground (
    arith,
    post_init-IsConsistent
        (new_pending now (p.new_id channel) content (child_fields i plan channel)) {m = n},
  )

  with_content-IsChild :
      (now : ℕ) (content : NotificationContent) (n : Notification) {m : Notification}
      → IsChild p i plan channel n
      → with_content now content n ≡ ok m
      → IsChild p i plan channel m
  unfolding with_content
  with_content-IsChild now content n {m} h e = ground (arith, post_init-IsConsistent _ {m = m} e)

  schedule-IsChild :
      (now : ℕ) (t : DateTime) (n : Notification) {m : Notification}
      → IsChild p i plan channel n
      → schedule now t n ≡ ok m
      → IsChild p i plan channel m
  unfolding schedule
  schedule-IsChild now t n {m} h e =
      ground (
        arith,
        post_init-IsConsistent (record n { send_at = some t; updated_at = utc now }) {m = m},
      )

  schedule_child-IsChild :
      (t : Option DateTime) (n : Notification) {m : Notification}
      → IsChild p i plan channel n
      → schedule_child p channel t n ≡ ok m
      → IsChild p i plan channel m
  schedule_child-IsChild none n {m} h e = ground arith
  schedule_child-IsChild (some t) n {m} h e =
      ground (arith, schedule-IsChild (p.clock (scheduling channel)) t n {m = m})

  mark_postponed-IsChild :
      (now : ℕ) (t : DateTime) (n : Notification) {m : Notification}
      → IsChild p i plan channel n
      → mark_postponed now t n ≡ ok m
      → IsChild p i plan channel m
  unfolding mark_postponed transition
  mark_postponed-IsChild now t n {m} h e = ground (
    arith,
    post_init-IsConsistent (record n { status = postponed; send_at = some t; updated_at = utc now })
        {m = m},
  )

  mark_suppressed-IsChild :
      (now : ℕ) (reason : String) (n : Notification) {m : Notification}
      → IsChild p i plan channel n
      → mark_suppressed now reason n ≡ ok m
      → IsChild p i plan channel m
  unfolding mark_suppressed transition
  mark_suppressed-IsChild now reason n {m} h e = ground (
    arith,
    post_init-IsConsistent
        (record n { status = suppressed; suppression_reason = some reason; updated_at = utc now })
        {m = m},
  )

  on_rejection-IsChild :
      (now : ℕ) (d : PolicyDecision) (n : Notification) {m : Notification}
      → IsChild p i plan channel n
      → on_rejection now d n ≡ ok m
      → IsChild p i plan channel m
  on_rejection-IsChild now d n {m} h e = elim (Bool-cases (is_postpone d.consequence)) [
    | inl post ↦ elim (Option-cases d.resume_at) [
      | inl missing ↦ absurd (ground arith)
      | inr (t, at) ↦ mark_postponed-IsChild now t n {m = m} h (ground arith)
    ]
    | inr other ↦ mark_suppressed-IsChild now (reason_of d.reason) n {m = m} h (ground arith)
  ]

  apply_policy-IsChild :
      (r : Recipient) (constraint : Option DeliveryConstraint) (n : Notification) {m : Notification}
      → IsChild p i plan channel n
      → apply_policy p channel r constraint n ≡ ok m
      → IsChild p i plan channel m
  unfolding apply_policy
  apply_policy-IsChild r constraint n {m} h e =
      let d = evaluate p.rules (p.clock (checking channel)) n r constraint in
      elim (Bool-cases d.allowed) [
        | inl allowed ↦ ground arith
        | inr rejected ↦
            on_rejection-IsChild (p.clock (deciding channel)) d n {m = m} h (ground arith)
      ]

  render_content-IsChild :
      (content : Option NotificationContent) {n : Notification}
      → render_content p i plan channel content ≡ ok n
      → IsChild p i plan channel n
  render_content-IsChild none e = ground arith
  render_content-IsChild (some content) e =
      let (_, _, built) =
        >>=-eq-ok (validate_content channel content)
          (λ _.
            create (p.clock (creating channel)) (p.new_id channel) content
              (child_fields i plan channel))
          e in
      create-IsChild (p.clock (creating channel)) content built

  render_template-IsChild :
      {n : Notification} → render_template p i plan channel ≡ ok n → IsChild p i plan channel n
  render_template-IsChild e =
      let (provisional, created, rest) =
        >>=-eq-ok
          (create (p.clock (creating channel)) (p.new_id channel) (placeholder channel)
            (child_fields i plan channel))
          _ e in
      let (content, resolved, rendered) =
        >>=-eq-ok (resolve_content p.re p.get_template provisional) _ rest in
      with_content-IsChild (p.clock (rendering channel)) content provisional
        (create-IsChild (p.clock (creating channel)) (placeholder channel) created) rendered

  render_by-IsChild :
      (template : Option ℕ) {n : Notification}
      → render_by p i plan channel template ≡ ok n
      → IsChild p i plan channel n
  render_by-IsChild none e = render_content-IsChild i.payload.content e
  render_by-IsChild (some id) e = render_template-IsChild e

  render_child-IsChild :
      {n : Notification} → render_child p i plan channel ≡ ok n → IsChild p i plan channel n
  unfolding render_child
  render_child-IsChild e = render_by-IsChild i.payload.template_id e

  pub make_child-IsChild :
      (r : Recipient) {n : Notification}
      → make_child p i plan r channel ≡ ok n
      → IsChild p i plan channel n
  unfolding build_child
  make_child-IsChild r {n} e =
      let (child, built, checked) = >>=-eq-ok (build_child p i plan channel) _ e in
      let (n', rendered, scheduled) = >>=-eq-ok (render_child p i plan channel) _ built in
      apply_policy-IsChild r (p.load_constraint i.project_id) child
        (schedule_child-IsChild (time_for channel plan.send_at) n' (render_child-IsChild rendered)
          scheduled)
        checked
