-- ===== src/Processor/FanOut.antt =====
-- The fan-out of a planned intake (backend/src/tiber/application/services/intake_processor.py):
-- the child of each planned channel is built, rendered, scheduled and checked against the policy
-- in memory, then T3 stores the children, their dispatch rows and the completed intake.
use tiber.Prelude.{
  ℕ, Option, none, some, List, [], ◌∷◌, Bool, ◌&&◌, ◌||◌, if◌then◌else◌, is_some, contains,
}
use tiber.Prelude.Eq.{◌==◌, nat_eq}
use tiber.Enums.{
  DeliveryChannel, channel_eq, pending, postponed, status_eq, SendTimeBasis, explicit, immediate,
  ml_predicted,
}
use tiber.Result.{Result, ok, err, ◌>>=◌, ◌>>◌, value_error, other}
use tiber.Time.{DateTime, utc}
use tiber.Content.{NotificationContent, validate_content, is_email}
use tiber.Template.Render.{resolve_content}
use tiber.Notification.{
  Notification, NewNotification, create, with_content, schedule, is_status, is_ml_predicted,
  mark_postponed, mark_suppressed,
}
use tiber.Recipient.{Recipient, DeliveryConstraint}
use tiber.Policy.{PolicyDecision, evaluate, is_critical}
use tiber.Delivery.Begin.{is_postpone, reason_of}
use tiber.Intake.{NotificationPlan, ResolvedTopic, Times}
use tiber.Intake.Record
use tiber.Intake.Record.{NotificationIntake}
use tiber.Processor.{
  IntakePorts, creating, rendering, scheduling, checking, deciding, completing, finishing, Dispatch,
  Tables, save_intake,
}

unfoldable pub send_time_basis : NotificationIntake → NotificationPlan → SendTimeBasis
send_time_basis i plan =
    if is_some i.payload.send_at
    then explicit
    else if is_critical plan.category
    then immediate
    else ml_predicted

abbrev pub topic_id : Option ResolvedTopic → Option ℕ
topic_id none = none
topic_id (some t) = some t.id

-- the `fields` of `_build_child`
abbrev pub child_fields : NotificationIntake → NotificationPlan → DeliveryChannel → NewNotification
child_fields i plan channel = record {
  project_id = i.project_id;
  recipient_id = i.recipient_id;
  transaction_id = i.transaction_id;
  channel = channel;
  category = plan.category;
  topic_id = topic_id plan.topic;
  template_id = i.payload.template_id;
  template_variables = i.payload.template_variables;
  group_key = i.payload.group_key;
  idempotency_key = i.idempotency_key;
  send_at = i.payload.send_at;
  send_time_basis = send_time_basis i plan;
}

abbrev pub placeholder : DeliveryChannel → NotificationContent
placeholder channel = record {
  body = "[template pending]";
  title = if is_email channel then some "[template pending]" else none;
  actions = [];
  images = [];
}

-- a provisional child, for the template to be rendered against
abbrev pub render_template :
    IntakePorts → NotificationIntake → NotificationPlan → DeliveryChannel → Result Notification
render_template p i plan channel = do
  provisional ←
      create (p.clock (creating channel)) (p.new_id channel) (placeholder channel)
        (child_fields i plan channel)
  content ← resolve_content p.re p.get_template provisional
  with_content (p.clock (rendering channel)) content provisional

-- the client's content as it is
abbrev pub render_content :
    IntakePorts
    → NotificationIntake
    → NotificationPlan
    → DeliveryChannel
    → Option NotificationContent
    → Result Notification
render_content p i plan channel none = err other
render_content p i plan channel (some content) = do
  validate_content channel content
  create (p.clock (creating channel)) (p.new_id channel) content (child_fields i plan channel)

abbrev pub render_by :
    IntakePorts
    → NotificationIntake
    → NotificationPlan
    → DeliveryChannel
    → Option ℕ
    → Result Notification
render_by p i plan channel (some _) = render_template p i plan channel
render_by p i plan channel none = render_content p i plan channel i.payload.content

-- the child, rendered
unfoldable pub render_child :
    IntakePorts → NotificationIntake → NotificationPlan → DeliveryChannel → Result Notification
render_child p i plan channel = render_by p i plan channel i.payload.template_id

-- `plan.send_at.get(channel)`
abbrev pub time_for : DeliveryChannel → Times → Option DateTime
time_for channel [] = none
time_for channel ((c, t) ∷ rest) =
    let later = time_for channel rest in if c == channel then some t else later

abbrev pub schedule_child :
    IntakePorts → DeliveryChannel → Option DateTime → Notification → Result Notification
schedule_child p channel none n = ok n
schedule_child p channel (some t) n =
    if is_ml_predicted n.send_time_basis then schedule (p.clock (scheduling channel)) t n else ok n

-- `_build_child`
unfoldable pub build_child :
    IntakePorts → NotificationIntake → NotificationPlan → DeliveryChannel → Result Notification
unfolding render_child
build_child p i plan channel = do
  n ← render_child p i plan channel
  schedule_child p channel (time_for channel plan.send_at) n

abbrev pub on_rejection : ℕ → PolicyDecision → Notification → Result Notification
on_rejection now d n =
    if is_postpone d.consequence
    then elim d.resume_at [ none ↦ err value_error | some t ↦ mark_postponed now t n ]
    else mark_suppressed now (reason_of d.reason) n

-- `_apply_policy`
unfoldable pub apply_policy :
    IntakePorts
    → DeliveryChannel
    → Recipient
    → Option DeliveryConstraint
    → Notification
    → Result Notification
apply_policy p channel r constraint n =
    let d = evaluate p.rules (p.clock (checking channel)) n r constraint in
    if d.allowed then ok n else on_rejection (p.clock (deciding channel)) d n

-- the child of one channel
abbrev pub make_child :
    IntakePorts
    → NotificationIntake
    → NotificationPlan
    → Recipient
    → DeliveryChannel
    → Result Notification
make_child p i plan r channel = do
  child ← build_child p i plan channel
  apply_policy p channel r (p.load_constraint i.project_id) child

-- the loop over the planned channels; `existing` are the channels of an earlier attempt
unfoldable pub make_children :
    IntakePorts
    → NotificationIntake
    → NotificationPlan
    → Recipient
    → List DeliveryChannel
    → List DeliveryChannel
    → Result (List Notification)
make_children p i plan r existing [] = ok []
make_children p i plan r existing (channel ∷ rest) =
    let others = make_children p i plan r existing rest in
    if contains channel existing
    then others
    else do child ← make_child p i plan r channel; children ← others; ok (child ∷ children)

-- `{n.channel for n in list_by_transaction_id(...)}`
abbrev pub channels_of : ℕ → ℕ → List Notification → List DeliveryChannel
channels_of transaction project [] = []
channels_of transaction project (n ∷ rest) =
    let others = channels_of transaction project rest in
    if n.transaction_id == transaction && n.project_id == project
    then n.channel ∷ others
    else others

-- `save` of a notification: the row with its id is replaced, or the row is added
unfoldable pub save_row : Notification → List Notification → List Notification
save_row n [] = n ∷ []
save_row n (m ∷ rest) =
    let others = save_row n rest in if m.id == n.id then n ∷ rest else m ∷ others

-- `child.status in (PENDING, POSTPONED)`
abbrev pub is_queued : Notification → Bool
is_queued n = is_status n.status pending || is_status n.status postponed

-- `enqueue_dispatch`
abbrev pub dispatch_of : Notification → Dispatch
dispatch_of n = record {
  notification_id = n.id;
  project_id = n.project_id;
  channel = n.channel;
  high = is_critical n.category;
  available_at = n.send_at;
}

abbrev pub save_child : Notification → Tables → Tables
save_child n w = record w {
  notifications = save_row n w.notifications;
  dispatches = if is_queued n then dispatch_of n ∷ w.dispatches else w.dispatches;
}

-- the loop of T3
unfoldable pub save_children : List Notification → Tables → Tables
unfolding save_row
save_children [] w = w
save_children (n ∷ rest) w = save_children rest (save_child n w)

abbrev pub fan_out_plan :
    IntakePorts → NotificationIntake → Recipient → Tables → NotificationPlan → Result Tables
fan_out_plan p i r w plan = do
  children ←
      make_children p i plan r (channels_of i.transaction_id i.project_id w.notifications)
        plan.channels
  completed ← Record.complete (p.clock completing) (utc (p.clock finishing)) i
  ok (save_intake completed (save_children children w))

abbrev pub fan_out_of :
    IntakePorts → NotificationIntake → Recipient → Tables → Option NotificationPlan → Result Tables
fan_out_of p i r w none = err other
fan_out_of p i r w (some plan) = fan_out_plan p i r w plan

-- `_fan_out`
unfoldable pub fan_out : IntakePorts → NotificationIntake → Recipient → Tables → Result Tables
unfolding make_children save_children save_intake
fan_out p i r w = fan_out_of p i r w i.plan
