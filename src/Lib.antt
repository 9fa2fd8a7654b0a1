-- ===== src/Lib.antt =====
-- Tiber, a multi-channel notification service: its decision and delivery core.
--
-- A request is accepted as an intake: its payload is checked and the decisions that are left open
-- are bounded by constraints. A worker claims the intake, assembles a plan from the constraints and
-- the suggestion of a model, and creates one notification for each channel. A delivery task runs
-- each notification through the delivery processor: it re-checks the policy, resolves the content,
-- claims the row, calls the provider and records an attempt. Cancellations, other workers and
-- retries run beside it. Paths below are from backend/src/tiber.
--
-- Prelude, Time, Result, Platform: shared helpers. A datetime is a number of microseconds and
-- whether it is aware. A function that may raise returns a `Result`. Time zones and the texts of
-- times and identifiers are a parameter.
-- Enums, Content, Recipient: domain/enums.py, the value objects and the records of the entities that
-- policy reads.
-- Notification: domain/entities/notification.py. The record with its `__post_init__`, and a function
-- for each method. Invariant says what the validation accepts, Lifecycle, Calls and Direct treat the
-- methods as calls, and History sequences of them.
-- Policy: domain/policies. The rules as functions of a context, the chains and the resolver. Reasons
-- has the texts of rejections, Window and Resume the arithmetic of quiet hours, Decisions, Chain
-- and Permits what the chains decide.
-- Template: templates, their variables and rendering (domain/services/render.py,
-- application/services/template.py). Python's `re` is a parameter.
-- Intake: domain/value_objects/intake.py; Intake.Constraints is
-- domain/services/decision_constraints.py, Intake.Plan domain/services/plan_assembly.py, and
-- Intake.Record domain/entities/notification_intake.py.
-- Recipient: besides the records, Recipient.Entity is domain/entities/recipient.py with
-- domain/services/addresses.py, Recipient.Book the adapter
-- infrastructure/repositories/sqlalchemy_recipient_repository.py, and Recipient.Resolution
-- application/services/recipient_resolution.py. Merge and Owners have the proofs.
-- Json, IntakeStore: infrastructure/repositories/sqlalchemy_notification_intake_repository.py. Json has
-- the values and their readers, the texts of enumerations and `to_dict` of a content; IntakeStore.Shapes
-- the documents and IntakeStore.Rows the row and the queries. What UUID, ISO 8601 and `urlparse` make of
-- a text is a `Codec`. Laws, Parts, Roundtrip and Lookup have the proofs.
-- Command, Accept: application/services/notification_intake.py. Command has the request and
-- `request_fingerprint`, Accept the service. Accept.Replay is about
-- one call, Later about what happens between two, and Again about a second request under one key.
-- Processor: application/services/intake_processor.py, with FanOut (the children) and Process (the three
-- transactions). Children, Spread, Channels, Queue and Ends have the proofs.
-- Store: the rows, the attempts and the calls of the provider, with the reads and the conditional
-- updates of infrastructure/repositories/sqlalchemy_notification_repository.py. Claims treats two
-- workers on one row.
-- Delivery: application/services/delivery.py. The checks of the state, then Begin (the first
-- transaction), Finish (after the claim) and Process (both). Reach, Sends, Idle, Consent, Outcome,
-- Keeps, Quiet and Sound have the proofs.
-- Worker: worker/tasks/notification.py, worker/retry.py and events/job_payload.py.
-- Outbox: application/services/outbox_relay.py and the relay's part of
-- infrastructure/repositories/sqlalchemy_outbox.py. Order is about the choice of a message, Sound about
-- one message, and Batch about a whole run.
-- Cancellation: application/services/notification_cancellation.py.
-- Examples: concrete inputs at which the theorems apply.
--
-- Sets are lists, with each element once where the code needs it. A transaction that raises leaves the
-- store as it was. In `process` no other worker runs between its two transactions; what other workers
-- do is treated by the conditional updates of the store. `run_job` takes the number of reruns as fuel,
-- and as many as the limit exceeds the attempts of the job are enough.
--
-- A row that `IntakeStore` reads back has its sets in sorted order; a dict is read in the order in which
-- it was written. The loop of the recipient resolution has two passes, as the source has.
--
-- Not modelled: the HTTP layer, authentication, accounts and API keys, topics, the editing of templates,
-- the providers, the broker, row locks, logging, and the texts of exceptions.
pub mod Accept
pub mod Prelude
pub mod Enums
pub mod Json
pub mod IntakeStore
pub mod Result
pub mod Time
pub mod Command
pub mod Content
pub mod Notification
pub mod Recipient
pub mod Platform
pub mod Processor
pub mod Policy
pub mod Template
pub mod Intake
pub mod Store
pub mod Delivery
pub mod Worker
pub mod Outbox
pub mod Cancellation
pub mod Examples
