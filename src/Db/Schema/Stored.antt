-- ===== src/Db/Schema/Stored.antt =====
-- The texts that the models of shared/contracts/persistence.py store in the columns of the migration.
-- `Enum(EventType, …)` and `Enum(OutboxStatus, …)` of SQLAlchemy store the names of the members.
use mathlib.Core.Path.{subst}
use mathlib.Core.Option.{some-injective}
use global_payments_observab.Base.{
  ℕ, ◌≡◌, refl, String, str_eq, Bool, true, false, not, ◌&&◌, some, List, [], ◌∷◌, arith,
  if◌then◌else◌,
}
use global_payments_observab.Contracts.Enums.{
  EventType, payment_requested, payment_confirmed, payment_failed, payment_review_required,
  PaymentStatus, received, in_review, validated, processing, confirmed, blocked, OutboxStatus,
  pending, sent, failed, status_eq,
}
use global_payments_observab.Contracts.Records.{OutboxEvent, AcceptedResponse}
use global_payments_observab.Db.Schema.{Column, fits}
use global_payments_observab.Db.Schema.Migration.{outbox_events_table}
use global_payments_observab.Api.Validation.{RequestContext}
use global_payments_observab.Payments.Create.Types.{Run}
use global_payments_observab.Payments.Create.Persist.{outbox_event}

unfoldable pub event_type_name : EventType → String
event_type_name payment_requested = "PAYMENT_REQUESTED"
event_type_name payment_confirmed = "PAYMENT_CONFIRMED"
event_type_name payment_failed = "PAYMENT_FAILED"
event_type_name payment_review_required = "PAYMENT_REVIEW_REQUIRED"

unfoldable pub outbox_status_name : OutboxStatus → String
outbox_status_name pending = "PENDING"
outbox_status_name sent = "SENT"
outbox_status_name failed = "FAILED"

-- a text in the columns of a name
abbrev pub fits_column : String → String → List Column → Bool
fits_column name text [] = true
fits_column name text (c ∷ cs) =
    let rest = fits_column name text cs in
    if str_eq name c.name then fits c.column_type text && rest else rest

-- The texts of a row of `outbox_events`; an `INSERT` of a longer one is refused.
unfoldable pub event_fits : OutboxEvent → Bool
unfolding fits event_type_name outbox_status_name
event_fits e =
    fits_column "event_type" (event_type_name e.event_type) outbox_events_table.columns
    && fits_column "status" (outbox_status_name e.status) outbox_events_table.columns

for_status :
    (run : Run) (c : RequestContext) (r : AcceptedResponse) (event_id : ℕ) (e : OutboxEvent)
    (status : PaymentStatus)
    → outbox_event run c (record r { status = status }) event_id ≡ some e
    → event_fits e ≡ not (status_eq status in_review)
unfolding outbox_event event_fits fits event_type_name outbox_status_name
for_status run c r event_id e received h =
    subst (λ x. event_fits x ≡ true) (some-injective _ _ h) refl
for_status run c r event_id e in_review h =
    subst (λ x. event_fits x ≡ false) (some-injective _ _ h) refl
for_status run c r event_id e validated h = absurd (ground arith)
for_status run c r event_id e processing h = absurd (ground arith)
for_status run c r event_id e confirmed h = absurd (ground arith)
for_status run c r event_id e PaymentStatus.failed h = absurd (ground arith)
for_status run c r event_id e blocked h = absurd (ground arith)

-- In a migrated database the event that a new payment calls for fits its row, unless the payment is in
-- review: the longest name of an event is longer than the longest value.
pub review_events_do_not_fit :
    (run : Run) (c : RequestContext) (r : AcceptedResponse) (event_id : ℕ) (e : OutboxEvent)
    → outbox_event run c r event_id ≡ some e
    → event_fits e ≡ not (status_eq r.status in_review)
review_events_do_not_fit run c r event_id e h = for_status run c r event_id e r.status h
