-- ===== src/Payments/Create/Idempotent.antt =====
-- What the other sessions keep, and what the transaction of a new payment adds to the tables.
use mathlib.Core.List.{append-nil}
use global_payments_observab.Base.{
  ℕ, ◌≡◌, ◌≢◌, refl, inl, inr, Option, none, some, List, [], ◌∷◌, ◌++◌, arith, Option-cases, find,
}
use global_payments_observab.Contracts.Enums.{
  EventType, payment_requested, payment_review_required, PaymentStatus, received, in_review,
  validated, processing, confirmed, failed, blocked, pending,
}
use global_payments_observab.Contracts.Records.{
  Payload, requested, review_required, Payment, OutboxEvent, AcceptedResponse, Snapshot,
  PaymentRequest,
}
use global_payments_observab.Db.{
  Db, payment_row, snapshot_row, get_snapshot, get_by_merchant_and_idempotency, commit_rows,
  insert_row, snapshot_has_scope,
}
use global_payments_observab.Db.Constraints.{insert_payment_inverts}
use global_payments_observab.Api.Validation.{RequestContext}
use global_payments_observab.Payments.Create.Types.{Run, ControlDecision}
use global_payments_observab.Payments.Create.Persist.{
  transaction_rows, new_payment, new_event, outbox_event, new_snapshot, event_rows,
}
use global_payments_observab.Payments.Create.Ending.{Others, same, committed, slept}

-- A property of the tables that the other sessions keep.
pub record OthersKeep (run : Run) (P : Db → Type 0) : Type 0 where
  pub meanwhile : (db : Db) → P db → P (run.meanwhile db)
  pub sleeping : (n : ℕ) (db : Db) → P db → P (run.sleeping n db)

pub Others-keeps :
    {run : Run} (P : Db → Type 0) {db db' : Db}
    → OthersKeep run P
    → P db
    → Others run db db'
    → P db'
Others-keeps P k p same = p
Others-keeps P k p (committed o) = k.meanwhile _ (Others-keeps P k p o)
Others-keeps P k p (slept n o) = k.sleeping n _ (Others-keeps P k p o)

-- The rows that an event, if there is one, adds to the outbox.
abbrev pub stored_events : Option OutboxEvent → List OutboxEvent
stored_events none = []
stored_events (some e) = e ∷ []

after_event :
    (o : Option OutboxEvent) (s : Snapshot) (before db : Db)
    → commit_rows (event_rows o ++ snapshot_row s ∷ []) before ≡ some db
    → (find (snapshot_has_scope s.merchant_id s.idempotency_key) before.snapshots ≡ none)
      × (db.payments ≡ before.payments)
      × (db.outbox ≡ before.outbox ++ stored_events o)
      × (db.snapshots ≡ before.snapshots ++ s ∷ [])
unfolding commit_rows insert_row
after_event none s before db h =
    let nil = append-nil before.outbox in (ground arith, ground arith, ground arith, ground arith)
after_event (some e) s before db h = ground arith

module _ (run : Run) (c : RequestContext) (request : PaymentRequest) (d : ControlDecision) where
  pub transaction_appends :
      (r : AcceptedResponse) (event_id : ℕ) (before db : Db)
      → commit_rows (transaction_rows run c request d r event_id) before ≡ some db
      → (get_by_merchant_and_idempotency c.merchant_id c.idempotency_key before ≡ none)
        × (get_snapshot c.merchant_id c.idempotency_key before ≡ none)
        × (db.payments ≡ before.payments ++ new_payment run c request d r ∷ [])
        × (db.outbox ≡ before.outbox ++ stored_events (outbox_event run c r event_id))
        × (db.snapshots ≡ before.snapshots ++ new_snapshot c r ∷ [])
  unfolding transaction_rows get_by_merchant_and_idempotency get_snapshot commit_rows
  transaction_appends r event_id before db h =
      elim (Option-cases (insert_row (payment_row (new_payment run c request d r)) before)) [
        | inl no_row ↦ absurd (cc (rw (no_row, commit_rows) at h))
        | inr (mid, e) ↦
            let (_, no_payment, mid_is) =
              insert_payment_inverts (new_payment run c request d r) before mid e in
            let (no_snapshot, payments, outbox, snapshots) =
              after_event (outbox_event run c r event_id) (new_snapshot c r) mid db
                (rw (e, commit_rows) at h) in
            (ground arith, ground arith, ground arith, ground arith, ground arith)
      ]

-- An event of the payment that nobody has tried to handle.
pub record IsNew (run : Run) (r : AcceptedResponse) (event_id : ℕ) (e : OutboxEvent) : Type 0 where
  pub event_id_is : e.event_id ≡ event_id
  pub of_payment : e.aggregate_id ≡ r.payment_id
  pub is_pending : e.status ≡ pending
  pub untried : e.attempts ≡ 0
  pub due : e.next_attempt_at ≡ run.commit_clock

-- The events that a payment of a status is to have in the outbox.
pub data Queued (run : Run) (c : RequestContext) (r : AcceptedResponse) (event_id : ℕ)
    : PaymentStatus → List OutboxEvent → Type 0 where
  to_provider :
      (e : OutboxEvent)
      → IsNew run r event_id e
      → e.event_type ≡ payment_requested
      → e.payload ≡ requested r.payment_id c.merchant_id run.trace_id run.traceparent
      → Queued run c r event_id received (e ∷ [])
  to_reviewer :
      (e : OutboxEvent)
      → IsNew run r event_id e
      → e.event_type ≡ payment_review_required
      → e.payload ≡ review_required r.payment_id c.merchant_id "risk_or_aml_review"
      → Queued run c r event_id in_review (e ∷ [])
  nothing :
      (status : PaymentStatus)
      → status ≢ received
      → status ≢ in_review
      → Queued run c r event_id status []

-- The row of the payment that a request was accepted as.
pub record IsPaymentOf (run : Run) (c : RequestContext) (request : PaymentRequest)
    (d : ControlDecision) (r : AcceptedResponse) (p : Payment) : Type 0 where
  pub id_is : p.payment_id ≡ r.payment_id
  pub status_is : p.status ≡ r.status
  pub of_merchant : p.merchant_id ≡ c.merchant_id
  pub of_customer : p.customer_id ≡ c.customer_id
  pub of_account : p.account_id ≡ c.account_id
  pub key_is : p.idempotency_key ≡ c.idempotency_key
  pub amount_is : p.amount ≡ run.to_numeric request.amount
  pub currency_is : p.currency ≡ request.currency
  pub method_is : p.method ≡ request.method
  pub destination_is : p.destination ≡ request.destination
  pub score_is : p.risk_score ≡ some d.risk_score
  pub risk_is : p.risk_decision ≡ some d.risk_decision
  pub aml_is : p.aml_decision ≡ some d.aml_decision
  pub no_error : p.last_error ≡ none
  pub first_version : p.version ≡ 1

-- The snapshot that answers a later request of the scope.
pub record IsAnswerOf (c : RequestContext) (r : AcceptedResponse) (s : Snapshot) : Type 0 where
  pub of_merchant : s.merchant_id ≡ c.merchant_id
  pub key_is : s.idempotency_key ≡ c.idempotency_key
  pub of_payment : s.payment_id ≡ r.payment_id
  pub accepted : s.status_code ≡ 202
  pub answer_is : s.response_payload ≡ r

module _ (run : Run) (c : RequestContext) (r : AcceptedResponse) (event_id : ℕ) where
  new_event-IsNew :
      (t : EventType) (payload : Payload)
      → IsNew run r event_id (new_event run event_id r.payment_id t payload)
  unfolding new_event
  new_event-IsNew t payload = record {
    event_id_is = refl;
    of_payment = refl;
    is_pending = refl;
    untried = refl;
    due = refl;
  }

  queued :
      (status : PaymentStatus)
      → Queued run c r event_id status
          (stored_events (outbox_event run c (record r { status = status }) event_id))
  unfolding outbox_event new_event
  queued received = to_provider _ (new_event-IsNew _ _) refl refl
  queued in_review = to_reviewer _ (new_event-IsNew _ _) refl refl
  queued validated = nothing validated (λ h. ground arith) (λ h. ground arith)
  queued processing = nothing processing (λ h. ground arith) (λ h. ground arith)
  queued confirmed = nothing confirmed (λ h. ground arith) (λ h. ground arith)
  queued failed = nothing failed (λ h. ground arith) (λ h. ground arith)
  queued blocked = nothing blocked (λ h. ground arith) (λ h. ground arith)

module _ (run : Run) (c : RequestContext) (request : PaymentRequest) (d : ControlDecision)
    (r : AcceptedResponse) where
  new_payment-IsPaymentOf : IsPaymentOf run c request d r (new_payment run c request d r)
  unfolding new_payment
  new_payment-IsPaymentOf = record {
    id_is = refl;
    status_is = refl;
    of_merchant = refl;
    of_customer = refl;
    of_account = refl;
    key_is = refl;
    amount_is = refl;
    currency_is = refl;
    method_is = refl;
    destination_is = refl;
    score_is = refl;
    risk_is = refl;
    aml_is = refl;
    no_error = refl;
    first_version = refl;
  }

  new_snapshot-IsAnswerOf : IsAnswerOf c r (new_snapshot c r)
  unfolding new_snapshot
  new_snapshot-IsAnswerOf = record {
    of_merchant = refl;
    key_is = refl;
    of_payment = refl;
    accepted = refl;
    answer_is = refl;
  }

  -- A commit of the rows of a new payment that goes through has found no payment and no snapshot of the
  -- scope, and appends three things. The payment has the request's data, the answer's id and status and
  -- version 1. The events are one pending PaymentRequested for a RECEIVED payment, one pending
  -- PaymentReviewRequired for one IN_REVIEW and else none, each with its payload and due at once. The
  -- snapshot holds the answer under the scope with status 202.
  pub transaction_stores :
      (event_id : ℕ) (before db : Db)
      → commit_rows (transaction_rows run c request d r event_id) before ≡ some db
      → (get_by_merchant_and_idempotency c.merchant_id c.idempotency_key before ≡ none)
        × (get_snapshot c.merchant_id c.idempotency_key before ≡ none)
        × (p : Payment) × (es : List OutboxEvent) × (s : Snapshot) × (db.payments
            ≡ before.payments ++ p ∷ [])
        × (db.outbox ≡ before.outbox ++ es)
        × (db.snapshots ≡ before.snapshots ++ s ∷ [])
        × (IsPaymentOf run c request d r p)
        × (Queued run c r event_id r.status es)
        × (IsAnswerOf c r s)
  transaction_stores event_id before db h =
      let (no_payment, no_snapshot, payments, outbox, snapshots) =
        transaction_appends run c request d r event_id before db h in
      (
        no_payment,
        no_snapshot,
        new_payment run c request d r,
        stored_events (outbox_event run c r event_id),
        new_snapshot c r,
        payments,
        outbox,
        snapshots,
        new_payment-IsPaymentOf,
        queued run c r event_id r.status,
        new_snapshot-IsAnswerOf,
      )
