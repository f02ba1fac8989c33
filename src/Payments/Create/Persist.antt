-- ===== src/Payments/Create/Persist.antt =====
-- The transaction of create_payment.py: the rows of a new payment, its event and its snapshot, and the
-- commit that stores all of them or, on `IntegrityError`, none.
use global_payments_observab.Base.{ℕ, suc, Option, none, some, List, [], ◌∷◌, ◌++◌}
use global_payments_observab.Base.Exec.{Outcome, ok, err, pure, raise, gets, modify, ◌>>=◌, ◌>>◌}
use global_payments_observab.Contracts.Enums.{
  received, in_review, EventType, payment_requested, payment_review_required, pending,
}
use global_payments_observab.Contracts.Records.{
  Payment, OutboxEvent, Payload, requested, review_required, AcceptedResponse, Snapshot,
  PaymentRequest,
}
use global_payments_observab.Db.{Db, Row, payment_row, outbox_row, snapshot_row, commit_rows}
use global_payments_observab.Api.Errors.{Exception, app, integrity_error, idempotency_conflict}
use global_payments_observab.Api.Cache.{Redis}
use global_payments_observab.Api.World.{World, Action, try_except}
use global_payments_observab.Api.Validation.{RequestContext}
use global_payments_observab.Payments.Create.Types.{Run, ControlDecision}
use global_payments_observab.Payments.Create.Replay.{resolve_replayed}

-- `_build_response_payload`, with the new UUID
unfoldable pub response_payload : Run → ControlDecision → ℕ → AcceptedResponse
response_payload run d payment_id = record {
  payment_id = payment_id;
  status = d.final_status;
  trace_id = run.trace_id;
  risk_decision = some d.risk_decision;
  aml_decision = some d.aml_decision;
}

-- `PaymentRepository.create_payment`
unfoldable pub new_payment :
    Run → RequestContext → PaymentRequest → ControlDecision → AcceptedResponse → Payment
new_payment run c request d r = record {
  payment_id = r.payment_id;
  merchant_id = c.merchant_id;
  customer_id = c.customer_id;
  account_id = c.account_id;
  amount = run.to_numeric request.amount;
  currency = request.currency;
  method = request.method;
  destination = request.destination;
  status = r.status;
  idempotency_key = c.idempotency_key;
  risk_score = some d.risk_score;
  risk_decision = some d.risk_decision;
  aml_decision = some d.aml_decision;
  last_error = none;
  created_at = run.commit_clock;
  version = 1;
}

-- `OutboxRepository.add_event`, with the defaults of the columns
unfoldable pub new_event : Run → ℕ → ℕ → EventType → Payload → OutboxEvent
new_event run event_id aggregate_id event_type payload = record {
  event_id = event_id;
  aggregate_id = aggregate_id;
  event_type = event_type;
  payload = payload;
  status = pending;
  created_at = run.commit_clock;
  attempts = 0;
  next_attempt_at = run.commit_clock;
}

-- `_persist_outbox_events`: the event that a status calls for.
unfoldable pub outbox_event : Run → RequestContext → AcceptedResponse → ℕ → Option OutboxEvent
unfolding new_event
outbox_event run c r event_id = elim r.status [
  | received ↦ some (
      new_event run event_id r.payment_id payment_requested
        (requested r.payment_id c.merchant_id run.trace_id run.traceparent))
  | in_review ↦ some (
      new_event run event_id r.payment_id payment_review_required
        (review_required r.payment_id c.merchant_id "risk_or_aml_review"))
  | _ ↦ none
]

-- `IdempotencyRepository.create_snapshot`
unfoldable pub new_snapshot : RequestContext → AcceptedResponse → Snapshot
new_snapshot c r = record {
  merchant_id = c.merchant_id;
  idempotency_key = c.idempotency_key;
  payment_id = r.payment_id;
  status_code = 202;
  response_payload = r;
}

abbrev pub event_rows : Option OutboxEvent → List Row
event_rows none = []
event_rows (some e) = outbox_row e ∷ []

-- The rows that `_persist_payment_transaction` adds to the session.
unfoldable pub transaction_rows :
    Run → RequestContext → PaymentRequest → ControlDecision → AcceptedResponse → ℕ → List Row
unfolding new_payment outbox_event new_snapshot
transaction_rows run c request d r event_id =
    payment_row (new_payment run c request d r)
    ∷ (event_rows (outbox_event run c r event_id) ++ snapshot_row (new_snapshot c r) ∷ [])

module _ {R : Redis} (run : Run) where
  abbrev pub commit_result : Option Db → World R → Outcome Exception (Unit {0}) × World R
  commit_result none w = (err integrity_error, w)
  commit_result (some db) w = (ok tt, record w { db = db; added = [] })

  -- `session.commit()`, after what other sessions have committed in the meantime
  unfoldable pub commit : Action R (Unit {0})
  commit w =
      let db = run.meanwhile w.db in commit_result (commit_rows w.added db) (record w { db = db })

  -- `session.rollback()`
  abbrev pub rollback : World R → World R
  rollback w = record w { added = [] }

  abbrev pub replay_or_conflict : Option AcceptedResponse → Action R (Option AcceptedResponse)
  replay_or_conflict (some response) = pure (some response)
  replay_or_conflict none = raise (app idempotency_conflict)

  -- `except IntegrityError: …`
  abbrev pub after_integrity_error : RequestContext → Exception → Action R (Option AcceptedResponse)
  after_integrity_error c integrity_error = do
    modify rollback
    replayed ← resolve_replayed run c
    replay_or_conflict replayed
  after_integrity_error c e = raise e

  -- `_persist_payment_transaction`: `none` when the payment was stored, else the response of the one
  -- that was there
  unfoldable pub persist_payment_transaction :
      RequestContext
      → PaymentRequest
      → ControlDecision
      → AcceptedResponse
      → Action R (Option AcceptedResponse)
  unfolding commit
  persist_payment_transaction c request d r =
      try_except
        (do
          event_id ← gets (λ (w : World R). w.next_uuid)
          modify (λ (w : World R). record w {
            added = w.added ++ transaction_rows run c request d r event_id;
            next_uuid = suc w.next_uuid;
          })
          commit
          pure none)
        (after_integrity_error c)
