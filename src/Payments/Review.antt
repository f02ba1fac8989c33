-- ===== src/Payments/Review.antt =====
-- review_payment.py: an operator approves or rejects a payment that is in review.
pub mod Laws
pub mod Race
use global_payments_observab.Base.{
  ℕ, suc, String, Bool, true, false, Option, none, some, List, [], ◌∷◌, if◌then◌else◌,
}
use global_payments_observab.Base.Exec.{
  Outcome, ok, err, Exec, pure, raise, gets, modify, continue, ◌>>=◌, ◌>>◌,
}
use global_payments_observab.Contracts.Enums.{
  PaymentStatus, received, in_review, EventType, payment_requested, status_eq, OutboxStatus,
  pending,
}
use global_payments_observab.Contracts.Records.{Payment, AcceptedResponse, OutboxEvent, requested}
use global_payments_observab.Db.{
  Db, Row, outbox_row, get_by_payment_id, update_status, commit_rows, count_in_review,
}
use global_payments_observab.Api.Errors.{Exception, app, validation, integrity_error}

-- A session: the tables that are committed, the tables as its own statements left them, the rows that
-- it has added, the UUIDs to come and the sizes that `review_queue_size` recorded.
pub record Session : Type 0 where
  pub committed : Db
  pub working : Db
  pub added : List Row
  pub next_uuid : ℕ
  pub queue_sizes : List ℕ

-- The trace of the request and the reading of the clock at the commit.
pub record Trace : Type 0 where
  pub trace_id : String
  pub traceparent : Option String
  pub now : ℕ

-- `async with self._session_factory() as session`
unfoldable pub open_session : Db → ℕ → Session
open_session db uuid = record {
  committed = db;
  working = db;
  added = [];
  next_uuid = uuid;
  queue_sizes = [];
}

abbrev pub Step : Type 0 → Type 0
Step A = Exec Session Exception A

abbrev pub in_review_or_raise : Option Payment → Step Payment
in_review_or_raise none = raise (app (validation "Payment not found"))
in_review_or_raise (some p) =
    if status_eq p.status in_review
    then pure p
    else raise (app (validation "Payment is not in review"))

-- `_load_review_payment_or_raise`
unfoldable pub load_review_payment_or_raise : ℕ → Step Payment
load_review_payment_or_raise i = do
  payment ← gets (λ (s : Session). get_by_payment_id i s.working)
  in_review_or_raise payment

-- `payments.update_status`, in the session's transaction
abbrev pub set_status : ℕ → PaymentStatus → Option String → Session → Session
set_status i status last_error s = record s {
  working = update_status i status last_error s.working;
}

-- `_enqueue_payment_requested`
unfoldable pub enqueue_payment_requested : Trace → ℕ → String → Session → Session
enqueue_payment_requested t i merchant_id s =
    let e : OutboxEvent = record {
      event_id = s.next_uuid;
      aggregate_id = i;
      event_type = payment_requested;
      payload = requested i merchant_id t.trace_id t.traceparent;
      status = pending;
      created_at = t.now;
      attempts = 0;
      next_attempt_at = t.now;
    } in
    record s { added = outbox_row e ∷ s.added; next_uuid = suc s.next_uuid }

abbrev pub commit_result : Option Db → Session → Outcome Exception (Unit {0}) × Session
commit_result none s = (err integrity_error, record s { working = s.committed; added = [] })
commit_result (some db) s = (ok tt, record s { committed = db; working = db; added = [] })

-- `session.commit()`: on an error the context manager rolls the session back.
unfoldable pub commit : Step (Unit {0})
commit s = commit_result (commit_rows s.added s.working) s

-- `_record_review_queue_size`
abbrev pub record_review_queue_size : Session → Session
record_review_queue_size s = record s { queue_sizes = count_in_review s.working ∷ s.queue_sizes }

-- `_build_review_response`
abbrev pub review_response : Trace → ℕ → PaymentStatus → Payment → AcceptedResponse
review_response t i status p = record {
  payment_id = i;
  status = status;
  trace_id = t.trace_id;
  risk_decision = p.risk_decision;
  aml_decision = p.aml_decision;
}

-- `ApproveReviewPaymentUseCase.execute`
unfoldable pub approve : Trace → ℕ → Step AcceptedResponse
unfolding load_review_payment_or_raise enqueue_payment_requested
approve t i = do
  payment ← load_review_payment_or_raise i
  modify (set_status i received none)
  modify (enqueue_payment_requested t i payment.merchant_id)
  commit
  modify record_review_queue_size
  pure (review_response t i received payment)

-- `RejectReviewPaymentUseCase.execute`
unfoldable pub reject : Trace → ℕ → Step AcceptedResponse
unfolding load_review_payment_or_raise
reject t i = do
  payment ← load_review_payment_or_raise i
  modify (set_status i PaymentStatus.blocked (some "manual_review_rejected"))
  commit
  modify record_review_queue_size
  pure (review_response t i PaymentStatus.blocked payment)
