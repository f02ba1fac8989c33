-- ===== src/Payments/Create/Ending.antt =====
-- What a request may come to, as a specification apart from the code: it is refused, it is answered
-- from what is stored for its scope, or it stores one payment, and then answers it or, if the query
-- after the commit fails, ends by that error; and nothing else happens to the
-- tables but what other sessions commit.
use global_payments_observab.Base.{ℕ, ◌≡◌, true, false, none, some}
use global_payments_observab.Base.Exec.{Outcome, ok, err}
use global_payments_observab.Contracts.Records.{Payment, AcceptedResponse, Snapshot, PaymentRequest}
use global_payments_observab.Db.{Db, get_snapshot, get_by_merchant_and_idempotency, commit_rows}
use global_payments_observab.Api.Errors.{Exception, database_error}
use global_payments_observab.Api.Validation.{RequestContext}
use global_payments_observab.Payments.Create.Types.{Run, ControlDecision}
use global_payments_observab.Payments.Create.Replay.{response_from_payment}
use global_payments_observab.Payments.Create.Controls.{resolve_status}
use global_payments_observab.Payments.Create.Persist.{response_payload, transaction_rows}

-- The tables that other sessions make of `db`.
pub data Others (run : Run) (db : Db) : Db → Type 0 where
  same : Others run db db
  committed : {db' : Db} → Others run db db' → Others run db (run.meanwhile db')
  slept : {db' : Db} (n : ℕ) → Others run db db' → Others run db (run.sleeping n db')

module _ (run : Run) (c : RequestContext) (request : PaymentRequest) (db₀ : Db) where
  -- The decision's status is the one that its two parts call for.
  abbrev pub IsDecided : ControlDecision → Type 0
  IsDecided d = d.final_status ≡ resolve_status d.risk_decision d.aml_decision

  -- A stored payment is answered, unless the query after the commit fails.
  pub data Answered (d : ControlDecision) (payment_id : ℕ) (r : Outcome Exception AcceptedResponse)
      : Type 0 where
    accepted :
        run.queue_query_fails ≡ false
        → r ≡ ok (response_payload run d payment_id)
        → Answered d payment_id r
    broken : run.queue_query_fails ≡ true → r ≡ err database_error → Answered d payment_id r

  pub data Ending (r : Outcome Exception AcceptedResponse) (db : Db) : Type 0 where
    refused : (e : Exception) → r ≡ err e → Others run db₀ db → Ending r db
    replayed :
        (s : Snapshot)
        → get_snapshot c.merchant_id c.idempotency_key db ≡ some s
        → r ≡ ok s.response_payload
        → Others run db₀ db
        → Ending r db
    existing :
        (p : Payment)
        → get_snapshot c.merchant_id c.idempotency_key db ≡ none
        → get_by_merchant_and_idempotency c.merchant_id c.idempotency_key db ≡ some p
        → r ≡ ok (response_from_payment run p)
        → Others run db₀ db
        → Ending r db
    created :
        (d : ControlDecision) (payment_id event_id : ℕ) (before : Db)
        → IsDecided d
        → Others run db₀ before
        → commit_rows
            (transaction_rows run c request d (response_payload run d payment_id) event_id)
            before
          ≡ some db
        → Answered d payment_id r
        → Ending r db
