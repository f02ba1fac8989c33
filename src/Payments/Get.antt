-- ===== src/Payments/Get.antt =====
-- get_payment.py: the status of a payment, read from its row.
use global_payments_observab.Base.{ℕ, Option, none, some}
use global_payments_observab.Base.Exec.{Outcome, ok, err}
use global_payments_observab.Contracts.Records.{Payment, StatusResponse}
use global_payments_observab.Db.{Db, get_by_payment_id}
use global_payments_observab.Api.Errors.{Exception, app, validation}

-- `updated_at` is the column that the database keeps for a row: `now()` at its insert and, by
-- `onupdate`, at each update.
module _ (updated_at : Payment → ℕ) where
  abbrev pub status_response : Payment → StatusResponse
  status_response p = record {
    payment_id = p.payment_id;
    merchant_id = p.merchant_id;
    customer_id = p.customer_id;
    account_id = p.account_id;
    amount = p.amount;
    currency = p.currency;
    method = p.method;
    status = p.status;
    idempotency_key = p.idempotency_key;
    risk_score = p.risk_score;
    risk_decision = p.risk_decision;
    aml_decision = p.aml_decision;
    created_at = p.created_at;
    updated_at = updated_at p;
    last_error = p.last_error;
  }

  abbrev status_or_raise : Option Payment → Outcome Exception StatusResponse
  status_or_raise none = err (app (validation "Payment not found"))
  status_or_raise (some p) = ok (status_response p)

  -- `GetPaymentUseCase.execute`
  unfoldable pub get_payment : ℕ → Db → Outcome Exception StatusResponse
  get_payment i db = status_or_raise (get_by_payment_id i db)
