-- ===== src/Payments/Create/Controls.antt =====
-- The controls of create_payment.py: the checks that reject a payment, the two scores that it gets and
-- the status that follows from them.
use global_payments_observab.Base.{
  String, Bool, true, false, ◌||◌, Option, none, some, if◌then◌else◌,
}
use global_payments_observab.Base.Exec.{pure, raise, gets, lift, modify, ◌>>=◌, ◌>>◌}
use global_payments_observab.Contracts.Enums.{
  PaymentMethod, PaymentStatus, received, in_review, blocked, RiskDecision, AmlDecision,
}
use global_payments_observab.Contracts.Records.{Customer, PaymentRequest}
use global_payments_observab.Db.{get_customer_by_id}
use global_payments_observab.Api.Errors.{
  Exception, app, validation, kyc_denied, limit_exceeded, rate_limited,
}
use global_payments_observab.Api.Cache.{Redis}
use global_payments_observab.Api.World.{
  World, Action, emit, try_except, kyc_denied_total, limits_exceeded_total, rate_limited_total,
  risk_decisions_total, aml_decisions_total,
}
use global_payments_observab.Api.Validation.{RequestContext}
use global_payments_observab.Controls.Kyc.{enforce_kyc}
use global_payments_observab.Controls.Limits.{LimitsEvaluation, enforce_limits}
use global_payments_observab.Controls.RateLimiter.{enforce_rate_limit}
use global_payments_observab.Controls.Risk.{evaluate_risk}
use global_payments_observab.Controls.Aml.{evaluate_aml}
use global_payments_observab.Payments.Create.Types.{Services, Run, ControlDecision}

abbrev pub risk_blocks : RiskDecision → Bool
risk_blocks RiskDecision.block = true
risk_blocks _ = false

abbrev pub risk_reviews : RiskDecision → Bool
risk_reviews RiskDecision.review = true
risk_reviews _ = false

abbrev pub aml_blocks : AmlDecision → Bool
aml_blocks AmlDecision.block = true
aml_blocks _ = false

abbrev pub aml_reviews : AmlDecision → Bool
aml_reviews AmlDecision.review = true
aml_reviews _ = false

-- `_resolve_status_from_decisions`
unfoldable pub resolve_status : RiskDecision → AmlDecision → PaymentStatus
resolve_status risk aml =
    if risk_blocks risk || aml_blocks aml
    then blocked
    else if risk_reviews risk || aml_reviews aml
    then in_review
    else received

module _ {R : Redis} (S : Services) (run : Run) where
  abbrev pub customer_or_raise : Option Customer → Action R Customer
  customer_or_raise none = raise (app (validation "Customer not found"))
  customer_or_raise (some customer) = pure customer

  -- `_load_customer_or_raise`
  unfoldable pub load_customer_or_raise : String → Action R Customer
  load_customer_or_raise customer_id = do
    customer ← gets (λ (w : World R). get_customer_by_id customer_id w.db)
    customer_or_raise customer

  abbrev pub count_kyc_denied : PaymentMethod → Exception → Action R (Unit {0})
  count_kyc_denied rail (app (kyc_denied m)) =
      modify (emit (kyc_denied_total rail)) >> raise (app (kyc_denied m))
  count_kyc_denied rail e = raise e

  abbrev pub count_limit_exceeded : PaymentMethod → Exception → Action R LimitsEvaluation
  count_limit_exceeded rail (app (limit_exceeded m)) =
      modify (emit (limits_exceeded_total rail)) >> raise (app (limit_exceeded m))
  count_limit_exceeded rail e = raise e

  abbrev pub count_rate_limited : Exception → Action R (Unit {0})
  count_rate_limited (app (rate_limited d)) =
      modify (emit (rate_limited_total d)) >> raise (app (rate_limited d))
  count_rate_limited e = raise e

  -- `_run_pre_checks`, with `_enforce_kyc`, `_enforce_limits` and `_enforce_rate_limit`
  unfoldable pub run_pre_checks :
      RequestContext → PaymentRequest → Customer → Action R LimitsEvaluation
  run_pre_checks c request customer = do
    try_except (lift (enforce_kyc customer request.method)) (count_kyc_denied request.method)
    evaluation ←
        try_except
          (enforce_limits S.format S.limits run.limits_clock c.customer_id request.method
            request.amount)
          (count_limit_exceeded request.method)
    try_except
        (enforce_rate_limit S.format S.rate_limits run.rate_clock c.merchant_id c.customer_id
          c.account_id)
        count_rate_limited
    pure evaluation

  -- `_evaluate_controls`, with `_evaluate_risk` and `_evaluate_aml`
  unfoldable pub evaluate_controls :
      RequestContext → PaymentRequest → Customer → LimitsEvaluation → Action R ControlDecision
  evaluate_controls c request customer evaluation = do
    risk ← gets (λ (w : World R).
        evaluate_risk S.risk w.db customer request.amount evaluation.policy
          evaluation.velocity_count request.destination run.risk_clock)
    aml ←
        evaluate_aml S.format S.aml run.aml_clock c.customer_id request.method request.amount
          request.destination evaluation.policy
    modify (emit (risk_decisions_total risk.1))
    modify (emit (aml_decisions_total aml))
    pure (record {
      risk_score = risk.0;
      risk_decision = risk.1;
      aml_decision = aml;
      final_status = resolve_status risk.1 aml;
    })
