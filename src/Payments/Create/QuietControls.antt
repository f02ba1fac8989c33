-- ===== src/Payments/Create/QuietControls.antt =====
-- The same of the controls as create_payment.py composes them.
use global_payments_observab.Base.{ℕ, ◌+◌, String, Option, none, some, List, ltb}
use global_payments_observab.Contracts.Enums.{
  PaymentMethod, PaymentStatus, blocked, AmlDecision, status_eq,
}
use global_payments_observab.Contracts.Records.{
  Customer, LimitsPolicy, PaymentRequest, AcceptedResponse,
}
use global_payments_observab.Api.Errors.{
  Exception, app, validation, kyc_denied, limit_exceeded, rate_limited,
}
use global_payments_observab.Api.Cache.{Redis, Format}
use global_payments_observab.Api.Quiet.{
  IsQuiet, IsQuiet-pure, IsQuiet-raise, IsQuiet-bind, IsQuiet-if, quiet_rules,
}
use global_payments_observab.Api.Validation.{RequestContext}
use global_payments_observab.Controls.Limits.{LimitsEvaluation}
use global_payments_observab.Controls.RateLimiter.{enforce_rate_limit, checks, check_key}
use global_payments_observab.Controls.Aml.{
  AmlSettings, AmlClock, total_outgoing_recent, near_threshold_count, evaluate_aml, total_from,
  near_from, structuring_rule, total_rule, is_blocklisted,
}
use global_payments_observab.Payments.Create.Types.{Services, Run}
use global_payments_observab.Payments.Create.Controls.{
  load_customer_or_raise, customer_or_raise, run_pre_checks, evaluate_controls, count_kyc_denied,
  count_limit_exceeded, count_rate_limited,
}
use global_payments_observab.Payments.Create.Execute.{
  after_commit_observability, record_unless_blocked,
}
use global_payments_observab.Payments.Create.Quiet.{
  history-IsQuiet, enforce_limits-IsQuiet, run_checks-IsQuiet, record_outgoing-IsQuiet,
}

module _ {R : Redis} (F : Format) (S : AmlSettings) (t : AmlClock) where
  module _ (customer : String) (rail : PaymentMethod) where
    total_from-IsQuiet :
        (o : Option (List String)) → IsQuiet {R = R} (total_from F S t customer rail o)
    total_from-IsQuiet none = search quiet_rules
    total_from-IsQuiet (some es) = search quiet_rules

    near_from-IsQuiet :
        (m : ℕ) (o : Option (List String)) → IsQuiet {R = R} (near_from F S t customer rail m o)
    near_from-IsQuiet m none = search quiet_rules
    near_from-IsQuiet m (some es) = search quiet_rules

    total-IsQuiet : IsQuiet {R = R} (total_outgoing_recent F S t customer rail)
    unfolding total_outgoing_recent
    total-IsQuiet = search (quiet_rules, history-IsQuiet, total_from-IsQuiet)

    near-IsQuiet : (m : ℕ) → IsQuiet {R = R} (near_threshold_count F S t customer rail m)
    unfolding near_threshold_count
    near-IsQuiet m = search (quiet_rules, history-IsQuiet, near_from-IsQuiet)

    structuring-IsQuiet :
        (amount : ℕ) (p : LimitsPolicy)
        → IsQuiet {R = R} (structuring_rule F S t customer rail amount p)
    structuring-IsQuiet amount p = search (quiet_rules, near-IsQuiet)

    total_rule-IsQuiet :
        (amount : ℕ) (p : LimitsPolicy) → IsQuiet {R = R} (total_rule F S t customer rail amount p)
    total_rule-IsQuiet amount p =
        IsQuiet-bind (total_outgoing_recent F S t customer rail) _ total-IsQuiet λ n.
          IsQuiet-if (ltb S.total_threshold_amount (n + amount)) _ _
            (IsQuiet-pure AmlDecision.review) (structuring-IsQuiet amount p)

    evaluate_aml-IsQuiet :
        (amount : ℕ) (d : Option String) (p : LimitsPolicy)
        → IsQuiet {R = R} (evaluate_aml F S t customer rail amount d p)
    unfolding evaluate_aml
    evaluate_aml-IsQuiet amount d p =
        IsQuiet-if (is_blocklisted S d) _ _ (IsQuiet-pure AmlDecision.block)
          (total_rule-IsQuiet amount p)

module _ {R : Redis} (S : Services) (run : Run) where
  customer_or_raise-IsQuiet : (o : Option Customer) → IsQuiet {R = R} (customer_or_raise S run o)
  customer_or_raise-IsQuiet none = IsQuiet-raise (app (validation "Customer not found"))
  customer_or_raise-IsQuiet (some x) = IsQuiet-pure x

  pub load_customer-IsQuiet : (c : String) → IsQuiet {R = R} (load_customer_or_raise S run c)
  unfolding load_customer_or_raise
  load_customer-IsQuiet c = search (quiet_rules, customer_or_raise-IsQuiet)

  kyc_handler-IsQuiet :
      (rail : PaymentMethod) (e : Exception) → IsQuiet {R = R} (count_kyc_denied S run rail e)
  kyc_handler-IsQuiet rail (app (kyc_denied m)) = search quiet_rules
  kyc_handler-IsQuiet rail e = IsQuiet-raise e

  limits_handler-IsQuiet :
      (rail : PaymentMethod) (e : Exception) → IsQuiet {R = R} (count_limit_exceeded S run rail e)
  limits_handler-IsQuiet rail (app (limit_exceeded m)) = search quiet_rules
  limits_handler-IsQuiet rail e = IsQuiet-raise e

  rate_handler-IsQuiet : (e : Exception) → IsQuiet {R = R} (count_rate_limited S run e)
  rate_handler-IsQuiet (app (rate_limited d)) = search quiet_rules
  rate_handler-IsQuiet e = IsQuiet-raise e

  rate_limit-IsQuiet :
      (now : ℕ) (m c a : String)
      → IsQuiet {R = R} (enforce_rate_limit S.format S.rate_limits now m c a)
  unfolding enforce_rate_limit
  rate_limit-IsQuiet now m c a =
      run_checks-IsQuiet (check_key S.format S.rate_limits now) S.rate_limits.window_seconds
        (checks S.rate_limits m c a)

  pub run_pre_checks-IsQuiet :
      (c : RequestContext) (request : PaymentRequest) (customer : Customer)
      → IsQuiet {R = R} (run_pre_checks S run c request customer)
  unfolding run_pre_checks
  run_pre_checks-IsQuiet c request customer =
      search
        (
          quiet_rules, kyc_handler-IsQuiet, limits_handler-IsQuiet, rate_handler-IsQuiet,
          enforce_limits-IsQuiet, rate_limit-IsQuiet,
        )
        depth 10

  pub evaluate_controls-IsQuiet :
      (c : RequestContext) (request : PaymentRequest) (customer : Customer) (e : LimitsEvaluation)
      → IsQuiet {R = R} (evaluate_controls S run c request customer e)
  unfolding evaluate_controls
  evaluate_controls-IsQuiet c request customer e =
      search (quiet_rules, evaluate_aml-IsQuiet) depth 12

  recording-IsQuiet :
      (c : RequestContext) (request : PaymentRequest) (status : PaymentStatus)
      → IsQuiet {R = R} (record_unless_blocked S run c request status)
  recording-IsQuiet c request status = IsQuiet-if (status_eq status blocked) _ _ (IsQuiet-pure tt) (
      record_outgoing-IsQuiet S.format S.aml run.record_clock c.customer_id request.method
        request.amount)

  pub after_commit-IsQuiet :
      (c : RequestContext) (request : PaymentRequest) (r : AcceptedResponse)
      → IsQuiet {R = R} (after_commit_observability S run c request r)
  unfolding after_commit_observability
  after_commit-IsQuiet c request r = search (quiet_rules, recording-IsQuiet) depth 8
