-- ===== src/Payments/Create/Types.antt =====
-- What a run of `CreatePaymentUseCase` is given: the settings, the readings of the clock, the trace of
-- the request and what other sessions commit while it runs.
use global_payments_observab.Base.{ℕ, Bool, String, Option, List}
use global_payments_observab.Contracts.Enums.{PaymentStatus, RiskDecision, AmlDecision}
use global_payments_observab.Db.{Db}
use global_payments_observab.Api.Cache.{Format}
use global_payments_observab.Controls.RateLimiter.{RateLimits}
use global_payments_observab.Controls.Limits.{LimitsSettings, LimitsClock}
use global_payments_observab.Controls.Risk.{RiskThresholds}
use global_payments_observab.Controls.Aml.{AmlSettings, AmlClock}

-- The services as dependencies.py builds them from the settings.
pub record Services : Type 0 where
  pub format : Format
  pub supported_currencies : List String
  pub idempotency_ttl_seconds : ℕ
  pub rate_limits : RateLimits
  pub limits : LimitsSettings
  pub risk : RiskThresholds
  pub aml : AmlSettings

pub record Run : Type 0 where
  pub limits_clock : LimitsClock
  pub rate_clock : ℕ
  pub risk_clock : ℕ
  pub aml_clock : AmlClock
  pub record_clock : ℕ
  pub commit_clock : ℕ
  pub trace_id : String
  pub traceparent : Option String
  -- the rounding of a stored amount to the column's two decimals
  pub to_numeric : ℕ → ℕ
  -- what other sessions commit between this one's reads and its commit, and in each sleep of the
  -- waiting loop
  pub meanwhile : Db → Db
  pub sleeping : ℕ → Db → Db
  -- whether the database fails the query that counts the payments in review, after the commit
  pub queue_query_fails : Bool

pub record ControlDecision : Type 0 where
  pub risk_score : ℕ
  pub risk_decision : RiskDecision
  pub aml_decision : AmlDecision
  pub final_status : PaymentStatus
