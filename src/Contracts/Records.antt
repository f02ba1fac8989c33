-- ===== src/Contracts/Records.antt =====
-- shared/contracts/persistence.py, dto.py and events.py. A UUID is a number. A time is a number of
-- microseconds since the epoch. An amount of money is a number of units of a common fraction of a
-- cent, so a sum or a comparison of decimals is one of numbers. A JSON column holds the value
-- that was dumped into it.
use global_payments_observab.Base.{ℕ, String, Bool, Option}
use global_payments_observab.Contracts.Enums.{
  PaymentMethod, PaymentStatus, OutboxStatus, EventType, KycLevel, CustomerStatus, RiskDecision,
  AmlDecision,
}

-- CustomerORM; `created_at` is `none` on an object that the database has not filled in yet.
pub record Customer : Type 0 where
  pub customer_id : String
  pub kyc_level : KycLevel
  pub status : CustomerStatus
  pub created_at : Option ℕ

-- LimitsPolicyORM, and LimitsPolicyDTO, which has the same fields.
pub record LimitsPolicy : Type 0 where
  pub rail : PaymentMethod
  pub min_amount : ℕ
  pub max_amount : ℕ
  pub daily_limit_amount : ℕ
  pub velocity_limit_count : ℕ
  pub velocity_window_seconds : ℕ

-- PaymentORM, less `metadata`, which no code reads, and `updated_at`, which the database sets at each
-- write of the row and only the response of get_payment.py reads: it is given to that.
pub record Payment : Type 0 where
  pub payment_id : ℕ
  pub merchant_id : String
  pub customer_id : String
  pub account_id : String
  pub amount : ℕ
  pub currency : String
  pub method : PaymentMethod
  pub destination : Option String
  pub status : PaymentStatus
  pub idempotency_key : String
  pub risk_score : Option ℕ
  pub risk_decision : Option RiskDecision
  pub aml_decision : Option AmlDecision
  pub last_error : Option String
  pub created_at : ℕ
  pub version : ℕ

-- The payload models of events.py.
pub data Payload : Type 0 where
  requested :
      (payment_id : ℕ) (merchant_id trace_id : String) (traceparent : Option String) → Payload
  review_required : (payment_id : ℕ) (merchant_id reason : String) → Payload
  confirmed : (payment_id : ℕ) (merchant_id provider provider_reference : String) → Payload
  failed : (payment_id : ℕ) (merchant_id provider error_category reason : String) → Payload

-- OutboxEventORM
pub record OutboxEvent : Type 0 where
  pub event_id : ℕ
  pub aggregate_id : ℕ
  pub event_type : EventType
  pub payload : Payload
  pub status : OutboxStatus
  pub created_at : ℕ
  pub attempts : ℕ
  pub next_attempt_at : ℕ

-- PaymentAcceptedResponse
pub record AcceptedResponse : Type 0 where
  pub payment_id : ℕ
  pub status : PaymentStatus
  pub trace_id : String
  pub risk_decision : Option RiskDecision
  pub aml_decision : Option AmlDecision

-- IdempotencyRecordORM
pub record Snapshot : Type 0 where
  pub merchant_id : String
  pub idempotency_key : String
  pub payment_id : ℕ
  pub status_code : ℕ
  pub response_payload : AcceptedResponse

-- CreatePaymentRequest, less `metadata`.
pub record PaymentRequest : Type 0 where
  pub amount : ℕ
  pub currency : String
  pub method : PaymentMethod
  pub destination : Option String

-- PaymentStatusResponse
pub record StatusResponse : Type 0 where
  pub payment_id : ℕ
  pub merchant_id : String
  pub customer_id : String
  pub account_id : String
  pub amount : ℕ
  pub currency : String
  pub method : PaymentMethod
  pub status : PaymentStatus
  pub idempotency_key : String
  pub risk_score : Option ℕ
  pub risk_decision : Option RiskDecision
  pub aml_decision : Option AmlDecision
  pub created_at : ℕ
  pub updated_at : ℕ
  pub last_error : Option String

pub record ProviderRequest : Type 0 where
  pub payment_id : ℕ
  pub merchant_id : String
  pub amount : ℕ
  pub currency : String
  pub method : PaymentMethod

pub record ProviderResponse : Type 0 where
  pub provider_reference : String
  pub confirmed : Bool
  pub provider : String
  pub duplicate : Bool
  pub partial_failure : Bool
