-- ===== src/Contracts/Enums.antt =====
-- shared/contracts/enums.py. Each value's text is the source's.
use Prim.Native.String.{String}
use mathlib.Core.Bool.{Bool, true, false}

pub data PaymentMethod : Type 0 where
  pix boleto ted card : PaymentMethod

pub data PaymentStatus : Type 0 where
  received validated in_review processing confirmed failed blocked : PaymentStatus

pub data OutboxStatus : Type 0 where
  pending sent failed : OutboxStatus

pub data EventType : Type 0 where
  payment_requested payment_confirmed payment_failed payment_review_required : EventType

pub data RateLimitDimension : Type 0 where
  merchant customer account unknown : RateLimitDimension

pub data KycLevel : Type 0 where
  none basic full : KycLevel

pub data CustomerStatus : Type 0 where
  active suspended : CustomerStatus

pub data RiskDecision : Type 0 where
  allow review block : RiskDecision

pub data AmlDecision : Type 0 where
  allow review block : AmlDecision

-- The categories that an error of either service carries.
pub data ErrorCategory : Type 0 where
  validation_error provider_timeout provider_5xx concurrency_conflict : ErrorCategory
  idempotency_conflict kyc_denied limit_exceeded rate_limited : ErrorCategory
  aml_blocked risk_blocked : ErrorCategory

-- `.value`
unfoldable pub method_value : PaymentMethod → String
method_value pix = "PIX"
method_value boleto = "BOLETO"
method_value ted = "TED"
method_value card = "CARD"

unfoldable pub dimension_value : RateLimitDimension → String
dimension_value merchant = "merchant"
dimension_value customer = "customer"
dimension_value account = "account"
dimension_value unknown = "unknown"

unfoldable pub category_value : ErrorCategory → String
category_value validation_error = "validation_error"
category_value provider_timeout = "provider_timeout"
category_value provider_5xx = "provider_5xx"
category_value concurrency_conflict = "concurrency_conflict"
category_value idempotency_conflict = "idempotency_conflict"
category_value kyc_denied = "kyc_denied"
category_value limit_exceeded = "limit_exceeded"
category_value rate_limited = "rate_limited"
category_value aml_blocked = "aml_blocked"
category_value risk_blocked = "risk_blocked"

-- `==` on each enumeration that the code compares.
abbrev pub method_eq : PaymentMethod → PaymentMethod → Bool
method_eq pix pix = true
method_eq boleto boleto = true
method_eq ted ted = true
method_eq card card = true
method_eq _ _ = false

abbrev pub status_eq : PaymentStatus → PaymentStatus → Bool
status_eq received received = true
status_eq validated validated = true
status_eq in_review in_review = true
status_eq processing processing = true
status_eq confirmed confirmed = true
status_eq PaymentStatus.failed PaymentStatus.failed = true
status_eq blocked blocked = true
status_eq _ _ = false

abbrev pub event_type_eq : EventType → EventType → Bool
event_type_eq payment_requested payment_requested = true
event_type_eq payment_confirmed payment_confirmed = true
event_type_eq payment_failed payment_failed = true
event_type_eq payment_review_required payment_review_required = true
event_type_eq _ _ = false

abbrev pub is_pending : OutboxStatus → Bool
is_pending pending = true
is_pending _ = false
