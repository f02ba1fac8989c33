-- ===== src/Api/Errors.antt =====
-- payments_api/core/errors.py and error_handlers.py.
use global_payments_observab.Base.{ℕ, String, ◌<>◌}
use global_payments_observab.Contracts.Enums.{
  ErrorCategory, validation_error, concurrency_conflict, RateLimitDimension, category_value,
  dimension_value,
}

-- The subclasses of `AppError`, with the fields that their constructors take.
pub data AppError : Type 0 where
  validation : String → AppError
  idempotency_conflict : AppError
  concurrency : AppError
  kyc_denied : String → AppError
  limit_exceeded : String → AppError
  rate_limited : RateLimitDimension → AppError

-- What a call may raise: an `AppError`, Python's `ValueError`, `RedisError` of the cache's client
-- and `IntegrityError` of the database's.
pub data Exception : Type 0 where
  app : AppError → Exception
  value_error : String → Exception
  redis_error : Exception
  integrity_error : Exception
  database_error : Exception

unfoldable pub category : AppError → ErrorCategory
category (validation m) = validation_error
category idempotency_conflict = ErrorCategory.idempotency_conflict
category concurrency = concurrency_conflict
category (kyc_denied m) = ErrorCategory.kyc_denied
category (limit_exceeded m) = ErrorCategory.limit_exceeded
category (rate_limited d) = ErrorCategory.rate_limited

unfoldable pub message : AppError → String
message (validation m) = m
message idempotency_conflict = "Idempotency key conflict"
message concurrency = "Concurrent update conflict"
message (kyc_denied m) = m
message (limit_exceeded m) = m
message (rate_limited d) = "Rate limited by " <> dimension_value d

unfoldable pub http_status : AppError → ℕ
http_status (validation m) = 422
http_status idempotency_conflict = 409
http_status concurrency = 409
http_status (kyc_denied m) = 403
http_status (limit_exceeded m) = 422
http_status (rate_limited d) = 429

-- The body is `{"error": {"category": …, "message": …}}`.
pub record ErrorResponse : Type 0 where
  pub status_code : ℕ
  pub category : String
  pub message : String

-- `handle_app_error`, and `handle_unexpected` for everything else.
unfoldable pub handle_error : Exception → ErrorResponse
unfolding http_status category message
handle_error (app e) = record {
  status_code = http_status e;
  category = category_value (category e);
  message = message e;
}
handle_error _ = record {
  status_code = 500;
  category = "unexpected";
  message = "Internal server error";
}
