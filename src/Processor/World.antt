-- ===== src/Processor/World.antt =====
-- What the worker's session and its provider client read and write, and the errors that they raise
-- (core/errors.py).
use global_payments_observab.Base.{ℕ, String, Option, none, some, List}
use global_payments_observab.Base.Exec.{Exec}
use global_payments_observab.Contracts.Enums.{ErrorCategory, provider_timeout, provider_5xx}
use global_payments_observab.Contracts.Records.{ProviderRequest, ProviderResponse}
use global_payments_observab.Db.{Db, Row}
use global_payments_observab.Resilience.Breaker.{CircuitBreaker, CircuitBreakerConfig}

-- What a POST comes to: a timeout, another error of the transport, or an answer with its status and, if
-- it is valid, its body.
pub data Reply : Type 0 where
  timed_out : Reply
  broken : Reply
  answered : (status_code : ℕ) (body : Option ProviderResponse) → Reply

-- The HTTP client (httpx) and the text of an integer.
pub record Http : Type 1 where
  pub State : Type 0
  pub post : String → ProviderRequest → State → Reply × State
  pub decimal : ℕ → String

pub data Failure : Type 0 where
  timeout_error : Failure
  server_error : String → Failure
  circuit_open : Failure
  transport_error : Failure
  status_error : Failure
  invalid_body : Failure
  invalid_state : Failure
  integrity_error : Failure

-- `except ProcessorError`: the category and the message of such an error.
unfoldable pub processor_error : Failure → Option (ErrorCategory × String)
processor_error timeout_error = some (provider_timeout, "Provider timeout")
processor_error (server_error message) = some (provider_5xx, message)
processor_error _ = none

-- The tables as the worker's session sees them, as they are committed, the rows that it has added, the
-- UUIDs to come, the breakers by provider and the state of the client.
pub record World (H : Http) : Type 0 where
  pub db : Db
  pub committed : Db
  pub added : List Row
  pub next_uuid : ℕ
  pub breakers : String → CircuitBreaker
  pub http : H.State

abbrev pub Action : Http → Type 0 → Type 0
Action H A = Exec (World H) Failure A

-- The settings and, for the processing of one event, the readings of the clock, the draws of the
-- backoff, and what other code does: the other sessions between the read of the payment and
-- its update, and the ORM, which may write the version of an update to the payment in memory.
pub record Run : Type 0 where
  pub max_event_attempts : ℕ
  pub breaker_config : CircuitBreakerConfig
  pub allow_clock : ℕ
  pub failure_clock : ℕ
  pub clock : ℕ
  pub uniform : ℕ → ℕ
  pub meanwhile : Db → Db
  pub synchronized : ℕ → ℕ
