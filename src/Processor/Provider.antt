-- ===== src/Processor/Provider.antt =====
-- commands/call_provider.py, providers/adapter.py and providers/strategy.py: a call of a provider behind
-- its circuit breaker, with retries.
use global_payments_observab.Base.{
  ℕ, String, ◌<>◌, str_eq, Bool, true, false, ◌&&◌, Option, none, some, leb, if◌then◌else◌,
}
use global_payments_observab.Base.Exec.{Outcome, ok, err, ◌>>◌}
use global_payments_observab.Contracts.Records.{Payment, ProviderRequest, ProviderResponse}
use global_payments_observab.Rails.{provider_name_for_method, provider_confirm_path_for_method}
use global_payments_observab.Resilience.Breaker.{
  CircuitBreaker, CircuitOpen, circuit_is_open, allow_call, on_failure, on_success,
}
use global_payments_observab.Resilience.Retry.{retry_async}
use global_payments_observab.Processor.World.{
  World, Http, Action, Run, Reply, timed_out, broken, answered, Failure, timeout_error,
  server_error, circuit_open, transport_error, status_error, invalid_body, invalid_state,
}

-- `_is_transient`
abbrev pub is_transient : Failure → Bool
is_transient timeout_error = true
is_transient (server_error message) = true
is_transient circuit_open = true
is_transient _ = false

abbrev pub body_or_error : Option ProviderResponse → Outcome Failure ProviderResponse
body_or_error none = err invalid_body
body_or_error (some response) = ok response

-- What `confirm` of the adapter makes of a reply. `raise_for_status` lets 2xx through.
abbrev pub read_reply : (ℕ → String) → Reply → Outcome Failure ProviderResponse
read_reply decimal timed_out = err timeout_error
read_reply decimal broken = err transport_error
read_reply decimal (answered code body) =
    if leb 500 code
    then err (server_error ("Provider returned " <> decimal code))
    else if leb 200 code && leb code 299
    then body_or_error body
    else err status_error

module _ {H : Http} where
  -- `ProviderClientAdapter.confirm`
  unfoldable pub confirm_once : String → ProviderRequest → Action H ProviderResponse
  confirm_once path request w =
      let (reply, s) = H.post path request w.http in
      (read_reply H.decimal reply, record w { http = s })

  -- `_call_once`
  unfoldable pub call_once : Payment → Action H ProviderResponse
  call_once p = confirm_once (provider_confirm_path_for_method p.method) (record {
    payment_id = p.payment_id;
    merchant_id = p.merchant_id;
    amount = p.amount;
    currency = p.currency;
    method = p.method;
  })

  abbrev pub set_breaker : String → CircuitBreaker → World H → World H
  set_breaker name b w = record w {
    breakers = λ other. if str_eq name other then b else w.breakers other;
  }

  abbrev pub allowed :
      String → Outcome CircuitOpen (Unit {0}) → CircuitBreaker → Action H (Unit {0})
  allowed name (err circuit_is_open) b w = (err circuit_open, w)
  allowed name (ok _) b w = (ok tt, set_breaker name b w)

  -- `breaker.allow_call()`, outside the `try`
  abbrev pub allow : Run → String → Action H (Unit {0})
  allow run name w =
      let (r, b) = allow_call run.breaker_config run.allow_clock (w.breakers name) in
      allowed name r b w

  abbrev pub after_call :
      Run → String → Outcome Failure ProviderResponse → Action H ProviderResponse
  after_call run name (ok response) w =
      (ok response, set_breaker name (on_success (w.breakers name)) w)
  after_call run name (err e) w = (
    err e,
    set_breaker name (on_failure run.breaker_config run.failure_clock (w.breakers name)) w,
  )

  abbrev pub guarded : Run → String → Action H ProviderResponse → Action H ProviderResponse
  guarded run name call w = let (r, w') = call w in after_call run name r w'

  -- The call with its retries. A sleep passes time alone.
  unfoldable pub retried : Payment → Action H ProviderResponse
  retried p = retry_async (λ attempt w. w) is_transient invalid_state (call_once p) 3

  -- `CallProviderCommand.execute`
  unfoldable pub call_provider : Run → Payment → Action H ProviderResponse
  unfolding retried
  call_provider run p =
      let name = provider_name_for_method p.method in allow run name >> guarded run name (retried p)
