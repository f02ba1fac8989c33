-- ===== src/Api/Pipeline.antt =====
-- What stands around the routes of payments_api/main.py: the handlers of error_handlers.py, the
-- CorrelationMiddleware of shared/logging/middleware.py and `telemetry_middleware`. The framework
-- runs the handler of `AppError` next to the router and that of `Exception` outside every middleware.
pub mod Laws
use global_payments_observab.Base.{
  ℕ, suc, String, str_eq, Bool, Option, none, some, List, [], ◌∷◌, ◌++◌, leb, if◌then◌else◌,
}
use global_payments_observab.Base.Exec.{Outcome, ok, err, Exec}
use global_payments_observab.Api.Errors.{Exception, app, ErrorResponse, handle_error}
use global_payments_observab.Api.SecurityHeaders.{Headers, apply_security_headers, is_named}
use global_payments_observab.Logging.Correlation.{
  Context, set_correlation_context, clear_correlation_context,
}

pub record Response : Type 0 where
  pub status_code : ℕ
  pub headers : Headers

-- The headers of a request that the middleware reads, an absent one as the empty text.
pub record RequestHeaders : Type 0 where
  pub idempotency_key : String
  pub merchant_id : String
  pub customer_id : String
  pub account_id : String
  pub rail : String

-- The correlation context and the counters of core/metrics.py, beside the state of the use cases; an
-- error is counted with its status.
pub record Observed (S : Type 0) : Type 0 where
  pub context : Context
  pub requests : ℕ
  pub errors : List ℕ
  pub state : S

abbrev pub Route : Type 0 → Type 0
Route S = Exec (Observed S) Exception Response

-- `json_headers` are the headers that the framework's JSONResponse gives a content, such as its length.
module _ (json_headers : ErrorResponse → Headers) where
  -- the JSONResponse of a handler
  abbrev pub to_response : Exception → Response
  to_response e =
      let answer = handle_error e in
      record { status_code = answer.status_code; headers = json_headers answer }

  -- `handle_app_error`
  abbrev pub handled : Outcome Exception Response → Outcome Exception Response
  handled (ok response) = ok response
  handled (err (app e)) = ok (to_response (app e))
  handled (err e) = err e

  abbrev pub exception_middleware : {S : Type 0} → Route S → Route S
  exception_middleware call_next s = let (r, s') = call_next s in (handled r, s')

  -- `handle_unexpected`
  abbrev pub unexpected : Outcome Exception Response → Response
  unexpected (ok response) = response
  unexpected (err e) = to_response e

-- the context that `dispatch` sets
abbrev pub context_of : String → RequestHeaders → Context
context_of trace_id h =
    ("trace_id", trace_id)
    ∷ ("idempotency_key", h.idempotency_key)
    ∷ ("merchant_id", h.merchant_id)
    ∷ ("customer_id", h.customer_id)
    ∷ ("account_id", h.account_id)
    ∷ ("rail", h.rail)
    ∷ []

-- `CorrelationMiddleware.dispatch`: the context is cleared whatever `call_next` does.
unfoldable pub dispatch : {S : Type 0} → String → RequestHeaders → Route S → Route S
dispatch trace_id h call_next s =
    let (r, s') =
      call_next
        (record s { context = set_correlation_context (context_of trace_id h) s.context }) in
    (r, record s' { context = clear_correlation_context s'.context })

module _ (lower : String → String) where
  -- `response.headers["X-Trace-Id"] = trace_id`
  abbrev pub set_header : String → String → Headers → Headers
  set_header name value [] = (name, value) ∷ []
  set_header name value (h ∷ hs) =
      let rest = set_header name value hs in
      if is_named lower name h then (h.0, value) ∷ hs else h ∷ rest

  abbrev pub finished : String → Response → Response
  finished trace_id response = record response {
    headers = apply_security_headers lower (set_header "X-Trace-Id" trace_id response.headers);
  }

abbrev pub count_error : {S : Type 0} → ℕ → Observed S → Observed S
count_error code s = if leb 400 code then record s { errors = code ∷ s.errors } else s

module _ {S : Type 0} (lower : String → String) where
  abbrev pub after_response :
      String → Outcome Exception Response → Observed S → Outcome Exception Response × Observed S
  after_response trace_id (ok response) s =
      (ok (finished lower trace_id response), count_error response.status_code s)
  after_response trace_id (err e) s = (err e, s)

  -- `telemetry_middleware`, less the histogram. The id of the header is read when the span of the
  -- request has ended, so it is not the id that the middleware inside reads.
  unfoldable pub telemetry_middleware : String → Route S → Route S
  telemetry_middleware id_after_span call_next s =
      let (r, s') = call_next (record s { requests = suc s.requests }) in
      after_response id_after_span r s'

  -- A request through the application; the context is that of the request's own task. `trace_id` is
  -- what `current_trace_id` returns inside the span of the request, `id_after_span` what it returns
  -- after it.
  unfoldable pub serve :
      (ErrorResponse → Headers)
      → (trace_id id_after_span : String) → RequestHeaders
      → Route S
      → Observed S
      → Response × Observed S
  unfolding telemetry_middleware dispatch
  serve json_headers trace_id id_after_span h route s =
      let (r, s') =
        telemetry_middleware id_after_span
          (dispatch trace_id h (exception_middleware json_headers route)) s in
      (unexpected json_headers r, s')
