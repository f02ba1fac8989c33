-- ===== src/Tests/Shell.antt =====
-- Routes, middleware, log records and the provider mock, run.
use Prim.Native.Char.{Char, code}
use global_payments_observab.Base.{
  ℕ, suc, ◌≡◌, ◌⊎◌, refl, ◌≤◌, arith, Bool, true, ◌&&◌, ◌||◌, none, some, [], ◌∷◌, leb, ◌==◌,
}
use global_payments_observab.Base.Exec.{ok, err}
use global_payments_observab.Contracts.Records.{ProviderResponse}
use global_payments_observab.Api.Errors.{value_error, ErrorResponse}
use global_payments_observab.Api.Pipeline.{Observed, RequestHeaders, Route, serve, context_of}
use global_payments_observab.Api.Pipeline.Laws.{Leaves, serve_lem}
use global_payments_observab.Logging.Redact.{CharClass, chars}
use global_payments_observab.Logging.Sanitize.{
  TextLibrary, LogRecord, field, end, text, format_record,
}
use global_payments_observab.Logging.Sanitize.Laws.{
  IsoIsPlain, IsClean, height, short_unmatched, format_record_hides,
}
use global_payments_observab.Mock.{Library, FaultConfig, mock_http}
use global_payments_observab.Mock.Laws.{retries_repeat}
use global_payments_observab.Processor.World.{World, Failure}
use global_payments_observab.Processor.Provider.{call_once, retried, is_transient}
use global_payments_observab.Payments.Review.{Trace, open_session}
use global_payments_observab.Api.SecurityHeaders
use global_payments_observab.Api.Validation.{Headers}
use global_payments_observab.Payments.Routes.{
  auth, create_payment_route, get_payment_route, approve_review_route, reject_review_route,
}
use global_payments_observab.Payments.Routes.Laws.{Answers, routes_answer}
use global_payments_observab.Payments.Wiring.{Settings}
use global_payments_observab.Resilience.Breaker.{new_breaker}
use global_payments_observab.Tests.Fixtures.{
  format, run, request, world, stored_db, payment, strokes,
}

abbrev settings : Settings
settings = record {
  api_auth_enabled = true;
  api_auth_token = some "secret";
  cors_allowed_origins_csv = "http://localhost:3000";
  idempotency_ttl_seconds = 300;
  limits_policy_cache_ttl_seconds = 60;
  supported_currencies = "BRL" ∷ "USD" ∷ [];
  merchant_rate_limit = 120;
  customer_rate_limit = 80;
  account_rate_limit = 80;
  rate_limit_window_seconds = 60;
  aml_total_window_seconds = 600;
  aml_total_threshold_amount = 5000;
  aml_structuring_window_seconds = 900;
  aml_structuring_count_threshold = 3;
  aml_blocklist_destinations_csv = "bad, worse";
  risk_review_threshold = 50;
  risk_block_threshold = 80;
}

abbrev trace : Trace
trace = record { trace_id = "trace"; traceparent = none; now = 2000 }

abbrev headers : Headers
headers = record {
  merchant = some "shop";
  customer = some "alice";
  account = some "account";
  idempotency = some "key";
}

routes_answer_example :
    let guard = auth settings (some "Bearer secret") in
    Answers guard 202 world
      (create_payment_route settings (some "Bearer secret") format 1 run headers request world)
    × Answers guard 200 stored_db
        (get_payment_route settings (some "Bearer secret") (λ p. p.created_at) 7 stored_db)
    × Answers guard 200
        (open_session stored_db 1)
        (approve_review_route settings (some "Bearer secret") trace 7 (open_session stored_db 1))
    × Answers guard 200
        (open_session stored_db 1)
        (reject_review_route settings (some "Bearer secret") trace 7 (open_session stored_db 1))
routes_answer_example =
    routes_answer settings (some "Bearer secret") format 1 run headers request trace
      (λ p. p.created_at) 7 world stored_db (open_session stored_db 1)

-- A route that raises what no handler of the application names.
abbrev broken_route : Route ℕ
broken_route s =
    (err (value_error "Missing required header: X-Rail"), record s { state = suc s.state })

abbrev no_headers : RequestHeaders
no_headers = record {
  idempotency_key = "";
  merchant_id = "";
  customer_id = "";
  account_id = "";
  rail = "";
}

abbrev idle : Observed ℕ
idle = record { context = []; requests = 0; errors = []; state = 0 }

abbrev json : ErrorResponse → SecurityHeaders.Headers
json answer = ("content-type", "application/json") ∷ []

serve_lem_example :
    let (r, s₁) =
      broken_route (record idle { requests = 1; context = context_of "trace" no_headers }) in
    let (q, s') = serve (λ s. s) json "trace" "" no_headers broken_route idle in
    Leaves (λ s. s) json "" r q s₁.errors s'.errors
    × (s'.context ≡ [])
    × (s'.requests ≡ 1)
    × (s'.state ≡ s₁.state)
serve_lem_example = serve_lem (λ s. s) json "trace" "" no_headers broken_route idle

-- The characters of ASCII.
abbrev ascii_digit : Char → Bool
ascii_digit c = leb 48 (code c) && leb (code c) 57

abbrev ascii : CharClass
ascii = record {
  is_word = λ c.
      ascii_digit c
      || ((leb 65 (code c) && leb (code c) 90)
          || (code c == 95 || (leb 97 (code c) && leb (code c) 122)));
  is_digit = ascii_digit;
  digit_is_word = λ c h. rw h refl;
  open_bracket = refl;
  close_bracket = refl;
  letter = refl;
  letters = refl;
}

abbrev library : TextLibrary
library = record { classes = ascii; lower = λ s. s; isoformat = λ t. chars "now" }

iso : IsoIsPlain library
iso = record { iso_plain = λ t. short_unmatched library (chars "now") (omega arith) }

-- a record with a card number, in a field of a secret name and in another
abbrev secrets : LogRecord
secrets = record {
  timestamp = chars "now";
  levelname = chars "INFO";
  name = chars "app";
  message = chars "card 4111111111111111 used";
  exception = none;
  extra_fields = some (
      field "destination" (text (chars "bob"))
        (field "note" (text (chars "4111111111111111")) end));
}

format_record_hides_example :
    IsClean library (format_record library end secrets)
    × (height library (format_record library end secrets) ≤ 6)
format_record_hides_example = format_record_hides library end secrets iso

-- the mock, which breaks down at the third draw
abbrev draws : Library
draws = record { random = λ text n. n; decimal = strokes; uuid_text = strokes }

abbrev faults : FaultConfig
faults = record {
  seed = 42;
  base_latency_ms = 40;
  latency_spike_ms = 350;
  timeout_ms = 1200;
  fault_5xx_rate = 3;
  timeout_rate = 0;
  latency_spike_rate = 0;
  duplicate_rate = 0;
  partial_failure_rate = 0;
}

abbrev mocked : World (mock_http draws faults 1500)
mocked = record {
  db = stored_db;
  committed = stored_db;
  added = [];
  next_uuid = 9;
  breakers = λ _. new_breaker;
  http = 0;
}

retries_repeat_example :
    let (r, w') = retried payment mocked in
    (r ≡ (call_once payment mocked).0)
    × (((response : ProviderResponse) × (r ≡ ok response) × (w'.http ≡ 1))
        ⊎ ((e : Failure) × (r ≡ err e) × (is_transient e ≡ true) × (w'.http ≡ 3)))
retries_repeat_example = retries_repeat draws faults 1500 payment mocked
