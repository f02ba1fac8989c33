-- ===== src/Tests/Requests.antt =====
-- The validation and the authentication of requests, run.
use text.Mathlib.Text.{starts_with}
use global_payments_observab.Base.{◌≢◌, ◌≡◌, String, refl, true, some, [], ◌∷◌}
use global_payments_observab.Base.Exec.{ok}
use global_payments_observab.Api.Auth.{
  AuthSettings, allowed, after_prefix, enforce_api_auth, auth_admits_only_the_token,
}
use global_payments_observab.Api.Validation.{
  Headers, RequestContext, require_header, build_request_context, is_supported, char_count, strip,
  normalize_text,
}
use global_payments_observab.Api.Validation.Laws.{build_request_context_accepts, IsClean}
use global_payments_observab.Tests.Fixtures.{format, request}

abbrev headers : Headers
headers = record {
  merchant = some " shop ";
  customer = some "alice";
  account = some "account";
  idempotency = some "key";
}

abbrev built : RequestContext
built = record {
  merchant_id = "shop";
  customer_id = "alice";
  account_id = "account";
  idempotency_key = "key";
}

accepts : build_request_context format ("BRL" ∷ []) headers request ≡ ok (built, request)
unfolding build_request_context require_header
    global_payments_observab.Api.Validation.normalize_currency
accepts = refl

build_request_context_accepts_example :
    IsClean "shop"
    × IsClean "alice"
    × IsClean "account"
    × IsClean "key"
    × (is_supported format "BRL" ("BRL" ∷ []) ≡ true)
    × (char_count "BRL" ≡ 3)
    × (request ≡ record request { currency = "BRL" })
build_request_context_accepts_example =
    build_request_context_accepts format ("BRL" ∷ []) headers request built request accepts

abbrev auth : AuthSettings
auth = record { api_auth_enabled = true; api_auth_token = some "token" }

authorized : enforce_api_auth (some auth) (some "Bearer token") ≡ allowed
unfolding enforce_api_auth
authorized = refl

auth_admits_only_the_token_example :
    (header : String) × (some "Bearer token" ≡ some header)
    × (starts_with header "Bearer " ≡ true)
    × (some "token" ≡ some (strip (after_prefix header)))
    × (strip (after_prefix header) ≢ "")
auth_admits_only_the_token_example =
    auth_admits_only_the_token auth (some "Bearer token") refl authorized
