-- ===== src/Payments/Routes/Laws.antt =====
-- What the routes answer.
use global_payments_observab.Base.{
  ℕ, ◌≡◌, ◌≢◌, ◌⊎◌, refl, inl, inr, String, Option, Option-cases, str_eq, none, some, Bool-cases,
  arith,
}
use global_payments_observab.Base.Exec.{Outcome, ok, err}
use global_payments_observab.Contracts.Records.{Payment, PaymentRequest}
use global_payments_observab.Db.{Db}
use global_payments_observab.Api.Auth.{
  AuthResult, allowed, http_error, type_error, AuthSettings, after_prefix, enforce_api_auth,
  check_header, compare_token,
}
use global_payments_observab.Api.Cache.{Redis, Format}
use global_payments_observab.Api.Errors.{
  Exception, app, validation, idempotency_conflict, concurrency, kyc_denied, limit_exceeded,
  rate_limited, value_error, redis_error, integrity_error, database_error, handle_error,
  http_status,
}
use global_payments_observab.Api.Validation.{Headers, strip}
use global_payments_observab.Api.World.{World}
use global_payments_observab.Payments.Create.Types.{Run}
use global_payments_observab.Payments.Create.Execute.{execute}
use global_payments_observab.Payments.Get.{get_payment}
use global_payments_observab.Payments.Review.{Session, Trace, approve, reject}
use global_payments_observab.Payments.Wiring.{Settings, auth_settings, get_create_payment_use_case}
use global_payments_observab.Payments.Routes.{
  Answer, status_code, answer, answered, guarded, all_given, with_headers, auth,
  create_payment_route, get_payment_route, approve_review_route, reject_review_route,
}

-- The statuses of a route that succeeds with `code`.
pub data IsStatus (code : ℕ) : ℕ → Type 0 where
  succeeds : IsStatus code code
  unauthorized : IsStatus code 401
  forbidden : IsStatus code 403
  conflicts : IsStatus code 409
  unprocessable : IsStatus code 422
  too_many : IsStatus code 429
  fails : IsStatus code 500

abbrev pub Answers : {S A : Type 0} → AuthResult → ℕ → S → Answer A × S → Type 0
Answers guard code s (a, s') =
    (guard ≢ allowed → (s' ≡ s) × ((status_code a ≡ 401) ⊎ (status_code a ≡ 500)))
    × IsStatus code (status_code a)

handle_error-IsStatus : (code : ℕ) (e : Exception) → IsStatus code (handle_error e).status_code
unfolding handle_error http_status
handle_error-IsStatus code (app (validation m)) = unprocessable
handle_error-IsStatus code (app idempotency_conflict) = conflicts
handle_error-IsStatus code (app concurrency) = conflicts
handle_error-IsStatus code (app (kyc_denied m)) = forbidden
handle_error-IsStatus code (app (limit_exceeded m)) = unprocessable
handle_error-IsStatus code (app (rate_limited d)) = too_many
handle_error-IsStatus code (value_error m) = fails
handle_error-IsStatus code redis_error = fails
handle_error-IsStatus code integrity_error = fails
handle_error-IsStatus code database_error = fails

answer-IsStatus :
    {A : Type 0} (code : ℕ) (r : Outcome Exception A) → IsStatus code (status_code (answer code r))
answer-IsStatus code (ok body) = succeeds
answer-IsStatus code (err e) = handle_error-IsStatus code e

compare_token_401 :
    (token expected : String) (code : ℕ) (detail : String)
    → compare_token token expected ≡ http_error code detail
    → code ≡ 401
unfolding compare_token
compare_token_401 token expected code detail h = ground arith

check_header_401 :
    (authorization : Option String) (expected : String) (code : ℕ) (detail : String)
    → check_header authorization expected ≡ http_error code detail
    → code ≡ 401
unfolding check_header
check_header_401 none expected code detail h = ground arith
check_header_401 (some header) expected code detail h =
    ground (arith, compare_token_401 (strip (after_prefix header)) expected code detail)

with_headers-IsStatus :
    {S A : Type 0} (code : ℕ) (headers : Headers) (route : S → Answer A × S) (s : S)
    → IsStatus code (status_code (route s).0)
    → IsStatus code (status_code (with_headers headers route s).0)
with_headers-IsStatus code headers route s h = elim (Bool-cases (all_given headers)) [
  | inl given ↦ rw given h
  | inr missing ↦ rw missing unprocessable
]

guard_statuses :
    (settings : AuthSettings) (authorization : Option String) (code : ℕ) (detail : String)
    → enforce_api_auth (some settings) authorization ≡ http_error code detail
    → (code ≡ 401) ⊎ (code ≡ 500)
unfolding enforce_api_auth
guard_statuses settings authorization code detail h = elim (Option-cases settings.api_auth_token) [
  | inl unset ↦ inr (ground arith)
  | inr (expected, e) ↦ elim (Bool-cases (str_eq expected "")) [
    | inl empty ↦ inr (ground arith)
    | inr given ↦ inl (check_header_401 authorization expected code detail (ground arith))
  ]
]

guarded-Answers :
    {S A : Type 0} (guard : AuthResult) (code : ℕ) (route : S → Answer A × S) (s : S)
    → ((c : ℕ) (detail : String) → guard ≡ http_error c detail → (c ≡ 401) ⊎ (c ≡ 500))
    → IsStatus code (status_code (route s).0)
    → Answers guard code s (guarded guard route s)
unfolding guarded
guarded-Answers allowed code route s statuses h = (λ refused. absurd (refused refl), h)
guarded-Answers type_error code route s statuses h = (λ _. (refl, inr refl), fails)
guarded-Answers (http_error c detail) code route s statuses h = (
  λ _. (refl, statuses c detail refl),
  elim (statuses c detail refl) [ inl e ↦ rw e unauthorized | inr e ↦ rw e fails ],
)

-- Each route answers with its own success or with 401, 403, 409, 422, 429 or 500, and a request that
-- does not pass the authentication gets 401 or 500 and changes nothing.
pub routes_answer :
    (settings : Settings) (authorization : Option String) {R : Redis} (F : Format) (per_cent : ℕ)
    (run : Run) (headers : Headers) (request : PaymentRequest) (t : Trace)
    (updated_at : Payment → ℕ) (payment_id : ℕ) (w : World R) (db : Db) (s : Session)
    → let guard = auth settings authorization in
      Answers guard 202 w
        (create_payment_route settings authorization F per_cent run headers request w)
      × Answers guard 200 db (get_payment_route settings authorization updated_at payment_id db)
      × Answers guard 200 s (approve_review_route settings authorization t payment_id s)
      × Answers guard 200 s (reject_review_route settings authorization t payment_id s)
unfolding create_payment_route get_payment_route approve_review_route reject_review_route
routes_answer settings authorization F per_cent run headers request t updated_at payment_id w db s =
    let statuses = guard_statuses (auth_settings settings) authorization in
    let guard = auth settings authorization in
    let services = get_create_payment_use_case F per_cent settings in
    (
      guarded-Answers guard 202
          (with_headers headers (answered 202 (execute services run headers request))) w statuses
          (with_headers-IsStatus 202 headers (answered 202 (execute services run headers request)) w
            (answer-IsStatus 202 (execute services run headers request w).0)),
      guarded-Answers guard 200 (answered 200 (λ db. (get_payment updated_at payment_id db, db))) db
          statuses (answer-IsStatus 200 (get_payment updated_at payment_id db)),
      guarded-Answers guard 200 (answered 200 (approve t payment_id)) s statuses
          (answer-IsStatus 200 (approve t payment_id s).0),
      guarded-Answers guard 200 (answered 200 (reject t payment_id)) s statuses
          (answer-IsStatus 200 (reject t payment_id s).0),
    )
