-- ===== src/Payments/Routes.antt =====
-- api/routes_payments.py: the routes behind `enforce_api_auth`, with the error handlers around them.
pub mod Laws
use global_payments_observab.Base.{
  ℕ, ◌≡◌, ◌≢◌, ◌⊎◌, refl, inl, inr, String, Bool, true, false, ◌&&◌, Option, none, some, is_some,
  Bool-cases, arith, if◌then◌else◌,
}
use global_payments_observab.Base.Exec.{Outcome, ok, err, Exec, Outcome-cases}
use global_payments_observab.Contracts.Records.{
  Payment, PaymentRequest, AcceptedResponse, StatusResponse,
}
use global_payments_observab.Db.{Db}
use global_payments_observab.Api.Auth.{
  AuthResult, allowed, http_error, type_error, AuthSettings, enforce_api_auth, check_header,
  compare_token,
}
use global_payments_observab.Api.Cache.{Redis, Format}
use global_payments_observab.Api.Errors.{
  Exception, AppError, app, validation, idempotency_conflict, concurrency, kyc_denied,
  limit_exceeded, rate_limited, value_error, redis_error, integrity_error, ErrorResponse,
  handle_error, http_status,
}
use global_payments_observab.Api.Validation.{Headers}
use global_payments_observab.Api.World.{World}
use global_payments_observab.Payments.Create.Types.{Run}
use global_payments_observab.Payments.Create.Execute.{execute}
use global_payments_observab.Payments.Get.{get_payment}
use global_payments_observab.Payments.Review.{Session, Trace, approve, reject}
use global_payments_observab.Payments.Wiring.{Settings, auth_settings, get_create_payment_use_case}

-- What a route answers: a result with its status, an error of the handlers, an `HTTPException`, or the
-- framework's answer to a request without a header that the route requires.
pub data Answer (A : Type 0) : Type 0 where
  success : (status_code : ℕ) (body : A) → Answer A
  failure : ErrorResponse → Answer A
  http_exception : (status_code : ℕ) (detail : String) → Answer A
  missing_header : Answer A

abbrev pub status_code : {A : Type 0} → Answer A → ℕ
status_code (success code body) = code
status_code (failure response) = response.status_code
status_code (http_exception code detail) = code
status_code missing_header = 422

abbrev pub internal_error : ErrorResponse
internal_error = record {
  status_code = 500;
  category = "unexpected";
  message = "Internal server error";
}

abbrev pub answer : {A : Type 0} → ℕ → Outcome Exception A → Answer A
answer code (ok body) = success code body
answer code (err e) = failure (handle_error e)

abbrev pub all_given : Headers → Bool
all_given headers =
    is_some headers.merchant
    && (is_some headers.customer && (is_some headers.account && is_some headers.idempotency))

module _ {S A : Type 0} where
  abbrev pub answered : ℕ → Exec S Exception A → S → Answer A × S
  answered code use_case s = let (r, s') = use_case s in (answer code r, s')

  -- what the guard of the router lets through
  unfoldable pub guarded : AuthResult → (S → Answer A × S) → S → Answer A × S
  guarded allowed route s = route s
  guarded (http_error code detail) route s = (http_exception code detail, s)
  guarded type_error route s = (failure internal_error, s)

  -- a route that requires its headers
  abbrev pub with_headers : Headers → (S → Answer A × S) → S → Answer A × S
  with_headers headers route s =
      let answer = route s in if all_given headers then answer else (missing_header, s)

module _ (settings : Settings) (authorization : Option String) where
  abbrev pub auth : AuthResult
  auth = enforce_api_auth (some (auth_settings settings)) authorization

  -- `POST /payments`
  unfoldable pub create_payment_route :
      {R : Redis}
      → Format
      → (per_cent : ℕ) → Run
      → Headers
      → PaymentRequest
      → World R
      → Answer AcceptedResponse × World R
  unfolding guarded
  create_payment_route F per_cent run headers request =
      let services = get_create_payment_use_case F per_cent settings in
      guarded auth (with_headers headers (answered 202 (execute services run headers request)))

  -- `GET /payments/{payment_id}`
  unfoldable pub get_payment_route : (Payment → ℕ) → ℕ → Db → Answer StatusResponse × Db
  unfolding guarded
  get_payment_route updated_at payment_id =
      guarded auth (answered 200 (λ db. (get_payment updated_at payment_id db, db)))

  -- `POST /review/{payment_id}/approve`
  unfoldable pub approve_review_route : Trace → ℕ → Session → Answer AcceptedResponse × Session
  unfolding guarded
  approve_review_route t payment_id = guarded auth (answered 200 (approve t payment_id))

  -- `POST /review/{payment_id}/reject`
  unfoldable pub reject_review_route : Trace → ℕ → Session → Answer AcceptedResponse × Session
  unfolding guarded
  reject_review_route t payment_id = guarded auth (answered 200 (reject t payment_id))
