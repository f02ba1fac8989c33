-- ===== src/Api/Validation/Laws.antt =====
-- What a request that passes validation looks like, and how one that does not is answered.
use mathlib.Core.Path.{subst}
use global_payments_observab.Base.{
  ◌≤◌, String, ◌≡◌, refl, ◌≢◌, inl, inr, true, Option, none, some, List, arith, eq_iff,
}
use global_payments_observab.Base.Exec.{Outcome, ok, err, Outcome-cases}
use global_payments_observab.Contracts.Records.{PaymentRequest}
use global_payments_observab.Api.Errors.{Exception, handle_error}
use global_payments_observab.Api.Cache.{Format}
use global_payments_observab.Api.Validation.{
  strip, char_count, require_header, is_supported, ensure_supported_currency, Headers,
  RequestContext, normalize_currency, build_request_context, max_header_length, ◌>>=◌,
}

-- A header is accepted only as its stripped text, which is neither empty nor over the bound.
pub require_header_accepts :
    (value : Option String) (key v : String)
    → require_header value key ≡ ok v
    → (raw : String) × (value ≡ some raw)
      × (v ≡ strip raw)
      × (v ≢ "")
      × (char_count v ≤ max_header_length)
unfolding require_header
require_header_accepts none key v h = ground arith
require_header_accepts (some raw) key v h =
    (raw, refl, ground arith, ground (arith, eq_iff (strip raw) ""), ground arith)

-- A header that is missing, blank or too long is answered by a 500: `require_header` raises
-- `ValueError`, which no caller turns into a `ValidationAppError`.
pub require_header_refuses :
    (value : Option String) (key : String) (e : Exception)
    → require_header value key ≡ err e
    → (handle_error e).status_code ≡ 500
unfolding require_header handle_error
require_header_refuses none key e h = ground arith
require_header_refuses (some raw) key e h = ground arith

ensure_supported :
    (F : Format) (currency : String) (supported : List String) (c : String)
    → ensure_supported_currency F currency supported ≡ ok c
    → (c ≡ F.upper (strip currency)) × (char_count c ≡ 3) × (is_supported F c supported ≡ true)
unfolding ensure_supported_currency
ensure_supported F currency supported c h = ground arith

-- A currency is refused by a 422 and never by a 500.
normalize_currency_refuses :
    (F : Format) (currency : String) (supported : List String) (e : Exception)
    → normalize_currency F currency supported ≡ err e
    → (handle_error e).status_code ≡ 422
unfolding normalize_currency ensure_supported_currency handle_error
normalize_currency_refuses F currency supported e h = ground arith

normalize_currency_accepts :
    (F : Format) (currency : String) (supported : List String) (c : String)
    → normalize_currency F currency supported ≡ ok c
    → (is_supported F c supported ≡ true) × (char_count c ≡ 3)
unfolding normalize_currency
normalize_currency_accepts F currency supported c h =
    elim (Outcome-cases (ensure_supported_currency F currency supported)) [
      | inl (d, e) ↦ ground (arith, ensure_supported F currency supported d e)
      | inr (x, e) ↦ ground arith
    ]

bind_inverts :
    {A B : Type 0} (m : Outcome Exception A) (f : A → Outcome Exception B) {b : B}
    → (m >>= f) ≡ ok b
    → (a : A) × (m ≡ ok a) × (f a ≡ ok b)
bind_inverts (ok a) f h = (a, refl, h)
bind_inverts (err e) f h = cc

-- What the rest of the handler may rely on, of a header's value.
abbrev pub IsClean : String → Type 0
IsClean v = (v ≢ "") × (char_count v ≤ max_header_length)

require_header-IsClean :
    (value : Option String) (key v : String) → require_header value key ≡ ok v → IsClean v
require_header-IsClean value key v h =
    let (raw, _, _, filled, short) = require_header_accepts value key v h in (filled, short)

abbrev built :
    String → String → String → String → String → PaymentRequest → RequestContext × PaymentRequest
built m c a k currency request = (
  record { merchant_id = m; customer_id = c; account_id = a; idempotency_key = k },
  record request { currency = currency },
)

ok_injective : {A : Type 0} {a b : A} → ◌≡◌ {A = Outcome Exception A} (ok a) (ok b) → a ≡ b
ok_injective h = cc

-- A request that passes validation has four headers that are neither empty nor longer than 128
-- characters, and a supported currency of three letters; its other fields are as they came.
pub build_request_context_accepts :
    (F : Format) (supported : List String) (headers : Headers) (request : PaymentRequest)
    (context : RequestContext) (request' : PaymentRequest)
    → build_request_context F supported headers request ≡ ok (context, request')
    → IsClean context.merchant_id
      × IsClean context.customer_id
      × IsClean context.account_id
      × IsClean context.idempotency_key
      × (is_supported F request'.currency supported ≡ true)
      × (char_count request'.currency ≡ 3)
      × (request' ≡ record request { currency = request'.currency })
unfolding build_request_context
build_request_context_accepts F supported headers request context request' h =
    let (m, em, hm) = bind_inverts (require_header headers.merchant "X-Merchant-Id") _ h in
    let (c, ec, hc) = bind_inverts (require_header headers.customer "X-Customer-Id") _ hm in
    let (a, ea, ha) = bind_inverts (require_header headers.account "X-Account-Id") _ hc in
    let (k, ek, hk) = bind_inverts (require_header headers.idempotency "Idempotency-Key") _ ha in
    let (u, eu, hu) = bind_inverts (normalize_currency F request.currency supported) _ hk in
    let e : built m c a k u request ≡ (context, request') = ok_injective hu in
    let v = normalize_currency_accepts F request.currency supported u eu in
    (
      subst (λ (r : RequestContext × PaymentRequest). IsClean r.0.merchant_id) e
          (require_header-IsClean headers.merchant "X-Merchant-Id" m em),
      subst (λ (r : RequestContext × PaymentRequest). IsClean r.0.customer_id) e
          (require_header-IsClean headers.customer "X-Customer-Id" c ec),
      subst (λ (r : RequestContext × PaymentRequest). IsClean r.0.account_id) e
          (require_header-IsClean headers.account "X-Account-Id" a ea),
      subst (λ (r : RequestContext × PaymentRequest). IsClean r.0.idempotency_key) e
          (require_header-IsClean headers.idempotency "Idempotency-Key" k ek),
      subst (λ (r : RequestContext × PaymentRequest). is_supported F r.1.currency supported ≡ true)
          e v.0,
      subst (λ (r : RequestContext × PaymentRequest). char_count r.1.currency ≡ 3) e v.1,
      subst
          (λ (r : RequestContext × PaymentRequest).
            r.1 ≡ record request { currency = r.1.currency })
          e refl,
    )
