-- ===== src/Api/Validation.antt =====
-- shared/utils/validation.py, and the use of it in `_build_request_context` and
-- `_normalize_currency` of create_payment.py.
pub mod Laws
use Prim.Native.Char.{Char, code}
use global_payments_observab.Base.{
  ℕ, suc, String, ◌<>◌, Bool, ◌&&◌, ◌||◌, not, Option, none, some, List, [], ◌∷◌, ltb, leb, ◌==◌,
  str_eq, if◌then◌else◌,
}
use global_payments_observab.Base.Exec.{Outcome, ok, err}
use global_payments_observab.Contracts.Records.{PaymentRequest}
use global_payments_observab.Api.Errors.{Exception, app, value_error, validation}
use global_payments_observab.Api.Cache.{Format}

-- `str.isspace` of one character
abbrev pub is_space : ℕ → Bool
is_space c =
    (leb 9 c && leb c 13)
    || ((leb 28 c && leb c 32)
        || (c == 133
            || (c == 160
                || (c == 5760
                    || ((leb 8192 c && leb c 8202)
                        || (c == 8232
                            || (c == 8233 || (c == 8239 || (c == 8287 || c == 12288)))))))))

unfoldable pub lstrip : String → String
lstrip String.[] = ""
lstrip (String.◌∷◌ c s) = if is_space (code c) then lstrip s else String.◌∷◌ c s

unfoldable pub rstrip : String → String
rstrip String.[] = ""
rstrip (String.◌∷◌ c s) =
    let rest = rstrip s in if is_space (code c) && str_eq rest "" then "" else String.◌∷◌ c rest

-- `str.strip`
unfoldable pub strip : String → String
unfolding lstrip rstrip
strip s = rstrip (lstrip s)

-- `len` of a text
unfoldable pub char_count : String → ℕ
char_count String.[] = 0
char_count (String.◌∷◌ c s) = suc (char_count s)

abbrev pub max_header_length : ℕ
max_header_length = 128

abbrev pub currency_code_length : ℕ
currency_code_length = 3

-- `_normalize_text`; a value that is no text is `none`.
unfoldable pub normalize_text : Option String → String → Outcome Exception String
unfolding strip
normalize_text none field_name = err (value_error ("Missing required " <> field_name))
normalize_text (some value) field_name =
    let normalized = strip value in
    if str_eq normalized ""
    then err (value_error ("Missing required " <> field_name))
    else ok normalized

abbrev bind_text :
    Outcome Exception String → (String → Outcome Exception String) → Outcome Exception String
bind_text (ok s) f = f s
bind_text (err e) f = err e

-- `require_header`, on the value that `headers.get(key)` returns.
unfoldable pub require_header : Option String → String → Outcome Exception String
unfolding normalize_text char_count
require_header value key = bind_text (normalize_text value ("header: " <> key)) λ normalized.
    if ltb max_header_length (char_count normalized)
    then err (value_error ("Header too long: " <> key))
    else ok normalized

module _ (F : Format) where
  -- `normalized in supported_codes`
  unfoldable pub is_supported : String → List String → Bool
  unfolding strip
  is_supported currency [] = Bool.false
  is_supported currency (item ∷ items) =
      (not (str_eq (strip item) "") && str_eq currency (F.upper (strip item)))
      || is_supported currency items

  unfoldable pub ensure_supported_currency : String → List String → Outcome Exception String
  unfolding normalize_text char_count is_supported
  ensure_supported_currency currency supported =
      bind_text (normalize_text (some currency) "currency") λ text.
        let normalized = F.upper text in
        if not (char_count normalized == currency_code_length)
        then err (value_error ("Invalid currency code length: " <> normalized))
        else if not (is_supported normalized supported)
        then err (value_error ("Unsupported currency: " <> normalized))
        else ok normalized

  -- `except ValueError as exc: raise ValidationAppError(str(exc))`
  abbrev as_validation : Outcome Exception String → Outcome Exception String
  as_validation (err (value_error m)) = err (app (validation m))
  as_validation r = r

  unfoldable pub normalize_currency : String → List String → Outcome Exception String
  unfolding ensure_supported_currency
  normalize_currency currency supported =
      as_validation (ensure_supported_currency currency supported)

-- The headers that the route passes on; `none` is a missing header.
pub record Headers : Type 0 where
  pub merchant : Option String
  pub customer : Option String
  pub account : Option String
  pub idempotency : Option String

pub record RequestContext : Type 0 where
  pub merchant_id : String
  pub customer_id : String
  pub account_id : String
  pub idempotency_key : String

infixl 10 ◌>>=◌
abbrev pub ◌>>=◌ :
    {A B : Type 0} → Outcome Exception A → (A → Outcome Exception B) → Outcome Exception B
ok a >>= f = f a
err e >>= f = err e

-- `_build_request_context`: the context, and the request with its currency normalised.
unfoldable pub build_request_context :
    Format
    → List String
    → Headers
    → PaymentRequest
    → Outcome Exception (RequestContext × PaymentRequest)
build_request_context F supported headers request = do
  merchant_id ← require_header headers.merchant "X-Merchant-Id"
  customer_id ← require_header headers.customer "X-Customer-Id"
  account_id ← require_header headers.account "X-Account-Id"
  idempotency_key ← require_header headers.idempotency "Idempotency-Key"
  currency ← normalize_currency F request.currency supported
  ok (
    record {
      merchant_id = merchant_id;
      customer_id = customer_id;
      account_id = account_id;
      idempotency_key = idempotency_key;
    },
    record request { currency = currency },
  )
