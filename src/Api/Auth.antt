-- ===== src/Api/Auth.antt =====
-- `enforce_api_auth` of payments_api/api/dependencies.py, the guard of every payments route.
use Prim.Native.Char.{code}
use text.Mathlib.Text.{starts_with}
use global_payments_observab.Base.{
  ℕ, String, ◌≡◌, refl, ◌≢◌, Bool, true, not, ◌&&◌, Option, none, some, arith, ltb, str_eq, eq_iff,
  Option-cases, inl, inr, if◌then◌else◌,
}
use global_payments_observab.Api.Validation.{strip}

pub record AuthSettings : Type 0 where
  pub api_auth_enabled : Bool
  pub api_auth_token : Option String

-- The request goes on, is answered by an `HTTPException`, or fails by the `TypeError` with which
-- `secrets.compare_digest` refuses texts that are not ASCII.
pub data AuthResult : Type 0 where
  allowed : AuthResult
  http_error : (status_code : ℕ) (detail : String) → AuthResult
  type_error : AuthResult

unfoldable pub is_ascii : String → Bool
is_ascii String.[] = true
is_ascii (String.◌∷◌ c s) = ltb (code c) 128 && is_ascii s

-- `authorization[7:]`, the text after `"Bearer "`
abbrev drop_char : String → String
drop_char String.[] = ""
drop_char (String.◌∷◌ c s) = s

abbrev pub after_prefix : String → String
after_prefix s = drop_char (drop_char (drop_char (drop_char (drop_char (drop_char (drop_char s))))))

unfoldable pub compare_token : String → String → AuthResult
unfolding is_ascii
compare_token token expected =
    if not (is_ascii token && is_ascii expected)
    then type_error
    else if str_eq token expected
    then allowed
    else http_error 401 "Invalid bearer token"

unfoldable pub check_header : Option String → String → AuthResult
unfolding compare_token strip
check_header authorization expected = elim authorization [
  | none ↦ http_error 401 "Missing bearer token"
  | some header ↦
      if str_eq header ""
      then http_error 401 "Missing bearer token"
      else if not (starts_with header "Bearer ")
      then http_error 401 "Invalid authorization scheme"
      else compare_token (strip (after_prefix header)) expected
]

unfoldable pub enforce_api_auth : Option AuthSettings → Option String → AuthResult
unfolding check_header
enforce_api_auth none authorization = allowed
enforce_api_auth (some settings) authorization =
    if not settings.api_auth_enabled then allowed else elim settings.api_auth_token [
      | none ↦ http_error 500 "Authentication is misconfigured"
      | some expected ↦
          if str_eq expected ""
          then http_error 500 "Authentication is misconfigured"
          else check_header authorization expected
    ]

-- Where authentication is on, a request passes only with the bearer scheme and a token that is the
-- configured one after its white space is stripped, and the configured token is not empty.
pub auth_admits_only_the_token :
    (settings : AuthSettings) (authorization : Option String)
    → settings.api_auth_enabled ≡ true
    → enforce_api_auth (some settings) authorization ≡ allowed
    → (header : String) × (authorization ≡ some header)
      × (starts_with header "Bearer " ≡ true)
      × (settings.api_auth_token ≡ some (strip (after_prefix header)))
      × (strip (after_prefix header) ≢ "")
unfolding enforce_api_auth
auth_admits_only_the_token settings none on h = ground arith
auth_admits_only_the_token settings (some header) on h =
    elim (Option-cases settings.api_auth_token) [
      | inl unset ↦ absurd (ground arith)
      | inr (expected, e) ↦ (
        header,
        refl,
        ground arith,
        ground (arith, eq_iff (strip (after_prefix header)) expected),
        ground (arith, eq_iff (strip (after_prefix header)) expected, eq_iff expected ""),
      )
    ]
