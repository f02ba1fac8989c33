-- ===== src/Payments/Wiring.antt =====
-- payments_api/core/config.py and the builders of api/dependencies.py: the settings, and the services
-- of the use case as they come out of them.
use Prim.Native.Char.{code}
use global_payments_observab.Base.{
  ℕ, String, str_eq, Bool, Option, List, [], ◌∷◌, ◌==◌, if◌then◌else◌,
}
use global_payments_observab.Api.Auth.{AuthSettings}
use global_payments_observab.Api.Cache.{Format}
use global_payments_observab.Api.Validation.{strip}
use global_payments_observab.Payments.Create.Types.{Services}

-- `Settings`; an amount of money comes in the units of the model, of which a cent has `per_cent`.
pub record Settings : Type 0 where
  pub api_auth_enabled : Bool
  pub api_auth_token : Option String
  pub cors_allowed_origins_csv : String
  pub idempotency_ttl_seconds : ℕ
  pub limits_policy_cache_ttl_seconds : ℕ
  pub supported_currencies : List String
  pub merchant_rate_limit : ℕ
  pub customer_rate_limit : ℕ
  pub account_rate_limit : ℕ
  pub rate_limit_window_seconds : ℕ
  pub aml_total_window_seconds : ℕ
  pub aml_total_threshold_amount : ℕ
  pub aml_structuring_window_seconds : ℕ
  pub aml_structuring_count_threshold : ℕ
  pub aml_blocklist_destinations_csv : String
  pub risk_review_threshold : ℕ
  pub risk_block_threshold : ℕ

-- `split(",")`: the first item and the others
unfoldable pub split_commas : String → String × List String
split_commas String.[] = ("", [])
split_commas (String.◌∷◌ c s) =
    let (item, items) = split_commas s in
    if code c == 44 then ("", item ∷ items) else (String.◌∷◌ c item, items)

-- `item.strip() for item in … if item.strip()`
unfoldable pub stripped : List String → List String
unfolding strip
stripped [] = []
stripped (item ∷ items) =
    let rest = stripped items in
    let text = strip item in if str_eq text "" then rest else text ∷ rest

unfoldable pub items_of_csv : String → List String
unfolding split_commas stripped
items_of_csv csv = let (item, items) = split_commas csv in stripped (item ∷ items)

abbrev pub aml_blocklist_destinations : Settings → List String
aml_blocklist_destinations settings = items_of_csv settings.aml_blocklist_destinations_csv

abbrev pub cors_allowed_origins : Settings → List String
cors_allowed_origins settings = items_of_csv settings.cors_allowed_origins_csv

abbrev pub auth_settings : Settings → AuthSettings
auth_settings settings = record {
  api_auth_enabled = settings.api_auth_enabled;
  api_auth_token = settings.api_auth_token;
}

-- `get_create_payment_use_case`
unfoldable pub get_create_payment_use_case : Format → (per_cent : ℕ) → Settings → Services
unfolding items_of_csv
get_create_payment_use_case F per_cent settings = record {
  format = F;
  supported_currencies = settings.supported_currencies;
  idempotency_ttl_seconds = settings.idempotency_ttl_seconds;
  rate_limits = record {
    merchant_limit = settings.merchant_rate_limit;
    customer_limit = settings.customer_rate_limit;
    account_limit = settings.account_rate_limit;
    window_seconds = settings.rate_limit_window_seconds;
  };
  limits = record {
    cache_ttl_seconds = settings.limits_policy_cache_ttl_seconds;
    per_cent = per_cent;
  };
  risk = record {
    review_threshold = settings.risk_review_threshold;
    block_threshold = settings.risk_block_threshold;
  };
  aml = record {
    blocklist_destinations = aml_blocklist_destinations settings;
    total_window_seconds = settings.aml_total_window_seconds;
    total_threshold_amount = settings.aml_total_threshold_amount;
    structuring_window_seconds = settings.aml_structuring_window_seconds;
    structuring_count_threshold = settings.aml_structuring_count_threshold;
  };
}
