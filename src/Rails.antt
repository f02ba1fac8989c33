-- ===== src/Rails.antt =====
-- shared/constants: the rail profiles (payment_rails.py) and the keys of the cache (redis_keys.py),
-- with the scoped key of shared/utils/ids.py.
use global_payments_observab.Base.{ℕ, String, ◌<>◌, List, [], ◌∷◌, map}
use global_payments_observab.Contracts.Enums.{
  PaymentMethod, pix, boleto, ted, card, KycLevel, basic, full, RateLimitDimension, method_value,
  dimension_value,
}

pub record RailProfile : Type 0 where
  pub method : PaymentMethod
  pub provider_slug : String
  pub provider_name : String
  pub minimum_kyc_level : KycLevel

-- `_RAIL_PROFILES` has an entry for every method, so the lookup never raises `KeyError`.
unfoldable pub get_rail_profile : PaymentMethod → RailProfile
get_rail_profile pix = record {
  method = pix;
  provider_slug = "pix";
  provider_name = "pix-provider";
  minimum_kyc_level = basic;
}
get_rail_profile boleto = record {
  method = boleto;
  provider_slug = "boleto";
  provider_name = "boleto-provider";
  minimum_kyc_level = basic;
}
get_rail_profile ted = record {
  method = ted;
  provider_slug = "ted";
  provider_name = "ted-provider";
  minimum_kyc_level = full;
}
get_rail_profile card = record {
  method = card;
  provider_slug = "card";
  provider_name = "card-provider";
  minimum_kyc_level = basic;
}

unfoldable pub provider_slug_for_method : PaymentMethod → String
unfolding get_rail_profile
provider_slug_for_method m = (get_rail_profile m).provider_slug

unfoldable pub provider_name_for_method : PaymentMethod → String
unfolding get_rail_profile
provider_name_for_method m = (get_rail_profile m).provider_name

unfoldable pub provider_confirm_path_for_method : PaymentMethod → String
unfolding provider_slug_for_method
provider_confirm_path_for_method m = "/providers/" <> (provider_slug_for_method m <> "/confirm")

unfoldable pub minimum_kyc_level_for_method : PaymentMethod → KycLevel
unfolding get_rail_profile
minimum_kyc_level_for_method m = (get_rail_profile m).minimum_kyc_level

unfoldable pub kyc_level_rank : KycLevel → ℕ
kyc_level_rank KycLevel.none = 0
kyc_level_rank basic = 1
kyc_level_rank full = 2

-- the order of the dictionary's keys
unfoldable pub supported_provider_names : List String
unfolding provider_name_for_method
supported_provider_names = map provider_name_for_method (pix ∷ boleto ∷ ted ∷ card ∷ [])

unfoldable pub limits_policy_key : PaymentMethod → String
limits_policy_key rail = "limits:policy:" <> method_value rail

unfoldable pub limits_daily_key : String → String → PaymentMethod → String
limits_daily_key date_key customer_id rail =
    "limits:daily:" <> (date_key <> (":" <> (customer_id <> (":" <> method_value rail))))

unfoldable pub limits_velocity_key : String → PaymentMethod → String
limits_velocity_key customer_id rail =
    "limits:velocity:" <> (customer_id <> (":" <> method_value rail))

-- the bucket comes as its text
unfoldable pub rate_limit_key : RateLimitDimension → String → String → String
rate_limit_key dimension value bucket =
    "rate:" <> (dimension_value dimension <> (":" <> (value <> (":" <> bucket))))

unfoldable pub aml_history_key : String → String
aml_history_key customer_id = "aml:history:" <> customer_id

abbrev pub aml_history_max_items : ℕ
aml_history_max_items = 500

unfoldable pub idempotency_scoped_key : String → String → String
idempotency_scoped_key merchant_id idempotency_key = merchant_id <> (":" <> idempotency_key)
