-- ===== src/Processor/Start.antt =====
-- `_build_provider_breakers` of payments_processor/main.py, and of core/config.py the address of the
-- providers.
use global_payments_observab.Base.{
  String, ◌<>◌, str_eq, ◌≡◌, refl, Option, none, some, List, map, find, if◌then◌else◌,
}
use global_payments_observab.Contracts.Enums.{PaymentMethod, pix, boleto, ted, card}
use global_payments_observab.Rails.{provider_name_for_method, supported_provider_names}
use global_payments_observab.Resilience.Breaker.{CircuitBreaker, CircuitBreakerConfig, new_breaker}

abbrev pub provider_breaker_config : CircuitBreakerConfig
provider_breaker_config = record { failure_threshold = 3; recovery_timeout_seconds = 5 }

-- the dictionary, its entries by the names of the providers
unfoldable pub build_provider_breakers : List (String × CircuitBreaker)
unfolding supported_provider_names new_breaker
build_provider_breakers = map (λ name. (name, new_breaker)) supported_provider_names

-- Each method's provider has a breaker, so `self._breakers[name]` never raises `KeyError`.
breaker_of_every_method :
    (method : PaymentMethod)
    → find
        (λ (e : String × CircuitBreaker). str_eq e.0 (provider_name_for_method method))
        build_provider_breakers
      ≡ some (provider_name_for_method method, new_breaker)
unfolding build_provider_breakers provider_name_for_method find
breaker_of_every_method pix = refl
breaker_of_every_method boleto = refl
breaker_of_every_method ted = refl
breaker_of_every_method card = refl

pub record AddressSettings : Type 0 where
  pub app_env : String
  pub provider_mock_base_url : Option String
  pub provider_mock_host : String
  pub local_provider_scheme : String
  pub secure_provider_scheme : String

-- `resolved_provider_mock_base_url`
unfoldable pub resolved_provider_mock_base_url : AddressSettings → String
resolved_provider_mock_base_url settings =
    let scheme =
      if str_eq settings.app_env "local"
      then settings.local_provider_scheme
      else settings.secure_provider_scheme in
    let default = scheme <> ("://" <> settings.provider_mock_host) in
    elim settings.provider_mock_base_url [
      | none ↦ default
      | some url ↦ if str_eq url "" then default else url
    ]
