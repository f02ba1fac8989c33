-- ===== src/Mock.antt =====
-- services/provider-mock: api/routes_provider.py and simulation/engine.py. A rate and a draw of
-- `random()` are numbers of one common unit; the client is the processor's, with its read timeout.
pub mod Laws
use global_payments_observab.Base.{
  ℕ, suc, ◌+◌, String, ◌<>◌, str_eq, Bool, not, Option, none, some, ltb, if◌then◌else◌,
}
use global_payments_observab.Base.Exec.{Outcome, ok, err, Exec, pure, raise, modify, ◌>>=◌, ◌>>◌}
use global_payments_observab.Contracts.Enums.{PaymentMethod, pix, boleto, ted, card}
use global_payments_observab.Contracts.Records.{ProviderRequest, ProviderResponse}
use global_payments_observab.Rails.{provider_slug_for_method}
use global_payments_observab.Processor.World.{Http, Reply, timed_out, answered}

-- `random.Random(text)`: its draws, one after the other; and the texts of a seed and of a UUID.
pub record Library : Type 0 where
  pub random : String → ℕ → ℕ
  pub decimal : ℕ → String
  pub uuid_text : ℕ → String

pub record FaultConfig : Type 0 where
  pub seed : ℕ
  pub base_latency_ms : ℕ
  pub latency_spike_ms : ℕ
  pub timeout_ms : ℕ
  pub fault_5xx_rate : ℕ
  pub timeout_rate : ℕ
  pub latency_spike_rate : ℕ
  pub duplicate_rate : ℕ
  pub partial_failure_rate : ℕ

pub data SimulatedError : Type 0 where
  timeout_error runtime_error : SimulatedError

-- the draws made and the time slept
pub record Progress : Type 0 where
  pub drawn : ℕ
  pub slept_ms : ℕ

abbrev pub Simulated : Type 0 → Type 0
Simulated A = Exec Progress SimulatedError A

abbrev pub sleep : ℕ → Simulated (Unit {0})
sleep ms = modify (λ s. record s { slept_ms = s.slept_ms + ms })

module _ (L : Library) (config : FaultConfig) where
  -- `rng.random() < rate`
  abbrev pub chance : String → ℕ → Simulated Bool
  chance rng rate s = (ok (ltb (L.random rng s.drawn) rate), record s { drawn = suc s.drawn })

  -- `_rng`
  abbrev pub rng_of : String → ℕ → String
  rng_of method payment_id =
      L.decimal config.seed <> (":" <> (method <> (":" <> L.uuid_text payment_id)))

  -- `_latency_seconds`, in milliseconds
  abbrev pub latency : String → Simulated ℕ
  latency rng = chance rng config.latency_spike_rate >>= λ spike.
      pure
        (if spike then config.base_latency_ms + config.latency_spike_ms else config.base_latency_ms)

  abbrev pub respond : String → ProviderRequest → Bool → Bool → ProviderResponse
  respond method payload duplicate partial_failure = record {
    provider_reference = method <> ("-" <> L.uuid_text payload.payment_id);
    confirmed = not partial_failure;
    provider = method <> "-provider";
    duplicate = duplicate;
    partial_failure = partial_failure;
  }

  -- `simulate`
  unfoldable pub simulate : String → ProviderRequest → Simulated ProviderResponse
  simulate method payload =
      let rng = rng_of method payload.payment_id in
      latency rng >>= sleep >> chance rng config.timeout_rate >>= λ times_out.
      if times_out
      then sleep config.timeout_ms >> raise timeout_error
      else chance rng config.fault_5xx_rate >>= λ fails.
          if fails
          then raise runtime_error
          else chance rng config.duplicate_rate >>= λ duplicate.
              chance rng config.partial_failure_rate >>= λ partial_failure.
              pure (respond method payload duplicate partial_failure)

  -- `_simulate_provider`: the status and the body of the answer
  abbrev pub answer : Outcome SimulatedError ProviderResponse → Reply
  answer (ok response) = answered 200 (some response)
  answer (err timeout_error) = answered 504 none
  answer (err runtime_error) = answered 503 none

  -- what a client that waits `read_timeout_ms` sees
  abbrev pub within : ℕ → Outcome SimulatedError ProviderResponse × Progress → Reply
  within read_timeout_ms (r, s) = if ltb read_timeout_ms s.slept_ms then timed_out else answer r

  abbrev pub start : Progress
  start = record { drawn = 0; slept_ms = 0 }

  -- `_confirm`
  unfoldable pub confirm : ℕ → PaymentMethod → ProviderRequest → Reply
  unfolding simulate
  confirm read_timeout_ms method payload =
      within read_timeout_ms (simulate (provider_slug_for_method method) payload start)

  -- The router's paths; another one is not found.
  unfoldable pub route : String → Option PaymentMethod
  route path =
      if str_eq path "/providers/pix/confirm"
      then some pix
      else if str_eq path "/providers/boleto/confirm"
      then some boleto
      else if str_eq path "/providers/ted/confirm"
      then some ted
      else if str_eq path "/providers/card/confirm"
      then some card
      else none

  abbrev pub routed : ℕ → Option PaymentMethod → ProviderRequest → Reply
  routed read_timeout_ms none payload = answered 404 none
  routed read_timeout_ms (some method) payload = confirm read_timeout_ms method payload

  -- The mock as the processor's client reaches it; the state counts the requests.
  abbrev pub mock_http : ℕ → Http
  mock_http read_timeout_ms = record {
    State = ℕ;
    post = λ path payload n. (routed read_timeout_ms (route path) payload, suc n);
    decimal = L.decimal;
  }
