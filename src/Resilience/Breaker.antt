-- ===== src/Resilience/Breaker.antt =====
-- circuit_breaker.py. Each operation takes the reading of the clock, in seconds.
pub mod Laws
use global_payments_observab.Base.{
  ℕ, suc, ◌+◌, Bool, true, false, not, ◌&&◌, Option, none, some, leb, if◌then◌else◌,
}
use global_payments_observab.Base.Exec.{Outcome, ok, err}

pub data CircuitState : Type 0 where
  closed : CircuitState
  opened : CircuitState
  half_open : CircuitState

pub record CircuitBreakerConfig : Type 0 where
  pub failure_threshold : ℕ
  pub recovery_timeout_seconds : ℕ

pub record CircuitBreaker : Type 0 where
  pub state : CircuitState
  pub failures : ℕ
  pub opened_at : Option ℕ

-- `CircuitBreakerOpenError`
pub data CircuitOpen : Type 0 where
  circuit_is_open : CircuitOpen

abbrev pub is_open : CircuitState → Bool
is_open opened = true
is_open _ = false

abbrev pub is_half_open : CircuitState → Bool
is_half_open half_open = true
is_half_open _ = false

-- `CircuitBreaker.__init__`
unfoldable pub new_breaker : CircuitBreaker
new_breaker = record { state = closed; failures = 0; opened_at = none }

module _ (config : CircuitBreakerConfig) where
  -- `_can_half_open`
  unfoldable pub can_half_open : ℕ → CircuitBreaker → Bool
  can_half_open now b = elim b.opened_at [
    | none ↦ false
    | some t ↦ leb (t + config.recovery_timeout_seconds) now
  ]

  -- the property `state`, which moves an open breaker on when its time has come
  unfoldable pub read_state : ℕ → CircuitBreaker → CircuitState × CircuitBreaker
  read_state now b =
      let b' =
        if is_open b.state && can_half_open now b then record b { state = half_open } else b in
      (b'.state, b')

  -- `allow_call`
  unfoldable pub allow_call : ℕ → CircuitBreaker → Outcome CircuitOpen (Unit {0}) × CircuitBreaker
  allow_call now b =
      if is_open b.state && not (can_half_open now b)
      then (err circuit_is_open, b)
      else if is_open b.state
      then (ok tt, record b { state = half_open })
      else (ok tt, b)

  -- `_trip_open`
  unfoldable pub trip_open : ℕ → CircuitBreaker → CircuitBreaker
  trip_open now b = record b { state = opened; opened_at = some now }

  -- `on_failure`
  unfoldable pub on_failure : ℕ → CircuitBreaker → CircuitBreaker
  unfolding trip_open
  on_failure now b =
      let b' = record b { failures = suc b.failures } in
      if is_half_open b.state
      then trip_open now b
      else if leb config.failure_threshold b'.failures
      then trip_open now b'
      else b'

-- `on_success`
unfoldable pub on_success : CircuitBreaker → CircuitBreaker
on_success b = record { state = closed; failures = 0; opened_at = none }
