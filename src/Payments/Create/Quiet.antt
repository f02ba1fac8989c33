-- ===== src/Payments/Create/Quiet.antt =====
-- The controls of a request and the store: which actions touch the tables.
use global_payments_observab.Base.{ℕ, String, Option, none, some, true, false, List, [], ◌∷◌, arith}
use global_payments_observab.Contracts.Enums.{PaymentMethod}
use global_payments_observab.Contracts.Records.{LimitsPolicy}
use global_payments_observab.Api.Errors.{
  Exception, app, rate_limited, value_error, redis_error, integrity_error, database_error,
}
use global_payments_observab.Api.Cache.{Redis, Format}
use global_payments_observab.Api.World.{Action}
use global_payments_observab.Api.Quiet.{
  IsQuiet, IsQuiet-pure, IsQuiet-raise, IsQuiet-bind, quiet_rules,
}
use global_payments_observab.Controls.Limits.{
  LimitsSettings, LimitsClock, cached_policy, stored_policy, get_policy, enforce_transaction_amount,
  redis_get_int, daily_in_cache, daily_in_database, enforce_daily_limit, velocity_in_cache,
  velocity_in_database, enforce_velocity_limit, enforce_limits, on_redis_error,
  on_redis_or_value_error, or_stored,
}
use global_payments_observab.Controls.RateLimiter.{Check, allow, run_checks}
use global_payments_observab.Controls.Idempotency.{acquire}
use global_payments_observab.Controls.Aml.{AmlSettings, read_history_entries, record_outgoing}

module _ {R : Redis} {A : Type 0} where
  on_redis_error-IsQuiet :
      (k : Action R A) → IsQuiet k → (e : Exception) → IsQuiet (on_redis_error k e)
  on_redis_error-IsQuiet k q redis_error = q
  on_redis_error-IsQuiet k q (app e) = IsQuiet-raise _
  on_redis_error-IsQuiet k q (value_error m) = IsQuiet-raise _
  on_redis_error-IsQuiet k q integrity_error = IsQuiet-raise _
  on_redis_error-IsQuiet k q database_error = IsQuiet-raise _

  on_redis_or_value_error-IsQuiet :
      (k : Action R A) → IsQuiet k → (e : Exception) → IsQuiet (on_redis_or_value_error k e)
  on_redis_or_value_error-IsQuiet k q redis_error = q
  on_redis_or_value_error-IsQuiet k q (app e) = IsQuiet-raise _
  on_redis_or_value_error-IsQuiet k q (value_error m) = q
  on_redis_or_value_error-IsQuiet k q integrity_error = IsQuiet-raise _
  on_redis_or_value_error-IsQuiet k q database_error = IsQuiet-raise _

module _ {R : Redis} (F : Format) (S : LimitsSettings) (t : LimitsClock) where
  cached_policy-IsQuiet : (rail : PaymentMethod) → IsQuiet {R = R} (cached_policy F S rail)
  unfolding cached_policy
  cached_policy-IsQuiet rail = search (quiet_rules, on_redis_error-IsQuiet)

  stored_policy-IsQuiet : (rail : PaymentMethod) → IsQuiet {R = R} (stored_policy F S rail)
  unfolding stored_policy
  stored_policy-IsQuiet rail = search (quiet_rules, on_redis_error-IsQuiet) depth 12

  or_stored-IsQuiet :
      (rail : PaymentMethod) (o : Option LimitsPolicy) → IsQuiet {R = R} (or_stored F S rail o)
  or_stored-IsQuiet rail none = stored_policy-IsQuiet rail
  or_stored-IsQuiet rail (some p) = IsQuiet-pure p

  get_policy-IsQuiet : (rail : PaymentMethod) → IsQuiet {R = R} (get_policy F S rail)
  unfolding get_policy
  get_policy-IsQuiet rail =
      IsQuiet-bind (cached_policy F S rail) (or_stored F S rail) (cached_policy-IsQuiet rail)
        (or_stored-IsQuiet rail)

  transaction_amount-IsQuiet :
      (policy : LimitsPolicy) (amount : ℕ)
      → IsQuiet {R = R} (enforce_transaction_amount F S policy amount)
  unfolding enforce_transaction_amount
  transaction_amount-IsQuiet policy amount = search quiet_rules

  redis_get_int-IsQuiet : (key : String) → IsQuiet {R = R} (redis_get_int F S key)
  unfolding redis_get_int
  redis_get_int-IsQuiet key = search quiet_rules

  module _ (customer : String) (rail : PaymentMethod) (policy : LimitsPolicy) where
    daily_in_database-IsQuiet :
        (amount : ℕ) → IsQuiet {R = R} (daily_in_database F S t customer rail amount policy)
    unfolding daily_in_database
    daily_in_database-IsQuiet amount = search quiet_rules

    daily_in_cache-IsQuiet :
        (amount : ℕ) → IsQuiet {R = R} (daily_in_cache F S t customer rail amount policy)
    unfolding daily_in_cache
    daily_in_cache-IsQuiet amount = search (quiet_rules, redis_get_int-IsQuiet)

    daily_limit-IsQuiet :
        (amount : ℕ) → IsQuiet {R = R} (enforce_daily_limit F S t customer rail amount policy)
    unfolding enforce_daily_limit
    daily_limit-IsQuiet amount = search (
      quiet_rules, on_redis_or_value_error-IsQuiet, daily_in_cache-IsQuiet,
      daily_in_database-IsQuiet,
    )

    velocity_in_cache-IsQuiet : IsQuiet {R = R} (velocity_in_cache F S t customer rail policy)
    unfolding velocity_in_cache
    velocity_in_cache-IsQuiet = search quiet_rules depth 12

    velocity_in_database-IsQuiet : IsQuiet {R = R} (velocity_in_database F S t customer rail policy)
    unfolding velocity_in_database
    velocity_in_database-IsQuiet = search quiet_rules

    velocity_limit-IsQuiet : IsQuiet {R = R} (enforce_velocity_limit F S t customer rail policy)
    unfolding enforce_velocity_limit
    velocity_limit-IsQuiet = search (
      quiet_rules, on_redis_error-IsQuiet, velocity_in_cache-IsQuiet, velocity_in_database-IsQuiet,
    )

  pub enforce_limits-IsQuiet :
      (customer : String) (rail : PaymentMethod) (amount : ℕ)
      → IsQuiet {R = R} (enforce_limits F S t customer rail amount)
  unfolding enforce_limits
  enforce_limits-IsQuiet customer rail amount =
      search
        (
          quiet_rules, get_policy-IsQuiet, transaction_amount-IsQuiet, daily_limit-IsQuiet,
          velocity_limit-IsQuiet,
        )
        depth 10

allow-IsQuiet : {R : Redis} (key : String) (ttl limit : ℕ) → IsQuiet {R = R} (allow key ttl limit)
unfolding allow
allow-IsQuiet key ttl limit = record { at = λ w. ground arith }

pub run_checks-IsQuiet :
    {R : Redis} (key : Check → String) (ttl : ℕ) (cs : List Check)
    → IsQuiet {R = R} (run_checks key ttl cs)
unfolding run_checks
run_checks-IsQuiet key ttl [] = IsQuiet-pure tt
run_checks-IsQuiet key ttl (c ∷ cs) =
    IsQuiet-bind (allow (key c) ttl c.2) _ (allow-IsQuiet (key c) ttl c.2) (elim [
      | true ↦ run_checks-IsQuiet key ttl cs
      | false ↦ IsQuiet-raise (app (rate_limited c.0))
    ])

pub acquire-IsQuiet : {R : Redis} (ttl : ℕ) (m k : String) → IsQuiet {R = R} (acquire ttl m k)
unfolding acquire
acquire-IsQuiet ttl m k = record { at = λ w. ground arith }

pub history-IsQuiet :
    {R : Redis} (F : Format) (S : AmlSettings) (key : String)
    → IsQuiet {R = R} (read_history_entries F S key)
unfolding read_history_entries
history-IsQuiet F S key = search (quiet_rules, on_redis_error-IsQuiet)

pub record_outgoing-IsQuiet :
    {R : Redis} (F : Format) (S : AmlSettings) (now : ℕ) (customer : String) (rail : PaymentMethod)
    (amount : ℕ)
    → IsQuiet {R = R} (record_outgoing F S now customer rail amount)
unfolding record_outgoing
record_outgoing-IsQuiet F S now customer rail amount = search (quiet_rules, on_redis_error-IsQuiet)
