-- ===== src/Controls/Limits.antt =====
-- payments_api/services/limits_service.py: the policy of a rail and its transaction, daily and
-- velocity limits, over the cache and over the database where the cache fails. Each reading of the
-- clock is an argument, in microseconds.
pub mod Money
pub mod Laws
use Money.{as_cents, seconds_until_day_end, utc_day_start}
use global_payments_observab.Base.{
  ℕ, ◌+◌, ◌-◌, ◌*◌, String, ◌<>◌, Bool, Option, none, some, ltb, leb, str_eq, if◌then◌else◌,
}
use global_payments_observab.Base.Exec.{
  Outcome, ok, err, pure, raise, gets, lift, raise_if, ◌>>=◌, ◌>>◌,
}
use global_payments_observab.Contracts.Enums.{PaymentMethod, method_value}
use global_payments_observab.Contracts.Records.{LimitsPolicy}
use global_payments_observab.Rails.{limits_policy_key, limits_daily_key, limits_velocity_key}
use global_payments_observab.Db.{get_by_rail, sum_outgoing_since, count_outgoing_since}
use global_payments_observab.Api.Errors.{
  AppError, Exception, app, value_error, redis_error, validation, limit_exceeded,
}
use global_payments_observab.Api.Cache.{Redis, Format}
use global_payments_observab.Api.World.{World, Action, call, try_except}

pub record LimitsEvaluation : Type 0 where
  pub policy : LimitsPolicy
  pub velocity_count : ℕ

-- The service's setting, and the units of money in a cent.
pub record LimitsSettings : Type 0 where
  pub cache_ttl_seconds : ℕ
  pub per_cent : ℕ

-- The times that one call of `enforce` reads.
pub record LimitsClock : Type 0 where
  pub date : ℕ
  pub ttl : ℕ
  pub day_start : ℕ
  pub velocity : ℕ

module _ {R : Redis} {A : Type 0} where
  -- `except RedisError: …`
  abbrev pub on_redis_error : Action R A → Exception → Action R A
  on_redis_error k redis_error = k
  on_redis_error k (app e) = raise (app e)
  on_redis_error k e = raise e

  -- `except LimitExceededError: raise`, `except (RedisError, ValueError): …`
  abbrev pub on_redis_or_value_error : Action R A → Exception → Action R A
  on_redis_or_value_error k redis_error = k
  on_redis_or_value_error k (value_error m) = k
  on_redis_or_value_error k (app e) = raise (app e)
  on_redis_or_value_error k e = raise e

-- `if cached: return LimitsPolicyDTO.model_validate_json(cached)`
abbrev decode_policy : Format → Option String → Option LimitsPolicy
decode_policy F none = none
decode_policy F (some text) = if str_eq text "" then none else F.load_policy text

abbrev policy_of_row : PaymentMethod → Option LimitsPolicy → Outcome Exception LimitsPolicy
policy_of_row rail none =
    err (app (validation ("Missing limits policy for rail " <> method_value rail)))
policy_of_row rail (some entity) = ok entity

unfoldable pub daily_limit_exceeded : PaymentMethod → Exception
daily_limit_exceeded rail =
    app (limit_exceeded ("Daily limit exceeded for rail " <> method_value rail))

unfoldable pub velocity_limit_exceeded : PaymentMethod → Exception
velocity_limit_exceeded rail =
    app (limit_exceeded ("Velocity limit exceeded for rail " <> method_value rail))

-- `int(raw_value or "0")`
abbrev read_int_or_zero : Format → Option String → Outcome Exception ℕ
read_int_or_zero F raw =
    elim (F.read_int (elim raw [ none ↦ "0" | some t ↦ (if str_eq t "" then "0" else t) ])) [
      | none ↦ err (value_error "invalid literal for int()")
      | some n ↦ ok n
    ]

-- `now - policy.velocity_window_seconds`
abbrev window_start : LimitsClock → LimitsPolicy → ℕ
window_start t policy = t.velocity - policy.velocity_window_seconds * 1_000_000

module _ {R : Redis} (F : Format) (S : LimitsSettings) where
  unfoldable pub cached_policy : PaymentMethod → Action R (Option LimitsPolicy)
  cached_policy rail =
      try_except (do cached ← call (R.get (limits_policy_key rail)); pure (decode_policy F cached))
        (on_redis_error (pure none))

  unfoldable pub stored_policy : PaymentMethod → Action R LimitsPolicy
  stored_policy rail = do
    entity ← gets (λ (w : World R). get_by_rail rail w.db)
    policy ← lift (policy_of_row rail entity)
    try_except (call (R.set_ex (limits_policy_key rail) (F.dump_policy policy) S.cache_ttl_seconds))
        (on_redis_error (pure tt))
    pure policy

  abbrev pub or_stored : PaymentMethod → Option LimitsPolicy → Action R LimitsPolicy
  or_stored rail none = stored_policy rail
  or_stored rail (some policy) = pure policy

  -- `_get_policy`
  unfoldable pub get_policy : PaymentMethod → Action R LimitsPolicy
  unfolding cached_policy stored_policy
  get_policy rail = do cached ← cached_policy rail; or_stored rail cached

  -- `_enforce_transaction_amount`
  unfoldable pub enforce_transaction_amount : LimitsPolicy → ℕ → Action R (Unit {0})
  enforce_transaction_amount policy amount = do
    raise_if (ltb amount policy.min_amount)
        (app (limit_exceeded ("Amount below min limit for " <> method_value policy.rail)))
    raise_if (ltb policy.max_amount amount)
        (app (limit_exceeded ("Amount above max limit for " <> method_value policy.rail)))

  -- `_redis_get_int`
  unfoldable pub redis_get_int : String → Action R ℕ
  redis_get_int key = do raw ← call (R.get key); lift (read_int_or_zero F raw)

  unfoldable pub daily_in_database :
      LimitsClock → String → PaymentMethod → ℕ → LimitsPolicy → Action R (Unit {0})
  unfolding daily_limit_exceeded
  daily_in_database t customer rail amount policy = do
    total ←
        gets (λ (w : World R). sum_outgoing_since customer rail (utc_day_start t.day_start) w.db)
    raise_if (ltb policy.daily_limit_amount (total + amount)) (daily_limit_exceeded rail)

  unfoldable pub daily_in_cache :
      LimitsClock → String → PaymentMethod → ℕ → LimitsPolicy → Action R (Unit {0})
  unfolding daily_limit_exceeded
  daily_in_cache t customer rail amount policy = do
    let key = limits_daily_key (F.show_date t.date) customer rail
    current ← redis_get_int key
    let projected = current + as_cents S.per_cent amount
    raise_if (ltb (as_cents S.per_cent policy.daily_limit_amount) projected)
        (daily_limit_exceeded rail)
    call (R.set_ex key (F.show_int projected) (seconds_until_day_end t.ttl))

  -- `_enforce_daily_limit`
  unfoldable pub enforce_daily_limit :
      LimitsClock → String → PaymentMethod → ℕ → LimitsPolicy → Action R (Unit {0})
  enforce_daily_limit t customer rail amount policy =
      try_except (daily_in_cache t customer rail amount policy)
        (on_redis_or_value_error (daily_in_database t customer rail amount policy))

  unfoldable pub velocity_in_cache :
      LimitsClock → String → PaymentMethod → LimitsPolicy → Action R ℕ
  unfolding velocity_limit_exceeded
  velocity_in_cache t customer rail policy = do
    let key = limits_velocity_key customer rail
    call (R.zremrangebyscore key 0 (window_start t policy))
    count ← call (R.zcard key)
    raise_if (leb policy.velocity_limit_count count) (velocity_limit_exceeded rail)
    call (R.zadd key (F.show_time t.velocity <> ("-" <> F.show_int count)) t.velocity)
    call (R.expire key policy.velocity_window_seconds)
    pure (count + 1)

  unfoldable pub velocity_in_database :
      LimitsClock → String → PaymentMethod → LimitsPolicy → Action R ℕ
  unfolding velocity_limit_exceeded
  velocity_in_database t customer rail policy = do
    count ← gets (λ (w : World R). count_outgoing_since customer rail (window_start t policy) w.db)
    raise_if (leb policy.velocity_limit_count count) (velocity_limit_exceeded rail)
    pure (count + 1)

  -- `_enforce_velocity_limit`
  unfoldable pub enforce_velocity_limit :
      LimitsClock → String → PaymentMethod → LimitsPolicy → Action R ℕ
  enforce_velocity_limit t customer rail policy =
      try_except (velocity_in_cache t customer rail policy)
        (on_redis_error (velocity_in_database t customer rail policy))

  -- `LimitsService.enforce`
  unfoldable pub enforce_limits :
      LimitsClock → String → PaymentMethod → ℕ → Action R LimitsEvaluation
  enforce_limits t customer rail amount = do
    policy ← get_policy rail
    enforce_transaction_amount policy amount
    enforce_daily_limit t customer rail amount policy
    velocity_count ← enforce_velocity_limit t customer rail policy
    pure (record { policy = policy; velocity_count = velocity_count })
