-- ===== src/Controls/RateLimiter.antt =====
-- payments_api/services/rate_limiter_service.py: fixed windows, counted in the cache.
pub mod Laws
use global_payments_observab.Base.{
  ℕ, ◌/◌, ◌*◌, String, Bool, true, false, List, [], ◌∷◌, leb, ◌==◌, if◌then◌else◌,
}
use global_payments_observab.Base.Exec.{Outcome, ok, err, pure, raise, ◌>>=◌, ◌>>◌}
use global_payments_observab.Contracts.Enums.{RateLimitDimension, merchant, customer, account}
use global_payments_observab.Rails.{rate_limit_key}
use global_payments_observab.Api.Errors.{Exception, app, redis_error, rate_limited}
use global_payments_observab.Api.Cache.{Redis, Format}
use global_payments_observab.Api.World.{World, Action, call, try_except}

pub record RateLimits : Type 0 where
  pub merchant_limit : ℕ
  pub customer_limit : ℕ
  pub account_limit : ℕ
  pub window_seconds : ℕ

-- a dimension, the value that it limits and its limit
abbrev pub Check : Type 0
Check = RateLimitDimension × String × ℕ

module _ {R : Redis} where
  -- `except RedisError: return True`
  abbrev allow_on_redis_error : Exception → Action R Bool
  allow_on_redis_error redis_error = pure true
  allow_on_redis_error e = raise e

  -- `if current == 1: await self._redis.expire(…)`
  abbrev expire_first : ℕ → String → ℕ → Action R (Unit {0})
  expire_first current key ttl =
      let expire = call (R.expire key ttl) in if current == 1 then expire else pure tt

  -- `_allow`, on the key that it builds
  unfoldable pub allow : String → ℕ → ℕ → Action R Bool
  allow key ttl limit =
      try_except
        (do current ← call (R.incr key); expire_first current key ttl; pure (leb current limit))
        allow_on_redis_error

  abbrev reject_unless : Bool → RateLimitDimension → Action R (Unit {0})
  reject_unless true d = pure tt
  reject_unless false d = raise (app (rate_limited d))

  -- the loop of `enforce`
  unfoldable pub run_checks : (Check → String) → ℕ → List Check → Action R (Unit {0})
  run_checks key ttl [] = pure tt
  run_checks key ttl (c ∷ cs) = do
    allowed ← allow (key c) ttl c.2
    reject_unless allowed c.0
    run_checks key ttl cs

-- `int(time.time() / self._window_seconds)`, of a time in microseconds
unfoldable pub now_bucket : RateLimits → ℕ → ℕ
now_bucket l now = now / (l.window_seconds * 1_000_000)

unfoldable pub checks : RateLimits → String → String → String → List Check
checks l m c a =
    (merchant, m, l.merchant_limit)
    ∷ (customer, c, l.customer_limit)
    ∷ (account, a, l.account_limit)
    ∷ []

unfoldable pub check_key : Format → RateLimits → ℕ → Check → String
unfolding now_bucket
check_key F l now c = rate_limit_key c.0 c.1 (F.show_int (now_bucket l now))

-- `RateLimiterService.enforce`
unfoldable pub enforce_rate_limit :
    {R : Redis} → Format → RateLimits → ℕ → String → String → String → Action R (Unit {0})
enforce_rate_limit F l now m c a = run_checks (check_key F l now) l.window_seconds (checks l m c a)
