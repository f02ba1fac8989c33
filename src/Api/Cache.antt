-- ===== src/Api/Cache.antt =====
-- What payments-api is given and does not implement: the commands of the Redis client, and the text
-- forms of numbers, times, amounts and policies.
use global_payments_observab.Base.{ℕ, String, Bool, Option, List}
use global_payments_observab.Contracts.Records.{LimitsPolicy}

-- A command returns its reply and the state of the server. A reply of `none` is `RedisError`, after
-- which the command may have been carried out or not.
pub record Redis : Type 1 where
  pub State : Type 0
  pub get : String → State → Option (Option String) × State
  -- `set(key, value, ex=ttl)`
  pub set_ex : String → String → ℕ → State → Option (Unit {0}) × State
  -- `set(key, value, ex=ttl, nx=True)`
  pub set_nx : String → String → ℕ → State → Option Bool × State
  pub incr : String → State → Option ℕ × State
  pub expire : String → ℕ → State → Option (Unit {0}) × State
  pub lpush : String → String → State → Option (Unit {0}) × State
  pub ltrim : String → ℕ → ℕ → State → Option (Unit {0}) × State
  pub lrange : String → ℕ → ℕ → State → Option (List String) × State
  pub zremrangebyscore : String → ℕ → ℕ → State → Option (Unit {0}) × State
  pub zcard : String → State → Option ℕ × State
  pub zadd : String → String → ℕ → State → Option (Unit {0}) × State

-- `str` and `int` on integers, `str` and `Decimal` on amounts, `str.upper`, `strftime`, the text of
-- a float and pydantic's JSON of a policy. A reading of `none` is `ValueError`, `InvalidOperation`
-- or `ValidationError`.
pub record Format : Type 0 where
  pub show_int : ℕ → String
  pub read_int : String → Option ℕ
  pub show_amount : ℕ → String
  pub read_amount : String → Option ℕ
  pub show_time : ℕ → String
  pub show_date : ℕ → String
  pub upper : String → String
  pub dump_policy : LimitsPolicy → String
  pub load_policy : String → Option LimitsPolicy
