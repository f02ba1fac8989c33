-- ===== src/Api/World.antt =====
-- The state that a request of payments-api reads and writes: the cache, the tables, the rows that its
-- session has added, the supply of new UUIDs and the counters that it has moved.
use global_payments_observab.Base.{
  ℕ, ◌≡◌, refl, ◌⊎◌, inl, inr, Option, none, some, List, [], ◌∷◌, ◌++◌,
}
use global_payments_observab.Base.Exec.{Outcome, ok, err, Exec}
use global_payments_observab.Contracts.Enums.{
  PaymentMethod, RateLimitDimension, RiskDecision, AmlDecision,
}
use global_payments_observab.Db.{Db, Row}
use global_payments_observab.Api.Errors.{Exception, redis_error}
use global_payments_observab.Api.Cache.{Redis}

-- core/metrics.py: a counter that was increased, or a snapshot that was recorded. Durations are
-- left out.
pub data Metric : Type 0 where
  kyc_denied_total : PaymentMethod → Metric
  limits_exceeded_total : PaymentMethod → Metric
  rate_limited_total : RateLimitDimension → Metric
  risk_decisions_total : RiskDecision → Metric
  aml_decisions_total : AmlDecision → Metric
  review_queue_size : ℕ → Metric
  idempotency_replay_total : Metric

pub record World (R : Redis) : Type 0 where
  pub redis : R.State
  pub db : Db
  pub added : List Row
  pub next_uuid : ℕ
  pub metrics : List Metric

abbrev pub Action : Redis → Type 0 → Type 0
Action R A = Exec (World R) Exception A

abbrev reply : {A : Type 0} → Option A → Outcome Exception A
reply none = err redis_error
reply (some a) = ok a

module _ {R : Redis} {A : Type 0} where
  -- `await self._redis.…`
  abbrev pub call : (R.State → Option A × R.State) → Action R A
  call command w = let (r, s) = command w.redis in (reply r, record w { redis = s })

  abbrev pub except : Outcome Exception A → (Exception → Action R A) → Action R A
  except (ok a) handler w = (ok a, w)
  except (err e) handler w = handler e w

  -- `try: … except: …`, where the handler raises again what it does not catch
  abbrev pub try_except : Action R A → (Exception → Action R A) → Action R A
  try_except m handler w = let (r, w') = m w in except r handler w'

  pub try_except_inverts :
      (m : Action R A) (handler : Exception → Action R A) (w : World R) (a : A)
      → (try_except m handler w).0 ≡ ok a
      → ((m w).0 ≡ ok a) ⊎ ((e : Exception) × ((m w).0 ≡ err e) × ((handler e (m w).1).0 ≡ ok a))
  try_except_inverts m handler w a h = from_result (m w).0 (m w).1 h
    where
      from_result :
          (r : Outcome Exception A) (w' : World R)
          → (except r handler w').0 ≡ ok a
          → (r ≡ ok a) ⊎ ((e : Exception) × (r ≡ err e) × ((handler e w').0 ≡ ok a))
      from_result (ok b) w' h = inl h
      from_result (err e) w' h = inr (e, refl, h)

module _ {R : Redis} where
  abbrev pub emit : Metric → World R → World R
  emit m w = record w { metrics = w.metrics ++ m ∷ [] }
