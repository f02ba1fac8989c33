-- ===== src/Controls/RateLimiter/Laws.antt =====
-- How many requests of a window pass, over a cache that counts and over one that is down.
use global_payments_observab.Base.{
  ℕ, zero, suc, ◌+◌, ◌-◌, min, String, ◌≡◌, refl, ◌≢◌, true, false, none, some, List, [], ◌∷◌,
  arith, leb, if◌then◌else◌, inl, inr,
}
use global_payments_observab.Base.Exec.{ok, err, Outcome-cases}
use global_payments_observab.Contracts.Enums.{RateLimitDimension}
use global_payments_observab.Api.Errors.{Exception, app, rate_limited}
use global_payments_observab.Api.Cache.{Redis, Format}
use global_payments_observab.Api.World.{World}
use global_payments_observab.Controls.RateLimiter.{
  Check, RateLimits, allow, run_checks, enforce_rate_limit, checks, check_key,
}

-- `INCR` counts, and `EXPIRE` of a key that is still alive leaves its count.
pub record Counts (R : Redis) : Type 0 where
  pub counter : R.State → String → ℕ
  pub incr_reply : (k : String) (s : R.State) → (R.incr k s).0 ≡ some (counter s k + 1)
  pub incr_counts : (k : String) (s : R.State) → counter (R.incr k s).1 k ≡ counter s k + 1
  pub expire_reply : (k : String) (n : ℕ) (s : R.State) → (R.expire k n s).0 ≡ some tt
  pub expire_keeps : (k : String) (n : ℕ) (s : R.State) → counter (R.expire k n s).1 k ≡ counter s k

-- The requests that pass, of `n` that come one after another within a window.
pub passes : {R : Redis} → String → ℕ → ℕ → ℕ → World R → ℕ
passes key ttl limit zero w = 0
passes key ttl limit (suc n) w =
    let (r, w') = allow key ttl limit w in
    let rest = passes key ttl limit n w' in
    elim r [ ok b ↦ (if b then suc rest else rest) | err e ↦ rest ]

module _ {R : Redis} (C : Counts R) where
  allow_counts :
      (key : String) (ttl limit : ℕ) (w : World R)
      → ((allow key ttl limit w).0 ≡ ok (leb (C.counter w.redis key + 1) limit))
        × (C.counter (allow key ttl limit w).1.redis key ≡ C.counter w.redis key + 1)
  unfolding allow
  allow_counts key ttl limit w = ground (
    arith,
    C.incr_reply key w.redis,
    C.incr_counts key w.redis,
    C.expire_reply key ttl (R.incr key w.redis).1,
    C.expire_keeps key ttl (R.incr key w.redis).1,
  )

  -- Of `n` requests on one key in a window, exactly as many pass as the limit leaves room for.
  pub passes-eq-room :
      (key : String) (ttl limit n : ℕ) (w : World R)
      → passes key ttl limit n w ≡ min n (limit - C.counter w.redis key)
  unfolding passes
  passes-eq-room key ttl limit zero w = omega arith
  passes-eq-room key ttl limit (suc n) w = ground (
    arith,
    allow_counts key ttl limit w,
    passes-eq-room key ttl limit n (allow key ttl limit w).1,
  )

-- `_allow` answers, whatever the cache does.
allow_total :
    {R : Redis} (key : String) (ttl limit : ℕ) (w : World R) (e : Exception)
    → (allow key ttl limit w).0 ≢ err e
unfolding allow
allow_total key ttl limit w e h = ground arith

-- Whatever the cache does, the limiter's loop raises nothing but the `RateLimitedError` of one of its
-- dimensions, which is answered by a 429.
pub run_checks_raises :
    {R : Redis} (key : Check → String) (ttl : ℕ) (cs : List Check) (w : World R) (e : Exception)
    → (run_checks key ttl cs w).0 ≡ err e
    → (d : RateLimitDimension) × (e ≡ app (rate_limited d))
unfolding run_checks
run_checks_raises key ttl [] w e h = cc
run_checks_raises key ttl (c ∷ cs) w e h = elim (Outcome-cases (allow (key c) ttl c.2 w).0) [
  | inr (x, failed) ↦ absurd (allow_total (key c) ttl c.2 w x failed)
  | inl (true, passed) ↦ run_checks_raises key ttl cs (allow (key c) ttl c.2 w).1 e (ground arith)
  | inl (false, refused) ↦ (c.0, ground arith)
]

module _ {R : Redis} (down : (k : String) (s : R.State) → (R.incr k s).0 ≡ none) where
  allow_open : (key : String) (ttl limit : ℕ) (w : World R) → (allow key ttl limit w).0 ≡ ok true
  unfolding allow
  allow_open key ttl limit w = ground (arith, down key w.redis)

  run_checks_open :
      (key : Check → String) (ttl : ℕ) (cs : List Check) (w : World R)
      → (run_checks key ttl cs w).0 ≡ ok tt
  unfolding run_checks
  run_checks_open key ttl [] w = refl
  run_checks_open key ttl (c ∷ cs) w =
      ground (
        arith,
        allow_open (key c) ttl c.2 w,
        run_checks_open key ttl cs (allow (key c) ttl c.2 w).1,
      )

-- With a cache that is down every request passes, and the limiter raises nothing.
pub open_when_redis_is_down :
    {R : Redis} (F : Format) (l : RateLimits) (now : ℕ) (m c a : String) (w : World R)
    → ((k : String) (s : R.State) → (R.incr k s).0 ≡ none)
    → (enforce_rate_limit F l now m c a w).0 ≡ ok tt
unfolding enforce_rate_limit
open_when_redis_is_down F l now m c a w down =
    run_checks_open down (check_key F l now) l.window_seconds (checks l m c a) w
