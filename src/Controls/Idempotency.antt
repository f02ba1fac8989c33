-- ===== src/Controls/Idempotency.antt =====
-- payments_api/services/idempotency_service.py: the `SET NX` lock of a scope.
use text.Mathlib.TextLemmas.{append_assoc}
use global_payments_observab.Base.{ap, sym, refl, false, eq_refl, ◌∙◌, ◌<>◌}
use global_payments_observab.Base.{
  ℕ, String, ◌≡◌, Bool, true, not, some, arith, str_eq, if◌then◌else◌,
}
use global_payments_observab.Base.Exec.{ok, pure, raise}
use global_payments_observab.Rails.{idempotency_scoped_key}
use global_payments_observab.Api.Errors.{Exception, redis_error}
use global_payments_observab.Api.Cache.{Redis}
use global_payments_observab.Api.World.{World, Action, call, try_except}

module _ {R : Redis} where
  abbrev acquired_on_redis_error : Exception → Action R Bool
  acquired_on_redis_error redis_error = pure true
  acquired_on_redis_error e = raise e

  -- `IdempotencyService.acquire`, with its `ttl_seconds`
  unfoldable pub acquire : ℕ → String → String → Action R Bool
  acquire ttl merchant_id idempotency_key =
      try_except (call (R.set_nx (idempotency_scoped_key merchant_id idempotency_key) "1" ttl))
        acquired_on_redis_error

-- `SET NX` sets a key that is not there and says whether it did; it touches no other key.
pub record SetsOnce (R : Redis) : Type 0 where
  pub holds : R.State → String → Bool
  pub set_nx_reply :
      (k v : String) (ttl : ℕ) (s : R.State) → (R.set_nx k v ttl s).0 ≡ some (not (holds s k))
  pub set_nx_holds :
      (k v : String) (ttl : ℕ) (s : R.State) (j : String)
      → holds (R.set_nx k v ttl s).1 j ≡ (if str_eq k j then true else holds s j)

module _ {R : Redis} (S : SetsOnce R) (ttl : ℕ) (m k : String) (w : World R) where
  acquire_reply : (acquire ttl m k w).0 ≡ ok (not (S.holds w.redis (idempotency_scoped_key m k)))
  unfolding acquire
  acquire_reply = ground (arith, S.set_nx_reply (idempotency_scoped_key m k) "1" ttl w.redis)

  acquire_holds :
      (j : String)
      → S.holds (acquire ttl m k w).1.redis j
        ≡ (if str_eq (idempotency_scoped_key m k) j then true else S.holds w.redis j)
  unfolding acquire
  acquire_holds j = ground (
    arith,
    S.set_nx_reply (idempotency_scoped_key m k) "1" ttl w.redis,
    S.set_nx_holds (idempotency_scoped_key m k) "1" ttl w.redis j,
  )

same_key :
    (merchant between key : String)
    → idempotency_scoped_key (merchant <> (":" <> between)) key
      ≡ idempotency_scoped_key merchant (between <> (":" <> key))
unfolding idempotency_scoped_key
same_key merchant between key =
    append_assoc merchant (":" <> between) (":" <> key)
    ∙ ap (λ s. merchant <> s) (append_assoc ":" between (":" <> key))

-- Let Redis keep the promises of `SET NX`. Where the merchant `merchant:between` is granted the lock of
-- its key `key`, the merchant `merchant` would have been granted that of its own key `between:key`, and
-- is refused it afterwards: the two scopes share one lock.
pub colliding_scopes_lock_out :
    {R : Redis} (S : SetsOnce R) (ttl ttl' : ℕ) (merchant between key : String) (w : World R)
    → (acquire ttl (merchant <> (":" <> between)) key w).0 ≡ ok true
    → ((acquire ttl' merchant (between <> (":" <> key)) w).0 ≡ ok true)
      × ((acquire ttl' merchant
            (between <> (":" <> key))
            (acquire ttl (merchant <> (":" <> between)) key w).1).0
          ≡ ok false)
colliding_scopes_lock_out S ttl ttl' merchant between key w granted =
    let first = idempotency_scoped_key (merchant <> (":" <> between)) key in
    let second = idempotency_scoped_key merchant (between <> (":" <> key)) in
    let same : first ≡ second = same_key merchant between key in
    let w' = (acquire ttl (merchant <> (":" <> between)) key w).1 in
    let held : S.holds w'.redis second ≡ true =
      acquire_holds S ttl (merchant <> (":" <> between)) key w second
      ∙ rw same (rw (eq_refl second) refl) in
    (
      acquire_reply S ttl' merchant (between <> (":" <> key)) w
          ∙ rw (← same) (sym (acquire_reply S ttl (merchant <> (":" <> between)) key w) ∙ granted),
      acquire_reply S ttl' merchant (between <> (":" <> key)) w' ∙ rw held refl,
    )
