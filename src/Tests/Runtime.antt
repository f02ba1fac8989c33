-- ===== src/Tests/Runtime.antt =====
-- The breaker, the retries and the backoff, run.
use global_payments_observab.Base.{
  ℕ, zero, suc, ◌+◌, ◌<◌, ◌≤◌, ◌≡◌, refl, arith, Bool, true, [], ◌∷◌, ◌↔◌, is_some,
}
use global_payments_observab.Base.Exec.{ok, err, Exec}
use global_payments_observab.Resilience.Breaker.{
  closed, half_open, CircuitBreakerConfig, new_breaker, allow_call, on_failure, circuit_is_open,
}
use global_payments_observab.Resilience.Breaker.Laws.{
  Reaches, starts, steps, fails, fail_at, reached_breaker_recovers, trips_at_threshold,
}
use global_payments_observab.Resilience.Bulkhead.{
  System, Reached, enters, enter, set_permits, new_bulkhead, free_permits,
}
use global_payments_observab.Resilience.Bulkhead.Laws.{holders, bulkhead_bounds}
use global_payments_observab.Resilience.Retry.{
  retry_async, Counts, IsBounded, retry_async-IsBounded,
}

abbrev config : CircuitBreakerConfig
config = record { failure_threshold = 3; recovery_timeout_seconds = 10 }

reached : Reaches config 5 (on_failure config 5 new_breaker)
reached = steps 1 5 new_breaker (on_failure config 5 new_breaker) (starts 1) (omega arith) fails

reached_breaker_recovers_example :
    (allow_call config 15 (on_failure config 5 new_breaker)).0 ≡ ok tt
reached_breaker_recovers_example =
    reached_breaker_recovers config 5 15 (on_failure config 5 new_breaker) (omega arith) reached
      (omega arith)

trips_at_threshold_example :
    ((fail_at config (1 ∷ 2 ∷ []) new_breaker).state ≡ closed)
    × ((later : ℕ)
        → later < 3 + 10
        → (allow_call config later
            (on_failure config 3 (fail_at config (1 ∷ 2 ∷ []) new_breaker))).0
          ≡ err circuit_is_open)
    × ((later : ℕ)
        → 3 + 10 ≤ later
        → let (r, b') =
            allow_call config later
              (on_failure config 3 (fail_at config (1 ∷ 2 ∷ []) new_breaker)) in
          (r ≡ ok tt) × (b'.state ≡ half_open))
unfolding new_breaker
trips_at_threshold_example = trips_at_threshold config (1 ∷ 2 ∷ []) 3 new_breaker refl refl refl

-- An operation that counts its runs and fails until the third.
abbrev third_time : Exec ℕ ℕ ℕ
third_time zero = (err 0, 1)
third_time (suc zero) = (err 1, 2)
third_time (suc (suc n)) = (ok n, suc (suc (suc n)))

abbrev no_sleep : ℕ → ℕ → ℕ
no_sleep attempt n = n

abbrev always : ℕ → Bool
always e = true

counts : Counts no_sleep always 9 third_time 3
counts = record { calls = λ n. n; each = counted; sleeps = λ n s. refl }
  where
    counted : (n : ℕ) → (third_time n).1 ≡ suc n
    counted zero = refl
    counted (suc zero) = refl
    counted (suc (suc n)) = refl

retry_async-IsBounded_example :
    IsBounded no_sleep always 9 third_time 3 3
      (counts.calls 0)
      counts
      (retry_async no_sleep always 9 third_time 3 0)
retry_async-IsBounded_example =
    retry_async-IsBounded no_sleep always 9 third_time 3 counts 0 (omega arith)

-- One of two permits taken.
abbrev one_inside : System
one_inside = record {
  bulkhead = set_permits "pix-provider" 1 (new_bulkhead 2);
  inside = "pix-provider" ∷ [];
}

one-Reached : Reached 2 one_inside
unfolding enter free_permits new_bulkhead
one-Reached =
    Reached.steps (record { bulkhead = new_bulkhead 2; inside = [] }) one_inside Reached.starts
      (enters (record { bulkhead = new_bulkhead 2; inside = [] }) "pix-provider"
        (set_permits "pix-provider" 1 (new_bulkhead 2)) refl)

bulkhead_bounds_example :
    (holders "pix-provider" one_inside.inside ≤ 2)
    × ((is_some (enter "pix-provider" one_inside.bulkhead) ≡ true)
        ↔ (holders "pix-provider" one_inside.inside < 2))
bulkhead_bounds_example = bulkhead_bounds 2 one_inside "pix-provider" one-Reached
