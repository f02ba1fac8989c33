-- ===== src/Resilience/Breaker/Laws.antt =====
-- The breaker as a state machine: what holds in every state that it reaches, when it trips, and when
-- it lets calls through again.
use global_payments_observab.Base.{
  ℕ, suc, ◌+◌, ◌≤◌, ◌<◌, ◌≡◌, ◌≢◌, ◌⊎◌, inl, inr, refl, none, some, List, [], ◌∷◌, length, arith,
}
use global_payments_observab.Base.Exec.{ok, err}
use global_payments_observab.Resilience.Breaker.{
  closed, opened, half_open, CircuitBreakerConfig, CircuitBreaker, circuit_is_open, new_breaker,
  can_half_open, read_state, allow_call, trip_open, on_failure, on_success,
}

module _ (config : CircuitBreakerConfig) where
  -- One operation at a reading of the clock.
  pub data Step (now : ℕ) (b : CircuitBreaker) : CircuitBreaker → Type 0 where
    reads : Step now b (read_state config now b).1
    allows : Step now b (allow_call config now b).1
    succeeds : Step now b (on_success b)
    fails : Step now b (on_failure config now b)

  -- The breakers that a run of operations, at readings that never go back, makes of a new one.
  pub data Reaches : ℕ → CircuitBreaker → Type 0 where
    starts : (now : ℕ) → Reaches now new_breaker
    steps :
        (before now : ℕ) (b b' : CircuitBreaker)
        → Reaches before b
        → before ≤ now
        → Step now b b'
        → Reaches now b'

  -- When a breaker is not closed, it remembers when it tripped; when it is closed, it has counted
  -- fewer failures than trip it, and it has forgotten the last trip.
  abbrev pub IsSound : ℕ → CircuitBreaker → Type 0
  IsSound now b =
      ((b.state ≡ closed) × (b.failures < config.failure_threshold) × (b.opened_at ≡ none))
      ⊎ ((b.state ≢ closed) × ((t : ℕ) × (b.opened_at ≡ some t) × (t ≤ now)))

  step-IsSound :
      (before now : ℕ) (b b' : CircuitBreaker)
      → 1 ≤ config.failure_threshold
      → before ≤ now
      → IsSound before b
      → Step now b b'
      → IsSound now b'
  unfolding read_state allow_call on_success on_failure trip_open can_half_open
  step-IsSound before now b b' le later (inl (c, few, o)) reads = ground arith
  step-IsSound before now b b' le later (inl (c, few, o)) allows = ground arith
  step-IsSound before now b b' le later (inl (c, few, o)) succeeds = ground arith
  step-IsSound before now b b' le later (inl (c, few, o)) fails = ground arith
  step-IsSound before now b b' le later (inr (c, (t, o, past))) reads = ground arith
  step-IsSound before now b b' le later (inr (c, (t, o, past))) allows = ground arith
  step-IsSound before now b b' le later (inr (c, (t, o, past))) succeeds = ground arith
  step-IsSound before now b b' le later (inr (c, (t, o, past))) fails = ground arith

  -- Every breaker that is reached is sound: with a threshold of at least one, a breaker that is not
  -- closed knows when it tripped, at a reading that has passed, and a closed one has counted fewer
  -- failures than the threshold.
  pub Reaches-IsSound :
      (now : ℕ) (b : CircuitBreaker) → 1 ≤ config.failure_threshold → Reaches now b → IsSound now b
  unfolding new_breaker
  Reaches-IsSound now b le (starts _) = inl (refl, omega arith, refl)
  Reaches-IsSound now b le (steps before _ b₀ _ r later step) =
      step-IsSound before now b₀ b le later (Reaches-IsSound before b₀ le r) step

  -- A breaker that is reached is never stuck open: from the recovery timeout after the reading at hand,
  -- it lets a call through.
  pub reached_breaker_recovers :
      (now later : ℕ) (b : CircuitBreaker)
      → 1 ≤ config.failure_threshold
      → Reaches now b
      → now + config.recovery_timeout_seconds ≤ later
      → (allow_call config later b).0 ≡ ok tt
  unfolding allow_call can_half_open
  reached_breaker_recovers now later b le r waited = elim (Reaches-IsSound now b le r) [
    | inl (c, _, _) ↦ ground arith
    | inr (_, (t, o, past)) ↦ ground arith
  ]

  -- The failures at the readings of a list, the first one first.
  abbrev pub fail_at : List ℕ → CircuitBreaker → CircuitBreaker
  fail_at [] b = b
  fail_at (now ∷ rest) b = fail_at rest (on_failure config now b)

  fail_closed :
      (readings : List ℕ) (b : CircuitBreaker)
      → b.state ≡ closed
      → b.failures + length readings < config.failure_threshold
      → ((fail_at readings b).state ≡ closed)
        × ((fail_at readings b).failures ≡ b.failures + length readings)
  unfolding on_failure trip_open
  fail_closed [] b c few = (c, ground arith)
  fail_closed (now ∷ rest) b c few =
      let next : (on_failure config now b).state ≡ closed = ground arith in
      let counted : (on_failure config now b).failures ≡ suc b.failures = ground arith in
      let (still, sum) = fail_closed rest (on_failure config now b) next (ground arith) in
      (still, ground arith)

  fail_trips :
      (b : CircuitBreaker) (now : ℕ)
      → b.state ≡ closed
      → config.failure_threshold ≤ suc b.failures
      → on_failure config now b
        ≡ record { state = opened; failures = suc b.failures; opened_at = some now }
  unfolding on_failure trip_open
  fail_trips b now c le = ground arith

  -- From a closed breaker without failures, fewer failures in a row than the threshold leave it closed,
  -- and the failure that makes them as many as the threshold opens it: it then refuses every call
  -- until the recovery timeout has passed since that failure, and lets the first one after it through as
  -- half open.
  pub trips_at_threshold :
      (readings : List ℕ) (now : ℕ) (b : CircuitBreaker)
      → b.state ≡ closed
      → b.failures ≡ 0
      → suc (length readings) ≡ config.failure_threshold
      → ((fail_at readings b).state ≡ closed)
        × ((later : ℕ)
            → later < now + config.recovery_timeout_seconds
            → (allow_call config later (on_failure config now (fail_at readings b))).0
              ≡ err circuit_is_open)
        × ((later : ℕ)
            → now + config.recovery_timeout_seconds ≤ later
            → let (r, b') = allow_call config later (on_failure config now (fail_at readings b)) in
              (r ≡ ok tt) × (b'.state ≡ half_open))
  unfolding allow_call can_half_open
  trips_at_threshold readings now b c f n =
      let (still, counted) = fail_closed readings b c (omega arith) in
      let trips = fail_trips (fail_at readings b) now still (omega arith) in
      (still, λ later early. rw trips (ground arith), λ later late. rw trips (ground arith))
