-- ===== src/Resilience/Retry.antt =====
-- retry.py and backoff.py. The operation is one of a state, and the sleep after an attempt is a change
-- of that state.
use global_payments_observab.Base.{
  ℕ, zero, suc, ◌+◌, ◌-◌, ◌*◌, ◌≤◌, ◌≡◌, refl, ◌∙◌, Bool, true, false, not, ◌||◌, Option, none,
  some, Bool-cases, inl, inr, arith, ◌==◌, leb, if◌then◌else◌,
}
use global_payments_observab.Base.Exec.{Outcome-cases, Outcome, ok, err, Exec, raise}

-- `exponential_backoff`, with the default jitter of a quarter. Durations are counted in quarters of a
-- unit, so that the jitter is whole: the base and the cap are given in units. `uniform` draws from
-- `0 … 2 * spread`, for Python's `random.uniform(-spread, spread)`.
abbrev pub doubled : ℕ → ℕ
doubled zero = 1
doubled (suc n) = doubled n + doubled n

abbrev min : ℕ → ℕ → ℕ
min a b = if leb a b then a else b

unfoldable pub exponential_backoff : (uniform : ℕ → ℕ) (attempt base cap : ℕ) → ℕ
exponential_backoff uniform attempt base cap =
    let raw = 4 * min cap (base * doubled (attempt - 1)) in
    let spread = min cap (base * doubled (attempt - 1)) in raw + uniform spread - spread

doubled_positive : (n : ℕ) → 1 ≤ doubled n
doubled_positive zero = omega arith
doubled_positive (suc n) = omega (arith, doubled_positive n)

times_positive : (base d : ℕ) → 1 ≤ d → base ≤ base * d
times_positive base zero le = absurd (omega arith)
times_positive base (suc d) le = omega arith

min_between : (base a b : ℕ) → base ≤ a → base ≤ b → (base ≤ min a b) × (min a b ≤ a)
min_between base a b le le' = ground arith

-- The delay is never more than a quarter off the cap, and never less than three quarters of the base.
pub backoff_bounds :
    (uniform : ℕ → ℕ) (attempt base cap : ℕ)
    → ((spread : ℕ) → uniform spread ≤ 2 * spread)
    → base ≤ cap
    → (3 * base ≤ exponential_backoff uniform attempt base cap)
      × (exponential_backoff uniform attempt base cap ≤ 5 * cap)
unfolding exponential_backoff
backoff_bounds uniform attempt base cap draws le =
    let d = doubled (attempt - 1) in
    let spread = min cap (base * d) in
    let (low, high) =
      min_between base cap (base * d) le (times_positive base d (doubled_positive (attempt - 1))) in
    let drawn = draws spread in (omega arith, omega arith)

module _ {S E A : Type 0} (sleep : ℕ → S → S) (should_retry : E → Bool) (invalid_state : E)
    (operation : Exec S E A) (max_attempts : ℕ) where
  abbrev raise_last : Option E → Exec S E A
  raise_last (some e) = raise e
  raise_last none = raise invalid_state

  -- The loop `for attempt in range(1, max_attempts + 1)`, with the attempts that are left.
  unfoldable pub attempts_left : ℕ → Option E → Exec S E A
  attempts_left zero last_error s = raise_last last_error s
  attempts_left (suc n) last_error s =
      let (r, s') = operation s in
      let attempt = max_attempts - n in
      elim r [
        | ok a ↦ (ok a, s')
        | err e ↦ elim (not (should_retry e) || attempt == max_attempts) [
          | true ↦ (err e, s')
          | false ↦ attempts_left n (some e) (sleep attempt s')
        ]
      ]

  -- `retry_async`
  unfoldable pub retry_async : Exec S E A
  unfolding attempts_left
  retry_async = attempts_left max_attempts none

  -- A count of the operation's runs.
  pub record Counts : Type 0 where
    pub calls : S → ℕ
    pub each : (s : S) → calls (operation s).1 ≡ suc (calls s)
    pub sleeps : (n : ℕ) (s : S) → calls (sleep n s) ≡ calls s

  abbrev pub IsBounded : ℕ → ℕ → Counts → Outcome E A × S → Type 0
  IsBounded n start c (r, s) =
      (suc start ≤ c.calls s)
      × (c.calls s ≤ start + n)
      × ((e : E) → r ≡ err e → should_retry e ≡ true → c.calls s ≡ start + n)

  -- One attempt, from what the rest of the loop does after a failure that is retried.
  attempt-IsBounded :
      (c : Counts) (n : ℕ) (last_error : Option E) (s : S)
      → ((x : E)
          → (operation s).0 ≡ err x
          → should_retry x ≡ true
          → IsBounded (suc n) (c.calls s) c (elim (max_attempts - n == max_attempts) [
            | true ↦ (err x, (operation s).1)
            | false ↦ attempts_left n (some x) (sleep (max_attempts - n) (operation s).1)
          ]))
      → IsBounded (suc n) (c.calls s) c (attempts_left (suc n) last_error s)
  unfolding attempts_left
  attempt-IsBounded c n last_error s rest = elim (Outcome-cases (operation s).0) [
    | inl (a, e) ↦ rw (e, attempts_left) (rw (c.each s) (omega arith, omega arith, ground arith))
    | inr (x, e) ↦ elim (Bool-cases (should_retry x)) [
      | inr final ↦
          rw (e, attempts_left, final) (rw (c.each s) (omega arith, omega arith, ground arith))
      | inl again ↦ rw (e, attempts_left, again) (rest x e again)
    ]
  ]

  attempts-IsBounded :
      (c : Counts) (n : ℕ) (last_error : Option E) (s : S)
      → suc n ≤ max_attempts
      → IsBounded (suc n) (c.calls s) c (attempts_left (suc n) last_error s)
  attempts-IsBounded c zero last_error s le = attempt-IsBounded c zero last_error s λ x e again.
      let last : (max_attempts - 0 == max_attempts) ≡ true = ground arith in
      rw (last, c.each s) (omega arith, omega arith, λ _ _ _. omega arith)
  attempts-IsBounded c (suc n) last_error s le =
      attempt-IsBounded c (suc n) last_error s λ x e again.
        let more : (max_attempts - suc n == max_attempts) ≡ false = ground arith in
        let s' = sleep (max_attempts - suc n) (operation s).1 in
        let slept : c.calls s' ≡ suc (c.calls s) =
          c.sleeps (max_attempts - suc n) (operation s).1 ∙ c.each s in
        let (low, high, all) = attempts-IsBounded c n (some x) s' (omega arith) in
        rw more (omega arith, omega arith, λ y h h'. omega (arith, all y h h'))

  from_start :
      (c : Counts) (s : S) (n : ℕ)
      → n ≡ max_attempts
      → 1 ≤ n
      → IsBounded n (c.calls s) c (attempts_left n none s)
  from_start c s zero e le = absurd (omega arith)
  from_start c s (suc n) e le = attempts-IsBounded c n none s (omega arith)

  -- With at least one attempt, the operation is run at least once and at most `max_attempts` times, and
  -- an error that may be retried comes out only when every attempt was made.
  pub retry_async-IsBounded :
      (c : Counts) (s : S) → 1 ≤ max_attempts → IsBounded max_attempts (c.calls s) c (retry_async s)
  unfolding retry_async
  retry_async-IsBounded c s le = from_start c s max_attempts refl le

  attempts-keep :
      (P : S → Type 0) (n : ℕ) (last_error : Option E) (s : S)
      → ((s : S) → P s → P (operation s).1)
      → ((n : ℕ) (s : S) → P s → P (sleep n s))
      → P s
      → P (attempts_left n last_error s).1
  unfolding attempts_left
  attempts-keep P zero none s keeps sleeps p = p
  attempts-keep P zero (some e) s keeps sleeps p = p
  attempts-keep P (suc n) last_error s keeps sleeps p =
      let kept = keeps s p in
      let s' = sleep (max_attempts - n) (operation s).1 in
      let rest =
        λ (x : E). attempts-keep P n (some x) s' keeps sleeps (sleeps (max_attempts - n) _ kept) in
      elim (Outcome-cases (operation s).0) [
        | inl (a, e) ↦ rw (e, attempts_left) kept
        | inr (x, e) ↦
            elim (Bool-cases (not (should_retry x) || max_attempts - n == max_attempts)) [
              | inl final ↦ rw (e, attempts_left, final) kept
              | inr again ↦ rw (e, attempts_left, again) (rest x)
            ]
      ]

  -- What every run of the operation and every sleep keep, the loop keeps.
  pub retry_async-keeps :
      (P : S → Type 0) (s : S)
      → ((s : S) → P s → P (operation s).1)
      → ((n : ℕ) (s : S) → P s → P (sleep n s))
      → P s
      → P (retry_async s).1
  unfolding retry_async
  retry_async-keeps P s keeps sleeps p = attempts-keep P max_attempts none s keeps sleeps p
