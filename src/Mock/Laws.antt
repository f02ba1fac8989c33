-- ===== src/Mock/Laws.antt =====
-- The processor's calls of the mock.
use global_payments_observab.Base.{
  ℕ, suc, ◌≡◌, ◌⊎◌, refl, sym, ap, ◌∙◌, inl, inr, Bool, true, false, some, arith, ltb,
  if◌then◌else◌,
}
use global_payments_observab.Base.Exec.{Exec, Outcome, ok, err, Outcome-cases}
use global_payments_observab.Contracts.Enums.{PaymentMethod, pix, boleto, ted, card}
use global_payments_observab.Contracts.Records.{Payment, ProviderRequest, ProviderResponse}
use global_payments_observab.Rails.{provider_slug_for_method, provider_confirm_path_for_method}
use global_payments_observab.Resilience.Retry.{retry_async, attempts_left}
use global_payments_observab.Processor.World.{World, Http, Failure, Reply}
use global_payments_observab.Processor.Provider.{
  call_once, confirm_once, retried, is_transient, read_reply,
}
use global_payments_observab.Mock.{
  Library, FaultConfig, SimulatedError, timeout_error, runtime_error, simulate, start, answer,
  confirm, route, mock_http,
}
use global_payments_observab.Processor.World

module _ {S E A : Type 0} (should_retry : E → Bool) (invalid_state : E)
    (operation : Exec S E A) where
  -- three attempts at an operation that succeeds at once, and at one that always raises
  retry_succeeds :
      (s s' : S) (a : A)
      → operation s ≡ (ok a, s')
      → retry_async (λ _ s. s) should_retry invalid_state operation 3 s ≡ (ok a, s')
  unfolding retry_async attempts_left
  retry_succeeds s s' a h =
      rw (retry_async, attempts_left, h) (ap (λ (x : Outcome E A × S). (ok a, x.1)) h)

  retry_raises :
      (e : E) (step : S → S) (s : S)
      → should_retry e ≡ true
      → ((s : S) → operation s ≡ (err e, step s))
      → retry_async (λ _ s. s) should_retry invalid_state operation 3 s
        ≡ (err e, step (step (step s)))
  unfolding retry_async attempts_left
  retry_raises e step s is_retried again =
      let raises : (s : S) → (operation s).0 ≡ err e =
        λ s. ap (λ (x : Outcome E A × S). x.0) (again s) in
      let steps : (s : S) → (operation s).1 ≡ step s =
        λ s. ap (λ (x : Outcome E A × S). x.1) (again s) in
      simp (retry_async, attempts_left, raises, steps, is_retried) refl

module _ (L : Library) (config : FaultConfig) (read_timeout_ms : ℕ) where
  route-path :
      (method : PaymentMethod)
      → route L config (provider_confirm_path_for_method method) ≡ some method
  unfolding route provider_confirm_path_for_method
  route-path pix = refl
  route-path boleto = refl
  route-path ted = refl
  route-path card = refl

  abbrev Client : Http
  Client = mock_http L config read_timeout_ms

  abbrev request_of : Payment → ProviderRequest
  request_of p = record {
    payment_id = p.payment_id;
    merchant_id = p.merchant_id;
    amount = p.amount;
    currency = p.currency;
    method = p.method;
  }

  abbrev answer_to : Payment → Outcome Failure ProviderResponse
  answer_to p = read_reply L.decimal (confirm L config read_timeout_ms p.method (request_of p))

  -- A call tells nothing of the calls before it.
  call_once-mock :
      (p : Payment) (w : World Client)
      → call_once p w ≡ (answer_to p, record w { http = suc w.http })
  unfolding call_once confirm_once
  call_once-mock p w = rw (route-path p.method) refl

  failures_transient :
      (late : Bool) (r : Outcome SimulatedError ProviderResponse) (e : Failure)
      → read_reply L.decimal (if late then Reply.timed_out else answer L config r) ≡ err e
      → is_transient e ≡ true
  failures_transient true r e h = ground arith
  failures_transient false (ok response) e h = ground arith
  failures_transient false (err timeout_error) e h = ground arith
  failures_transient false (err runtime_error) e h = ground arith

  answer_transient : (p : Payment) (e : Failure) → answer_to p ≡ err e → is_transient e ≡ true
  unfolding confirm
  answer_transient p e h =
      let (r, s) =
        simulate L config (provider_slug_for_method p.method) (request_of p) (start L config) in
      failures_transient (ltb read_timeout_ms s.slept_ms) r e h

  -- The mock draws from a generator seeded with the payment, so each attempt at a payment gets one
  -- answer: no retry of a failure succeeds. A failure is transient, so it costs all three requests; a
  -- success costs one.
  pub retries_repeat :
      (p : Payment) (w : World Client)
      → let (r, w') = retried p w in
        (r ≡ (call_once p w).0)
        × (((response : ProviderResponse) × (r ≡ ok response) × (w'.http ≡ suc w.http))
            ⊎ ((e : Failure) × (r ≡ err e)
                × (is_transient e ≡ true)
                × (w'.http ≡ suc (suc (suc w.http)))))
  unfolding retried
  retries_repeat p w = elim (Outcome-cases (answer_to p)) [
    | inl (response, e₁) ↦
        let once = call_once-mock p w ∙ ap (λ r. (r, record w { http = suc w.http })) e₁ in
        let all = retry_succeeds is_transient World.invalid_state (call_once p) w _ response once in
        (
          ap (λ (x : Outcome Failure ProviderResponse × World Client). x.0) (all ∙ sym once),
          inl (response, ap (λ x. x.0) all, ap (λ x. x.1.http) all),
        )
    | inr (e, e₁) ↦
        let step : World Client → World Client = λ w. record w { http = suc w.http } in
        let once : (w : World Client) → call_once p w ≡ (err e, step w) =
          λ w. call_once-mock p w ∙ ap (λ r. (r, step w)) e₁ in
        let again = answer_transient p e e₁ in
        let all = retry_raises is_transient World.invalid_state (call_once p) e step w again once in
        (
          ap (λ x. x.0) all ∙ sym (ap (λ x. x.0) (once w)),
          inr (e, ap (λ x. x.0) all, again, ap (λ x. x.1.http) all),
        )
  ]
