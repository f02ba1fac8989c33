-- ===== src/Api/Pipeline/Laws.antt =====
-- What a request leaves the application with.
use global_payments_observab.Base.{
  ℕ, suc, ◌≡◌, ◌≢◌, refl, some, inl, inr, String, true, List, [], ◌∷◌, All, arith, leb, find,
  is_some, Bool-cases, eq_refl, if◌then◌else◌,
}
use global_payments_observab.Base.Exec.{Outcome, ok, err}
use global_payments_observab.Api.Errors.{
  Exception, AppError, app, validation, idempotency_conflict, concurrency, kyc_denied,
  limit_exceeded, rate_limited, value_error, redis_error, integrity_error, database_error,
  handle_error, http_status, ErrorResponse,
}
use global_payments_observab.Api.SecurityHeaders.{
  Headers, security_headers, is_named, apply_security_headers_lem,
}
use global_payments_observab.Api.Pipeline.{
  Response, RequestHeaders, context_of, Observed, Route, serve, telemetry_middleware, dispatch,
  set_header, count_error, after_response, handled, unexpected, to_response, finished,
}

-- A response whose first header of this name, in any case of its letters, has the value.
abbrev pub HasHeader : (String → String) → String → String → Response → Type 0
HasHeader lower name value response =
    (h : String × String) × (find (is_named lower name) response.headers ≡ some h) × (h.1 ≡ value)

-- A response with every security header.
abbrev pub IsSecured : (String → String) → Response → Type 0
IsSecured lower response =
    All (λ (e : String × String). is_some (find (is_named lower e.0) response.headers) ≡ true)
      security_headers

-- How a route ends and what leaves the application: the status and the headers of the response, and the
-- statuses that are counted as errors, before and after.
pub data Leaves (lower : String → String) (json_headers : ErrorResponse → Headers)
    (id_after_span : String)
    : Outcome Exception Response → Response → List ℕ → List ℕ → Type 0 where
  answers :
      (r q : Response) (errors : List ℕ)
      → q.status_code ≡ r.status_code
      → IsSecured lower q
      → HasHeader lower "X-Trace-Id" id_after_span q
      → Leaves lower json_headers id_after_span
          (ok r)
          q
          errors
          (if leb 400 r.status_code then r.status_code ∷ errors else errors)
  refuses :
      (e : AppError) (q : Response) (errors : List ℕ)
      → q.status_code ≡ http_status e
      → IsSecured lower q
      → HasHeader lower "X-Trace-Id" id_after_span q
      → Leaves lower json_headers id_after_span (err (app e)) q errors (http_status e ∷ errors)
  breaks :
      (e : Exception) (q : Response) (errors : List ℕ)
      → ((x : AppError) → e ≢ app x)
      → q.status_code ≡ 500
      → q.headers ≡ json_headers (handle_error e)
      → Leaves lower json_headers id_after_span (err e) q errors errors

-- every error of the handlers has an error's status
http_status_bound : (e : AppError) → leb 400 (http_status e) ≡ true
unfolding http_status
http_status_bound (validation m) = refl
http_status_bound idempotency_conflict = refl
http_status_bound concurrency = refl
http_status_bound (kyc_denied m) = refl
http_status_bound (limit_exceeded m) = refl
http_status_bound (rate_limited d) = refl

module _ (lower : String → String) where
  set_header_sets :
      (name value : String) (hs : Headers)
      → (h : String × String) × (find (is_named lower name) (set_header lower name value hs)
          ≡ some h)
        × (h.1 ≡ value)
  unfolding find
  set_header_sets name value [] = ((name, value), rw (eq_refl (lower name)) refl, refl)
  set_header_sets name value (h ∷ hs) = elim (Bool-cases (is_named lower name h)) [
    | inl same ↦ ((h.0, value), rw (same, same) refl, refl)
    | inr other ↦
        let (h', found, e) = set_header_sets name value hs in (h', rw (other, other) found, e)
  ]

  finished-IsSecured :
      (id_after_span : String) (r : Response) → IsSecured lower (finished lower id_after_span r)
  finished-IsSecured id_after_span r =
      (apply_security_headers_lem lower (set_header lower "X-Trace-Id" id_after_span r.headers)).0

  finished-HasHeader :
      (id_after_span : String) (r : Response)
      → HasHeader lower "X-Trace-Id" id_after_span (finished lower id_after_span r)
  finished-HasHeader id_after_span r =
      let hs = set_header lower "X-Trace-Id" id_after_span r.headers in
      let (h, found, e) = set_header_sets "X-Trace-Id" id_after_span r.headers in
      (h, (apply_security_headers_lem lower hs).1 "X-Trace-Id" h found, e)

module _ {S : Type 0} (lower : String → String) (json_headers : ErrorResponse → Headers) where
  count_error_lem :
      (code : ℕ) (s : Observed S)
      → (count_error code s).errors ≡ (if leb 400 code then code ∷ s.errors else s.errors)
  count_error_lem code s = elim (Bool-cases (leb 400 code)) [
    | inl e ↦ rw e refl
    | inr e ↦ rw e refl
  ]

  after_keeps :
      (trace_id : String) (r : Outcome Exception Response) (s : Observed S)
      → let s' = (after_response lower trace_id r s).1 in
        (s'.context ≡ s.context) × (s'.requests ≡ s.requests) × (s'.state ≡ s.state)
  after_keeps trace_id (err e) s = (refl, refl, refl)
  after_keeps trace_id (ok r) s = elim (Bool-cases (leb 400 r.status_code)) [
    | inl e ↦ rw e (refl, refl, refl)
    | inr e ↦ rw e (refl, refl, refl)
  ]

  leaves :
      (id_after_span : String) (r : Outcome Exception Response) (s : Observed S)
      → let (r', s') = after_response lower id_after_span (handled json_headers r) s in
        Leaves lower json_headers id_after_span r (unexpected json_headers r') s.errors s'.errors
  unfolding handle_error
  leaves id (ok r) s = rw (count_error_lem r.status_code s) (
      answers r (finished lower id r) s.errors refl (finished-IsSecured lower id r)
        (finished-HasHeader lower id r))
  leaves id (err (app e)) s =
      let q = to_response json_headers (app e) in
      rw (count_error_lem (http_status e) s, http_status_bound e)
        (refuses e (finished lower id q) s.errors refl (finished-IsSecured lower id q)
          (finished-HasHeader lower id q))
  leaves id (err (value_error m)) s = breaks _ _ s.errors (λ x h. absurd (ground arith)) refl refl
  leaves id (err redis_error) s = breaks _ _ s.errors (λ x h. absurd (ground arith)) refl refl
  leaves id (err integrity_error) s = breaks _ _ s.errors (λ x h. absurd (ground arith)) refl refl
  leaves id (err database_error) s = breaks _ _ s.errors (λ x h. absurd (ground arith)) refl refl

  -- The route runs in the context of the request, after the request was counted. If it answers or raises
  -- an `AppError`, the response has the status of the answer or of the error, every security header and
  -- the id that is current after the span as its X-Trace-Id, and its status is counted among the errors
  -- from 400 on. After another exception the response is a 500 with the headers of its content alone,
  -- and no error is counted. In each case the context is cleared, and the count of requests and the
  -- state of the use case are what the route left.
  pub serve_lem :
      (trace_id id_after_span : String) (h : RequestHeaders) (route : Route S) (s : Observed S)
      → let (r, s₁) =
          route (record s { requests = suc s.requests; context = context_of trace_id h }) in
        let (q, s') = serve lower json_headers trace_id id_after_span h route s in
        Leaves lower json_headers id_after_span r q s₁.errors s'.errors
        × (s'.context ≡ [])
        × (s'.requests ≡ s₁.requests)
        × (s'.state ≡ s₁.state)
  unfolding serve telemetry_middleware dispatch
  serve_lem trace_id id_after_span h route s =
      let (r, s₁) =
        route (record s { requests = suc s.requests; context = context_of trace_id h }) in
      let s₂ = record s₁ { context = [] } in
      let (cleared, counted, kept) = after_keeps id_after_span (handled json_headers r) s₂ in
      (leaves id_after_span r s₂, cleared, counted, kept)
