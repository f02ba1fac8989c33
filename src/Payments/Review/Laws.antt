-- ===== src/Payments/Review/Laws.antt =====
-- What an approval and a rejection do to the tables, and when they are refused.
use global_payments_observab.Base.{
  ℕ, suc, ◌≤◌, String, ◌≡◌, ◌≢◌, refl, true, false, Option, none, some, List, [], ◌∷◌, ◌++◌, arith,
  inl, inr, Option-cases, ◌==◌, find, count, update,
}
use global_payments_observab.Base.Exec.{Outcome, ok, err}
use global_payments_observab.Contracts.Enums.{
  PaymentStatus, received, in_review, payment_requested, status_eq, pending,
}
use global_payments_observab.Contracts.Records.{Payment, AcceptedResponse, OutboxEvent, requested}
use global_payments_observab.Db.{
  Db, get_by_payment_id, update_status, commit_rows, insert_row, count_in_review, has_payment_id,
}
use global_payments_observab.Api.Errors.{Exception, app, validation, handle_error, http_status}
use global_payments_observab.Payments.Review.{
  Session, Trace, open_session, load_review_payment_or_raise, enqueue_payment_requested, commit,
  approve, reject, review_response,
}

-- The operator's decisions, as one operation.
pub data Verdict : Type 0 where
  approved : Verdict
  rejected : Verdict

abbrev pub decide : Verdict → Trace → ℕ → Session → Outcome Exception AcceptedResponse × Session
decide approved = approve
decide rejected = reject

module _ (t : Trace) (i : ℕ) (s : Session) where
  decide_missing :
      (v : Verdict)
      → get_by_payment_id i s.working ≡ none
      → decide v t i s ≡ (err (app (validation "Payment not found")), s)
  unfolding approve reject load_review_payment_or_raise
  decide_missing approved e = rw e
  decide_missing rejected e = rw e

  decide_settled :
      (v : Verdict) (p : Payment)
      → get_by_payment_id i s.working ≡ some p
      → status_eq p.status in_review ≡ false
      → decide v t i s ≡ (err (app (validation "Payment is not in review")), s)
  unfolding approve reject load_review_payment_or_raise
  decide_settled approved p e h = rw (e, h)
  decide_settled rejected p e h = rw (e, h)

-- A payment that is missing, or in any status but `IN_REVIEW`, is refused by a validation error,
-- answered with status 422, and the session has changed nothing.
pub decide_refuses :
    (v : Verdict) (t : Trace) (i : ℕ) (s : Session)
    → ((p : Payment)
        → get_by_payment_id i s.working ≡ some p
        → status_eq p.status in_review ≡ false)
    → (e : Exception) × (decide v t i s ≡ (err e, s)) × ((handle_error e).status_code ≡ 422)
unfolding handle_error http_status
decide_refuses v t i s h = elim (Option-cases (get_by_payment_id i s.working)) [
  | inl e ↦ (app (validation "Payment not found"), decide_missing t i s v e, refl)
  | inr (p, e) ↦
      (app (validation "Payment is not in review"), decide_settled t i s v p e (h p e), refl)
]

module _ (i : ℕ) (status : PaymentStatus) (last_error : Option String) where
  set_payment : Payment → Payment
  set_payment p = record p { status = status; last_error = last_error }

  update_none :
      (ps : List Payment)
      → count (has_payment_id i) ps ≡ 0
      → update (has_payment_id i) set_payment ps ≡ ps
  unfolding count update
  update_none [] h = refl
  update_none (q ∷ ps) h = ground (arith, update_none ps)

  find-update :
      (ps : List Payment) (p : Payment)
      → find (has_payment_id i) ps ≡ some p
      → find (has_payment_id i) (update (has_payment_id i) set_payment ps) ≡ some (set_payment p)
  unfolding find update set_payment
  find-update [] p h = ground arith
  find-update (q ∷ ps) p h = ground (arith, find-update ps p)

  find-update_other :
      (ps : List Payment) (j : ℕ)
      → j ≢ i
      → find (has_payment_id j) (update (has_payment_id i) set_payment ps)
        ≡ find (has_payment_id j) ps
  unfolding find update set_payment
  find-update_other [] j h = refl
  find-update_other (q ∷ ps) j h = ground (arith, find-update_other ps j h)

  -- The count of rows in review, when a row of a unique key leaves the review.
  count-update :
      (ps : List Payment) (p : Payment)
      → count (has_payment_id i) ps ≤ 1
      → find (has_payment_id i) ps ≡ some p
      → status_eq p.status in_review ≡ true
      → status_eq status in_review ≡ false
      → suc (count (λ q. status_eq q.status in_review) (update (has_payment_id i) set_payment ps))
        ≡ count (λ q. status_eq q.status in_review) ps
  unfolding count find update set_payment
  count-update [] p u h r e = ground arith
  count-update (q ∷ ps) p u h r e = ground (arith, count-update ps p, update_none ps)

-- The status that a verdict gives, the reason that it leaves and the event that it sends.
abbrev pub new_status : Verdict → PaymentStatus
new_status approved = received
new_status rejected = PaymentStatus.blocked

abbrev pub reason : Verdict → Option String
reason approved = none
reason rejected = some "manual_review_rejected"

abbrev pub request_event : Trace → ℕ → ℕ → String → OutboxEvent
request_event t i uuid merchant_id = record {
  event_id = uuid;
  aggregate_id = i;
  event_type = payment_requested;
  payload = requested i merchant_id t.trace_id t.traceparent;
  status = pending;
  created_at = t.now;
  attempts = 0;
  next_attempt_at = t.now;
}

abbrev pub send : Verdict → OutboxEvent → Db → Db
send approved e db = record db { outbox = db.outbox ++ e ∷ [] }
send rejected e db = db

module _ (t : Trace) (i uuid : ℕ) (db : Db) (p : Payment) where
  -- The tables after a verdict on `p`.
  abbrev pub settled : Verdict → Db
  settled v =
      send v (request_event t i uuid p.merchant_id) (update_status i (new_status v) (reason v) db)

  decide_runs :
      (v : Verdict)
      → get_by_payment_id i db ≡ some p
      → status_eq p.status in_review ≡ true
      → find (λ (e : OutboxEvent). e.event_id == uuid) db.outbox ≡ none
      → let (r, s) = decide v t i (open_session db uuid) in
        (r ≡ ok (review_response t i (new_status v) p))
        × (s.committed ≡ settled v)
        × (s.queue_sizes ≡ count_in_review (settled v) ∷ [])
  unfolding approve reject load_review_payment_or_raise enqueue_payment_requested commit
      open_session commit_rows insert_row update_status
  decide_runs approved found review fresh =
      rw (found, review) (rw (fresh, commit_rows, insert_row, open_session) (refl, refl, refl))
  decide_runs rejected found review fresh = rw (found, review) (refl, refl, refl)

  -- A verdict on a payment that is in review goes through: the payment gets the status and the reason
  -- of the verdict, an approval sends one request event for it and a rejection none, every other
  -- payment stays, and the review queue, whose new size is recorded, is one shorter.
  pub decide_settles :
      (v : Verdict)
      → count (has_payment_id i) db.payments ≤ 1
      → get_by_payment_id i db ≡ some p
      → status_eq p.status in_review ≡ true
      → find (λ (e : OutboxEvent). e.event_id == uuid) db.outbox ≡ none
      → let (r, s) = decide v t i (open_session db uuid) in
        (r ≡ ok (review_response t i (new_status v) p))
        × (get_by_payment_id i s.committed
            ≡ some (record p { status = new_status v; last_error = reason v }))
        × ((j : ℕ) → j ≢ i → get_by_payment_id j s.committed ≡ get_by_payment_id j db)
        × (s.committed.outbox ≡ (send v (request_event t i uuid p.merchant_id) db).outbox)
        × (suc (count_in_review s.committed) ≡ count_in_review db)
        × (s.queue_sizes ≡ count_in_review s.committed ∷ [])
  unfolding get_by_payment_id update_status count_in_review set_payment
  decide_settles v one found review fresh =
      let (answers, is_settled, recorded) = decide_runs v found review fresh in
      (
        answers,
        rw is_settled (payment v),
        rw is_settled (others v),
        rw is_settled (outbox v),
        rw is_settled (queue v),
        rw is_settled recorded,
      )
    where
      payment :
          (v : Verdict)
          → get_by_payment_id i (settled v)
            ≡ some (record p { status = new_status v; last_error = reason v })
      payment approved = find-update i received none db.payments p found
      payment rejected =
          find-update i PaymentStatus.blocked (some "manual_review_rejected") db.payments p found

      others :
          (v : Verdict) (j : ℕ) → j ≢ i → get_by_payment_id j (settled v) ≡ get_by_payment_id j db
      others approved j h = find-update_other i received none db.payments j h
      others rejected j h =
          find-update_other i PaymentStatus.blocked (some "manual_review_rejected") db.payments j h

      outbox :
          (v : Verdict)
          → (settled v).outbox ≡ (send v (request_event t i uuid p.merchant_id) db).outbox
      outbox approved = refl
      outbox rejected = refl

      queue : (v : Verdict) → suc (count_in_review (settled v)) ≡ count_in_review db
      queue approved = count-update i received none db.payments p one found review refl
      queue rejected =
          count-update i PaymentStatus.blocked (some "manual_review_rejected") db.payments p one
            found review refl

-- After a verdict that went through, a second one on the same payment is refused and stores nothing,
-- whatever the two are.
pub decides_once :
    (v v' : Verdict) (t t' : Trace) (i uuid uuid' : ℕ) (db : Db) (p : Payment)
    → count (has_payment_id i) db.payments ≤ 1
    → get_by_payment_id i db ≡ some p
    → status_eq p.status in_review ≡ true
    → find (λ (e : OutboxEvent). e.event_id == uuid) db.outbox ≡ none
    → let db' = (decide v t i (open_session db uuid)).1.committed in
      decide v' t' i (open_session db' uuid')
      ≡ (err (app (validation "Payment is not in review")), open_session db' uuid')
unfolding open_session
decides_once v v' t t' i uuid uuid' db p one found review fresh =
    let db' = (decide v t i (open_session db uuid)).1.committed in
    let (_, is_now, _, _, _, _) = decide_settles t i uuid db p v one found review fresh in
    decide_settled t' i (open_session db' uuid') v' _ is_now (left_review v)
  where
    left_review : (v : Verdict) → status_eq (new_status v) in_review ≡ false
    left_review approved = refl
    left_review rejected = refl
