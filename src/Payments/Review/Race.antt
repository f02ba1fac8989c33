-- ===== src/Payments/Review/Race.antt =====
-- Two verdicts at the same time: each session has loaded the payment before the other one commits. The
-- update of `update_status` waits for the commit before it and then applies to what it finds.
use global_payments_observab.Base.{
  ℕ, String, Option, update, ◌≡◌, ◌≢◌, refl, ap, ◌∙◌, none, some, [], ◌∷◌, ◌++◌, arith, ◌==◌, find,
  find-update, find-append_none, find_holds,
}
use global_payments_observab.Base.Exec.{ok, pure, modify, ◌>>=◌, ◌>>◌}
use global_payments_observab.Contracts.Enums.{PaymentStatus, received}
use global_payments_observab.Contracts.Records.{Payment, AcceptedResponse, OutboxEvent}
use global_payments_observab.Db.{
  Db, get_by_payment_id, update_status, commit_rows, insert_row, has_payment_id,
}
use global_payments_observab.Payments.Review.{
  Session, Trace, Step, open_session, load_review_payment_or_raise, enqueue_payment_requested,
  commit, set_status, record_review_queue_size, approve, reject, review_response,
}
use global_payments_observab.Payments.Review.Laws.{
  Verdict, approved, rejected, decide, new_status, reason, request_event, send, settled,
}

-- What a verdict does once it has loaded the payment.
unfoldable pub after_load : Verdict → Trace → ℕ → Payment → Step AcceptedResponse
unfolding enqueue_payment_requested commit update_status
after_load approved t i payment = do
  modify (set_status i received none)
  modify (enqueue_payment_requested t i payment.merchant_id)
  commit
  modify record_review_queue_size
  pure (review_response t i received payment)
after_load rejected t i payment = do
  modify (set_status i PaymentStatus.blocked (some "manual_review_rejected"))
  commit
  modify record_review_queue_size
  pure (review_response t i PaymentStatus.blocked payment)

decide-after_load :
    (v : Verdict) (t : Trace) (i : ℕ) (s : Session)
    → decide v t i s ≡ (load_review_payment_or_raise i >>= after_load v t i) s
unfolding approve reject after_load
decide-after_load approved t i s = refl
decide-after_load rejected t i s = refl

module _ (t : Trace) (i uuid : ℕ) (p : Payment) where
  after_load_runs :
      (v : Verdict) (db : Db)
      → find (λ (e : OutboxEvent). e.event_id == uuid) db.outbox ≡ none
      → let (r, s) = after_load v t i p (open_session db uuid) in
        (r ≡ ok (review_response t i (new_status v) p)) × (s.committed ≡ settled t i uuid db p v)
  unfolding after_load enqueue_payment_requested commit open_session commit_rows insert_row
      update_status
  after_load_runs approved db fresh = rw (fresh, commit_rows, insert_row, open_session) (refl, refl)
  after_load_runs rejected db fresh = (refl, refl)

  settled_payment :
      (v : Verdict) (db : Db) (q : Payment)
      → get_by_payment_id i db ≡ some q
      → get_by_payment_id i (settled t i uuid db p v)
        ≡ some (record q { status = new_status v; last_error = reason v })
  unfolding get_by_payment_id update_status
  settled_payment v db q found = with_status v
    where
      moved :
          (status : PaymentStatus) (last_error : Option String)
          → find (has_payment_id i) (
              update
                (has_payment_id i)
                (λ (x : Payment). record x { status = status; last_error = last_error })
                db.payments)
            ≡ some (record q { status = status; last_error = last_error })
      moved status last_error =
          find-update (has_payment_id i) (has_payment_id i)
            (λ (x : Payment). record x { status = status; last_error = last_error }) (λ _. refl)
            db.payments q found (find_holds (has_payment_id i) db.payments q found)

      with_status :
          (v : Verdict)
          → get_by_payment_id i (settled t i uuid db p v)
            ≡ some (record q { status = new_status v; last_error = reason v })
      with_status approved = moved received none
      with_status rejected = moved PaymentStatus.blocked (some "manual_review_rejected")

  settled_outbox :
      (v : Verdict) (db : Db)
      → (settled t i uuid db p v).outbox ≡ (send v (request_event t i uuid p.merchant_id) db).outbox
  unfolding update_status
  settled_outbox approved db = refl
  settled_outbox rejected db = refl

  still_fresh :
      (v : Verdict) (db : Db) (uuid' : ℕ)
      → uuid ≢ uuid'
      → find (λ (e : OutboxEvent). e.event_id == uuid') db.outbox ≡ none
      → find (λ (e : OutboxEvent). e.event_id == uuid') (settled t i uuid db p v).outbox ≡ none
  unfolding update_status find
  still_fresh rejected db uuid' other fresh = fresh
  still_fresh approved db uuid' other fresh =
      find-append_none (λ (e : OutboxEvent). e.event_id == uuid') db.outbox
        (request_event t i uuid p.merchant_id ∷ []) fresh
      ∙ ground arith

send_outbox :
    (v : Verdict) (e : OutboxEvent) (db db' : Db)
    → db.outbox ≡ db'.outbox
    → (send v e db).outbox ≡ (send v e db').outbox
send_outbox approved e db db' h = ap (λ es. es ++ e ∷ []) h
send_outbox rejected e db db' h = h

-- Two verdicts that have both loaded the payment before either commits, with new UUIDs for their events,
-- both go through: the later one sets the status over the earlier one's, and the events of both are
-- sent. So a payment that was approved and rejected at once is blocked with its request on the way,
-- and one that was approved twice is requested twice.
pub overlapping_verdicts :
    (v v' : Verdict) (t t' : Trace) (i uuid uuid' : ℕ) (db : Db) (p : Payment)
    → get_by_payment_id i db ≡ some p
    → uuid ≢ uuid'
    → find (λ (e : OutboxEvent). e.event_id == uuid) db.outbox ≡ none
    → find (λ (e : OutboxEvent). e.event_id == uuid') db.outbox ≡ none
    → let (r, s) = after_load v t i p (open_session db uuid) in
      let (r', s') = after_load v' t' i p (open_session s.committed uuid') in
      (r ≡ ok (review_response t i (new_status v) p))
      × (r' ≡ ok (review_response t' i (new_status v') p))
      × (get_by_payment_id i s'.committed
          ≡ some (record p { status = new_status v'; last_error = reason v' }))
      × (s'.committed.outbox
          ≡ (send v'
              (request_event t' i uuid' p.merchant_id)
              (send v (request_event t i uuid p.merchant_id) db)).outbox)
overlapping_verdicts v v' t t' i uuid uuid' db p found apart fresh fresh' =
    let db' = settled t i uuid db p v in
    let (answered, stored) = after_load_runs t i uuid p v db fresh in
    let (answered', stored') =
      after_load_runs t' i uuid' p v' db' (still_fresh t i uuid p v db uuid' apart fresh') in
    let payment = settled_payment t i uuid p v db p found in
    (
      answered,
      rw stored answered',
      rw (stored, stored')
          (settled_payment t' i uuid' p v' db'
            (record p { status = new_status v; last_error = reason v }) payment),
      rw (stored, stored')
          (settled_outbox t' i uuid' p v' db'
            ∙ send_outbox v' _ db' _ (settled_outbox t i uuid p v db)),
    )
