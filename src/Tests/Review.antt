-- ===== src/Tests/Review.antt =====
-- Reviews and the worker, run.
use mathlib.Core.Path.{◌≡◌}
use global_payments_observab.Base.{
  ℕ, suc, ◌≢◌, refl, arith, none, some, [], ◌∷◌, find, count, false,
}
use global_payments_observab.Base.Exec.{ok, err}
use global_payments_observab.Contracts.Enums.{PaymentStatus, received, status_eq, in_review}
use global_payments_observab.Contracts.Records.{Payment}
use global_payments_observab.Db.{get_by_payment_id, count_in_review}
use global_payments_observab.Api.Errors.{Exception, app, validation, handle_error}
use global_payments_observab.Payments.Review.{Trace, open_session, review_response}
use global_payments_observab.Payments.Review.Race.{after_load, overlapping_verdicts}
use global_payments_observab.Payments.Review.Laws.{
  approved, rejected, decide, decide_refuses, decide_settles, decides_once, send, request_event,
}
use global_payments_observab.Tests.Fixtures.{stored_db, empty_db, payment}

abbrev trace : Trace
trace = record { trace_id = "trace"; traceparent = none; now = 2000 }

found : get_by_payment_id 7 stored_db ≡ some payment
unfolding get_by_payment_id find
found = refl

nothing :
    (p : Payment) → get_by_payment_id 7 empty_db ≡ some p → status_eq p.status in_review ≡ false
unfolding get_by_payment_id find
nothing p h = absurd (ground arith)

decide_refuses_example :
    (e : Exception) × (decide approved trace 7 (open_session empty_db 1)
      ≡ (err e, open_session empty_db 1))
    × ((handle_error e).status_code ≡ 422)
unfolding open_session
decide_refuses_example = decide_refuses approved trace 7 (open_session empty_db 1) nothing

decide_settles_example :
    let (r, s) = decide approved trace 7 (open_session stored_db 1) in
    (r ≡ ok (review_response trace 7 received payment))
    × (get_by_payment_id 7 s.committed
        ≡ some (record payment { status = received; last_error = none }))
    × ((j : ℕ) → j ≢ 7 → get_by_payment_id j s.committed ≡ get_by_payment_id j stored_db)
    × (s.committed.outbox ≡ (send approved (request_event trace 7 1 "shop") stored_db).outbox)
    × (suc (count_in_review s.committed) ≡ count_in_review stored_db)
    × (s.queue_sizes ≡ count_in_review s.committed ∷ [])
unfolding count find
decide_settles_example =
    decide_settles trace 7 1 stored_db payment approved (omega arith) found refl refl

decides_once_example :
    let db' = (decide approved trace 7 (open_session stored_db 1)).1.committed in
    decide rejected trace 7 (open_session db' 2)
    ≡ (err (app (validation "Payment is not in review")), open_session db' 2)
unfolding count find
decides_once_example =
    decides_once approved rejected trace trace 7 1 2 stored_db payment (omega arith) found refl refl

overlapping_verdicts_example :
    let (r, s) = after_load approved trace 7 payment (open_session stored_db 1) in
    let (r', s') = after_load rejected trace 7 payment (open_session s.committed 2) in
    (r ≡ ok (review_response trace 7 received payment))
    × (r' ≡ ok (review_response trace 7 PaymentStatus.blocked payment))
    × (get_by_payment_id 7 s'.committed
        ≡ some (record payment {
          status = PaymentStatus.blocked;
          last_error = some "manual_review_rejected";
        }))
    × (s'.committed.outbox ≡ (send approved (request_event trace 7 1 "shop") stored_db).outbox)
unfolding find
overlapping_verdicts_example =
    overlapping_verdicts approved rejected trace trace 7 1 2 stored_db payment found
      (λ h. absurd (ground arith)) refl refl
