-- ===== src/Payments/Create/Execute.antt =====
-- `CreatePaymentUseCase.execute` of create_payment.py.
use global_payments_observab.Base.{ℕ, suc, Bool, true, false, Option, none, some, if◌then◌else◌}
use global_payments_observab.Base.Exec.{ok, pure, gets, raise_if, lift, modify, ◌>>=◌, ◌>>◌}
use global_payments_observab.Contracts.Enums.{PaymentStatus, blocked, status_eq}
use global_payments_observab.Contracts.Records.{AcceptedResponse, PaymentRequest}
use global_payments_observab.Db.{count_in_review}
use global_payments_observab.Api.Errors.{database_error}
use global_payments_observab.Api.Cache.{Redis}
use global_payments_observab.Api.World.{World, Action, emit, review_queue_size}
use global_payments_observab.Api.Validation.{RequestContext, Headers, build_request_context}
use global_payments_observab.Controls.Idempotency.{acquire}
use global_payments_observab.Controls.Aml.{record_outgoing}
use global_payments_observab.Payments.Create.Types.{Services, Run}
use global_payments_observab.Payments.Create.Replay.{try_return_replayed, resolve_pending}
use global_payments_observab.Payments.Create.Controls.{
  load_customer_or_raise, run_pre_checks, evaluate_controls,
}
use global_payments_observab.Payments.Create.Persist.{response_payload, persist_payment_transaction}

module _ {R : Redis} (S : Services) (run : Run) where
  -- `if response_payload.status != PaymentStatus.BLOCKED: …`
  abbrev pub record_unless_blocked :
      RequestContext → PaymentRequest → PaymentStatus → Action R (Unit {0})
  record_unless_blocked c request status =
      let recording =
        record_outgoing S.format S.aml run.record_clock c.customer_id request.method
          request.amount in
      if status_eq status blocked then pure tt else recording

  -- `_after_commit_observability`, less the log line; its query of the tables may fail
  unfoldable pub after_commit_observability :
      RequestContext → PaymentRequest → AcceptedResponse → Action R (Unit {0})
  after_commit_observability c request r = do
    record_unless_blocked c request r.status
    raise_if run.queue_query_fails database_error
    queue_size ← gets (λ (w : World R). count_in_review w.db)
    modify (emit (review_queue_size queue_size))

  abbrev pub take_uuid : Action R ℕ
  take_uuid w = (ok w.next_uuid, record w { next_uuid = suc w.next_uuid })

  abbrev pub finish :
      RequestContext
      → PaymentRequest
      → AcceptedResponse
      → Option AcceptedResponse
      → Action R AcceptedResponse
  finish c request response (some replayed) = pure replayed
  finish c request response none = do after_commit_observability c request response; pure response

  -- `_create_payment_with_controls`
  unfoldable pub create_payment_with_controls :
      RequestContext → PaymentRequest → Action R AcceptedResponse
  create_payment_with_controls c request = do
    customer ← load_customer_or_raise S run c.customer_id
    evaluation ← run_pre_checks S run c request customer
    decision ← evaluate_controls S run c request customer evaluation
    payment_id ← take_uuid
    let response = response_payload run decision payment_id
    replayed ← persist_payment_transaction run c request decision response
    finish c request response replayed

  abbrev pub locked_or_pending : RequestContext → PaymentRequest → Bool → Action R AcceptedResponse
  locked_or_pending c request true = create_payment_with_controls c request
  locked_or_pending c request false = resolve_pending run c

  abbrev pub or_create :
      RequestContext → PaymentRequest → Option AcceptedResponse → Action R AcceptedResponse
  or_create c request (some response) = pure response
  or_create c request none = do
    acquired ← acquire S.idempotency_ttl_seconds c.merchant_id c.idempotency_key
    locked_or_pending c request acquired

  -- `execute` behind the validation
  unfoldable pub handle : RequestContext → PaymentRequest → Action R AcceptedResponse
  handle c request = do replayed ← try_return_replayed c; or_create c request replayed

  unfoldable pub execute : Headers → PaymentRequest → Action R AcceptedResponse
  unfolding handle
  execute headers request = do
    (c, request') ← lift (build_request_context S.format S.supported_currencies headers request)
    handle c request'
