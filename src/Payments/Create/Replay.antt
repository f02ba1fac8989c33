-- ===== src/Payments/Create/Replay.antt =====
-- The answers of create_payment.py that need no new payment: a stored snapshot, a payment of the same
-- scope, and the waiting loop behind a lock that is held.
use global_payments_observab.Base.{ℕ, zero, suc, Option, none, some}
use global_payments_observab.Base.Exec.{pure, raise, gets, modify, ◌>>=◌, ◌>>◌}
use global_payments_observab.Contracts.Records.{Payment, AcceptedResponse, Snapshot}
use global_payments_observab.Db.{get_snapshot, get_by_merchant_and_idempotency}
use global_payments_observab.Api.Errors.{app, idempotency_conflict}
use global_payments_observab.Api.Cache.{Redis}
use global_payments_observab.Api.World.{World, Action, emit, idempotency_replay_total}
use global_payments_observab.Api.Validation.{RequestContext}
use global_payments_observab.Payments.Create.Types.{Run}

-- `_build_response_from_existing_payment`
unfoldable pub response_from_payment : Run → Payment → AcceptedResponse
response_from_payment run p = record {
  payment_id = p.payment_id;
  status = p.status;
  trace_id = run.trace_id;
  risk_decision = p.risk_decision;
  aml_decision = p.aml_decision;
}

module _ {R : Redis} where
  abbrev pub replay_of : Option Snapshot → Action R (Option AcceptedResponse)
  replay_of none = pure none
  replay_of (some s) = do modify (emit idempotency_replay_total); pure (some s.response_payload)

  -- `_try_return_replayed_response`
  unfoldable pub try_return_replayed : RequestContext → Action R (Option AcceptedResponse)
  try_return_replayed c = do
    snapshot ← gets (λ (w : World R). get_snapshot c.merchant_id c.idempotency_key w.db)
    replay_of snapshot

  abbrev pub existing_or_none : Run → Option Payment → Action R (Option AcceptedResponse)
  existing_or_none run none = pure none
  existing_or_none run (some p) = pure (some (response_from_payment run p))

  abbrev pub or_existing :
      Run → RequestContext → Option AcceptedResponse → Action R (Option AcceptedResponse)
  or_existing run c (some response) = pure (some response)
  or_existing run c none = do
    existing ←
        gets (λ (w : World R). get_by_merchant_and_idempotency c.merchant_id c.idempotency_key w.db)
    existing_or_none run existing

  -- `_resolve_replayed_after_conflict`, which is a round of the waiting loop too: the snapshot's
  -- response, else the response built from a payment of the scope
  unfoldable pub resolve_replayed : Run → RequestContext → Action R (Option AcceptedResponse)
  unfolding try_return_replayed response_from_payment
  resolve_replayed run c = do replayed ← try_return_replayed c; or_existing run c replayed

  abbrev pub sleep : Run → ℕ → World R → World R
  sleep run n w = record w { db = run.sleeping n w.db }

  -- the loop of `_resolve_pending_idempotent_request`, with the rounds that are left
  unfoldable pub wait_rounds : Run → RequestContext → ℕ → Action R AcceptedResponse
  wait_rounds run c zero = raise (app idempotency_conflict)
  wait_rounds run c (suc n) = do
    answer ← resolve_replayed run c
    let again = modify (sleep run n) >> wait_rounds run c n
    elim answer [ some response ↦ pure response | none ↦ again ]

  unfoldable pub resolve_pending : Run → RequestContext → Action R AcceptedResponse
  unfolding wait_rounds
  resolve_pending run c = wait_rounds run c 5
