-- ===== src/Payments/Create/Refines.antt =====
-- The code of create_payment.py against the endings that are specified in Ending.
use global_payments_observab.Base.{
  ℕ, suc, ◌≡◌, refl, sym, ◌∙◌, ap, inl, inr, Bool, true, false, Bool-cases, none, some, [], arith,
  Option-cases,
}
use mathlib.Core.Path.{subst}
use global_payments_observab.Base.Exec.{ok, err, ◌>>=◌}
use global_payments_observab.Contracts.Records.{
  Customer, AcceptedResponse, Snapshot, PaymentRequest,
}
use global_payments_observab.Db.{Db, get_snapshot, get_by_merchant_and_idempotency, commit_rows}
use global_payments_observab.Api.Errors.{app, database_error, idempotency_conflict}
use global_payments_observab.Api.Cache.{Redis}
use global_payments_observab.Api.World.{World, emit, idempotency_replay_total}
use global_payments_observab.Api.Validation.{RequestContext}
use global_payments_observab.Payments.Create.Types.{Services, Run, ControlDecision}
use global_payments_observab.Payments.Create.Replay.{
  try_return_replayed, resolve_replayed, resolve_pending,
}
use global_payments_observab.Payments.Create.Persist.{
  response_payload, transaction_rows, persist_payment_transaction, replay_or_conflict,
}
use global_payments_observab.Payments.Create.Controls.{
  load_customer_or_raise, run_pre_checks, evaluate_controls, resolve_status,
}
use global_payments_observab.Controls.Limits.{LimitsEvaluation}
use global_payments_observab.Payments.Create.Quiet.{acquire-IsQuiet}
use global_payments_observab.Payments.Create.QuietControls.{
  load_customer-IsQuiet, run_pre_checks-IsQuiet, evaluate_controls-IsQuiet, after_commit-IsQuiet,
}
use global_payments_observab.Controls.Idempotency.{acquire}
use global_payments_observab.Controls.Aml.{record_outgoing}
use global_payments_observab.Payments.Create.Execute.{
  after_commit_observability, finish, create_payment_with_controls, handle, locked_or_pending,
}
use global_payments_observab.Payments.Create.Ending.{
  Others, same, committed, Ending, refused, replayed, existing, created, IsDecided, accepted,
  broken,
}
use global_payments_observab.Payments.Create.Rounds.{
  resolve_snapshot, resolve_existing, resolve_nothing, Ends, quiet_then, wait_rounds_end,
}

module _ {R : Redis} (run : Run) (c : RequestContext) (request : PaymentRequest) where
  abbrev after_conflict : World R → World R
  after_conflict w = record w { db = run.meanwhile w.db; added = []; next_uuid = suc w.next_uuid }

  persist_stored :
      (d : ControlDecision) (r : AcceptedResponse) (w : World R) (db : Db)
      → w.added ≡ []
      → commit_rows (transaction_rows run c request d r w.next_uuid) (run.meanwhile w.db) ≡ some db
      → persist_payment_transaction run c request d r w
        ≡ (ok none, record w { db = db; added = []; next_uuid = suc w.next_uuid })
  unfolding persist_payment_transaction
  persist_stored d r w db e h = rw (e, h)

  persist_conflict :
      (d : ControlDecision) (r : AcceptedResponse) (w : World R)
      → w.added ≡ []
      → commit_rows (transaction_rows run c request d r w.next_uuid) (run.meanwhile w.db) ≡ none
      → persist_payment_transaction run c request d r w
        ≡ (resolve_replayed run c >>= replay_or_conflict run) (after_conflict w)
  unfolding persist_payment_transaction
  persist_conflict d r w e h = rw (e, h)

module _ {R : Redis} (S : Services) (run : Run) (c : RequestContext) (request : PaymentRequest)
    (r : AcceptedResponse) (w : World R) where
  after_commit_returns :
      run.queue_query_fails ≡ false → (after_commit_observability S run c request r w).0 ≡ ok tt
  unfolding after_commit_observability record_outgoing
  after_commit_returns h = ground arith

  after_commit_raises :
      run.queue_query_fails ≡ true
      → (after_commit_observability S run c request r w).0 ≡ err database_error
  unfolding after_commit_observability record_outgoing
  after_commit_raises h = ground arith

moved : {run : Run} {db₀ db db' : Db} → db' ≡ db → Others run db₀ db → Others run db₀ db'
moved {run} {db₀} e others = subst (Others run db₀) (sym e) others

evaluate_controls_decided :
    {R : Redis} (S : Services) (run : Run) (c : RequestContext) (request : PaymentRequest)
    (customer : Customer) (evaluation : LimitsEvaluation) (w : World R) (d : ControlDecision)
    → (evaluate_controls S run c request customer evaluation w).0 ≡ ok d
    → d.final_status ≡ resolve_status d.risk_decision d.aml_decision
unfolding evaluate_controls
evaluate_controls_decided S run c request customer evaluation w d h = ground arith

module _ {R : Redis} (S : Services) (run : Run) (c : RequestContext)
    (request : PaymentRequest) where
  -- after a commit that went through
  stored-Ends :
      (db₀ : Db) (d : ControlDecision) (payment_id event_id : ℕ) (before : Db) (w : World R)
      → IsDecided run c request db₀ d
      → Others run db₀ before
      → commit_rows
          (transaction_rows run c request d (response_payload run d payment_id) event_id)
          before
        ≡ some w.db
      → Ends run c request db₀ (finish S run c request (response_payload run d payment_id) none w)
  stored-Ends db₀ d payment_id event_id before w decided others stored =
      let r = response_payload run d payment_id in
      let quiet = (after_commit-IsQuiet S run c request r).at w in
      let kept = stored ∙ ap some (sym quiet.db) in
      elim (Bool-cases run.queue_query_fails) [
        | inl fails ↦
            rw (after_commit_raises S run c request r w fails)
              (created d payment_id event_id before decided others kept (broken fails refl))
        | inr answers ↦
            rw (after_commit_returns S run c request r w answers)
              (created d payment_id event_id before decided others kept (accepted answers refl))
      ]

  -- after a commit that met a row of the same scope
  conflict-Ends :
      (db₀ : Db) (response : AcceptedResponse) (w : World R)
      → Others run db₀ w.db
      → Ends run c request db₀ (
          (resolve_replayed run c >>= replay_or_conflict run >>= finish S run c request response) w)
  conflict-Ends db₀ response w others =
      elim (Option-cases (get_snapshot c.merchant_id c.idempotency_key w.db)) [
        | inr (s, e) ↦ rw (resolve_snapshot run c w s e) (replayed s e refl others)
        | inl e ↦
            elim (Option-cases
              (get_by_merchant_and_idempotency c.merchant_id c.idempotency_key w.db)) [
                | inr (p, e') ↦ rw (resolve_existing run c w p e e') (existing p e e' refl others)
                | inl e' ↦
                    rw (resolve_nothing run c w e e')
                      (refused (app idempotency_conflict) refl others)
              ]
      ]

  persist-Ends :
      (db₀ : Db) (d : ControlDecision) (payment_id : ℕ) (w : World R)
      → IsDecided run c request db₀ d
      → Others run db₀ w.db
      → w.added ≡ []
      → let r = response_payload run d payment_id in
        Ends run c request db₀
          ((persist_payment_transaction run c request d r >>= finish S run c request r) w)
  persist-Ends db₀ d payment_id w decided others e =
      let r = response_payload run d payment_id in
      let rows = transaction_rows run c request d r w.next_uuid in
      elim (Option-cases (commit_rows rows (run.meanwhile w.db))) [
        | inr (db, h) ↦ rw (persist_stored run c request d r w db e h) (
            stored-Ends db₀ d payment_id w.next_uuid (run.meanwhile w.db)
              (record w { db = db; added = []; next_uuid = suc w.next_uuid }) decided
              (committed others) h)
        | inl h ↦
            rw (persist_conflict run c request d r w e h)
              (conflict-Ends db₀ r (after_conflict run c request w) (committed others))
      ]

  create-Ends :
      (db₀ : Db) (w : World R)
      → Others run db₀ w.db
      → w.added ≡ []
      → Ends run c request db₀ (create_payment_with_controls S run c request w)
  unfolding create_payment_with_controls
  create-Ends db₀ w others e =
      quiet_then run c request db₀ (load_customer_or_raise S run c.customer_id) _ w
        (load_customer-IsQuiet S run c.customer_id) others e
        λ customer w₁ _ d₁ e₁.
          quiet_then run c request db₀ (run_pre_checks S run c request customer) _ w₁
            (run_pre_checks-IsQuiet S run c request customer) (moved d₁ others) e₁
            λ evaluation w₂ _ d₂ e₂.
              quiet_then run c request db₀ (evaluate_controls S run c request customer evaluation) _
                w₂ (evaluate_controls-IsQuiet S run c request customer evaluation)
                (moved d₂ (moved d₁ others)) e₂
                λ d w₃ h₃ d₃ e₃.
                  persist-Ends db₀ d w₃.next_uuid (record w₃ { next_uuid = suc w₃.next_uuid })
                    (evaluate_controls_decided S run c request customer evaluation w₂ d h₃)
                    (moved d₃ (moved d₂ (moved d₁ others))) e₃

  pub replays :
      (w : World R) (s : Snapshot)
      → get_snapshot c.merchant_id c.idempotency_key w.db ≡ some s
      → try_return_replayed c w ≡ (ok (some s.response_payload), emit idempotency_replay_total w)
  unfolding try_return_replayed
  replays w s e = rw e

  misses :
      (w : World R)
      → get_snapshot c.merchant_id c.idempotency_key w.db ≡ none
      → try_return_replayed c w ≡ (ok none, w)
  unfolding try_return_replayed
  misses w e = rw e

  locked_or_pending-Ends :
      (db₀ : Db) (acquired : Bool) (w : World R)
      → w.db ≡ db₀
      → w.added ≡ []
      → Ends run c request db₀ (locked_or_pending S run c request acquired w)
  unfolding resolve_pending
  locked_or_pending-Ends db₀ true w d e = create-Ends db₀ w (moved d same) e
  locked_or_pending-Ends db₀ false w d e = wait_rounds_end run c request db₀ 5 w (moved d same)

  -- Whatever the cache, the controls and the other sessions do, a request with a session of its own
  -- is refused, answered from what is stored, or stores one payment with its event and its snapshot;
  -- the payment is then answered, unless the database fails the count of the review queue, which makes
  -- an error of the request although the payment is stored.
  pub handle_refines :
      (w : World R)
      → w.added ≡ []
      → Ending run c request w.db (handle S run c request w).0 (handle S run c request w).1.db
  unfolding handle
  handle_refines w e = elim (Option-cases (get_snapshot c.merchant_id c.idempotency_key w.db)) [
    | inr (s, h) ↦ rw (replays w s h) (replayed s h refl same)
    | inl h ↦ rw (misses w h) (
        quiet_then run c request w.db
          (acquire S.idempotency_ttl_seconds c.merchant_id c.idempotency_key)
          (locked_or_pending S run c request) w
          (acquire-IsQuiet S.idempotency_ttl_seconds c.merchant_id c.idempotency_key) same e
          λ acquired w' _ d e'. locked_or_pending-Ends w.db acquired w' d e')
  ]
