-- ===== src/Tests/Create.antt =====
-- The creation of payments, run.
use global_payments_observab.Base.{◌≡◌, refl, arith, none, some, List, [], ◌∷◌, find}
use global_payments_observab.Contracts.Enums.{received, allow, AmlDecision}
use global_payments_observab.Contracts.Records.{Payment, OutboxEvent, Snapshot}
use global_payments_observab.Db.{
  Db, Row, insert_row, get_snapshot, get_by_merchant_and_idempotency, commit_rows,
}
use global_payments_observab.Payments.Create.Types.{ControlDecision}
use global_payments_observab.Payments.Create.Persist.{transaction_rows, response_payload}
use global_payments_observab.Payments.Create.Execute.{handle}
use global_payments_observab.Payments.Create.Ending.{Ending}
use global_payments_observab.Payments.Create.Refines.{handle_refines}
use global_payments_observab.Payments.Create.Idempotent.{
  OthersKeep, IsPaymentOf, Queued, IsAnswerOf, transaction_stores,
}
use global_payments_observab.Payments.Create.Retry.{IsRecorded, handle-IsRecorded}
use global_payments_observab.Tests.Fixtures.{services, run, context, request, world, empty_db}

handle_refines_example :
    Ending run context request empty_db
      (handle services run context request world).0
      (handle services run context request world).1.db
handle_refines_example = handle_refines services run context request world refl

-- Other sessions that do nothing keep every property of the tables.
idle : (P : Db → Type 0) → OthersKeep run P
idle P = record { meanwhile = λ db p. p; sleeping = λ n db p. p }

empty-IsRecorded : IsRecorded empty_db
unfolding find get_by_merchant_and_idempotency
empty-IsRecorded = record { has_snapshot = λ m k p h. absurd (ground arith) }

handle-IsRecorded_example : IsRecorded (handle services run context request world).1.db
handle-IsRecorded_example =
    handle-IsRecorded services run context request world (idle IsRecorded) empty-IsRecorded refl

decision : ControlDecision
decision = record {
  risk_score = 0;
  risk_decision = allow;
  aml_decision = AmlDecision.allow;
  final_status = received;
}

abbrev rows : List Row
rows = transaction_rows run context request decision (response_payload run decision 1) 2

after_commit : Db
after_commit = elim (commit_rows rows empty_db) [ none ↦ empty_db | some db ↦ db ]

committed : commit_rows rows empty_db ≡ some after_commit
unfolding commit_rows after_commit transaction_rows insert_row find response_payload decision
committed = refl

transaction_stores_example :
    (get_by_merchant_and_idempotency "shop" "key" empty_db ≡ none)
    × (get_snapshot "shop" "key" empty_db ≡ none)
    × (p : Payment) × (es : List OutboxEvent) × (s : Snapshot) × (after_commit.payments ≡ p ∷ [])
    × (after_commit.outbox ≡ es)
    × (after_commit.snapshots ≡ s ∷ [])
    × (IsPaymentOf run context request decision (response_payload run decision 1) p)
    × (Queued run context (response_payload run decision 1) 2 received es)
    × (IsAnswerOf context (response_payload run decision 1) s)
unfolding response_payload decision
transaction_stores_example =
    transaction_stores run context request decision (response_payload run decision 1) 2 empty_db
      after_commit committed
