-- ===== src/Processor/Repositories.antt =====
-- repositories/payment_repository.py, repositories/outbox_repository.py and the commands
-- mark_processing.py and finalize_payment.py, on the worker's session.
use global_payments_observab.Base.{
  ℕ, suc, ◌+◌, String, Bool, true, false, not, ◌&&◌, Option, none, some, List, [], ◌∷◌, ◌++◌, ◌==◌,
  leb, count, select, take, update, if◌then◌else◌,
}
use global_payments_observab.Base.Exec.{Outcome, ok, err}
use global_payments_observab.Contracts.Enums.{
  PaymentStatus, processing, OutboxStatus, pending, sent, EventType, payment_requested,
  payment_confirmed, payment_failed, is_pending,
}
use global_payments_observab.Contracts.Records.{Payment, OutboxEvent, Payload, confirmed, failed}
use global_payments_observab.Db.{Db, outbox_row, has_payment_id, commit_rows}
use global_payments_observab.Resilience.Retry.{exponential_backoff}
use global_payments_observab.Processor.World.{World, Http, Action, Run, Failure, integrity_error}

abbrev pub has_version : Payment → Payment → Bool
has_version p q = (q.payment_id == p.payment_id) && (q.version == p.version)

-- `mark_processing`: the rows of the version that was read, and their number
unfoldable pub mark_processing : Payment → Db → ℕ × Db
mark_processing p db = (
  count (has_version p) db.payments,
  record db {
    payments =
        update (has_version p) (λ q. record q { status = processing; version = suc p.version })
          db.payments;
  },
)

unfoldable pub mark_confirmed : Payment → Db → Db
mark_confirmed p db = record db {
  payments =
      update (has_payment_id p.payment_id)
        (λ q. record q {
          status = PaymentStatus.confirmed;
          version = p.version + 2;
          last_error = none;
        })
        db.payments;
}

unfoldable pub mark_failed : Payment → String → Db → Db
mark_failed p reason db = record db {
  payments =
      update (has_payment_id p.payment_id)
        (λ q. record q {
          status = PaymentStatus.failed;
          version = p.version + 2;
          last_error = some reason;
        })
        db.payments;
}

abbrev pub has_event_id : ℕ → OutboxEvent → Bool
has_event_id i e = e.event_id == i

abbrev pub update_event : ℕ → (OutboxEvent → OutboxEvent) → Db → Db
update_event i f db = record db { outbox = update (has_event_id i) f db.outbox }

-- `mark_sent`, `mark_failed` and `reschedule` of the outbox
abbrev pub mark_sent : ℕ → Db → Db
mark_sent i = update_event i (λ e. record e { status = sent })

abbrev pub mark_event_failed : ℕ → ℕ → Db → Db
mark_event_failed i attempts =
    update_event i (λ e. record e { status = OutboxStatus.failed; attempts = attempts })

abbrev pub reschedule : ℕ → ℕ → ℕ → Db → Db
reschedule i attempts next_attempt_at =
    update_event i (λ e. record e { attempts = attempts; next_attempt_at = next_attempt_at })

-- The delay of `exponential_backoff(attempts, base_seconds=0.5, cap_seconds=5.0)`, in microseconds.
unfoldable pub event_delay : Run → ℕ → ℕ
event_delay run attempts = exponential_backoff run.uniform attempts 125000 1250000

-- The queries of the worker's loop. Rows of one `created_at` come in any order in SQL: here in that of
-- the table.
unfoldable pub insert_by_age : OutboxEvent → List OutboxEvent → List OutboxEvent
insert_by_age e [] = e ∷ []
insert_by_age e (x ∷ xs) =
    let rest = insert_by_age e xs in if leb e.created_at x.created_at then e ∷ x ∷ xs else x ∷ rest

unfoldable pub order_by_created_at : List OutboxEvent → List OutboxEvent
unfolding insert_by_age
order_by_created_at [] = []
order_by_created_at (x ∷ xs) = insert_by_age x (order_by_created_at xs)

abbrev pub is_requested : EventType → Bool
is_requested payment_requested = true
is_requested _ = false

abbrev pub is_due : ℕ → OutboxEvent → Bool
is_due now e = is_pending e.status && leb e.next_attempt_at now

unfoldable pub fetch_pending_requested : ℕ → ℕ → Db → List OutboxEvent
fetch_pending_requested limit now db = take limit (
    order_by_created_at
      (select (λ (e : OutboxEvent). is_requested e.event_type && is_due now e) db.outbox))

unfoldable pub fetch_pending_fanout_events : ℕ → ℕ → Db → List OutboxEvent
fetch_pending_fanout_events limit now db = take limit (
    order_by_created_at
      (select (λ (e : OutboxEvent). not (is_requested e.event_type) && is_due now e) db.outbox))

unfoldable pub backlog_size : Db → ℕ
backlog_size db =
    count (λ (e : OutboxEvent). is_pending e.status && is_requested e.event_type) db.outbox

module _ {H : Http} (run : Run) where
  abbrev pub in_db : (Db → Db) → World H → World H
  in_db f w = record w { db = f w.db }

  -- `emit_event`, with the defaults of the columns
  unfoldable pub emit_event : ℕ → EventType → Payload → World H → World H
  emit_event aggregate_id event_type payload w =
      let e : OutboxEvent = record {
        event_id = w.next_uuid;
        aggregate_id = aggregate_id;
        event_type = event_type;
        payload = payload;
        status = pending;
        created_at = run.clock;
        attempts = 0;
        next_attempt_at = run.clock;
      } in
      record w { added = w.added ++ outbox_row e ∷ []; next_uuid = suc w.next_uuid }

  -- `FinalizePaymentCommand.confirm`
  unfoldable pub confirm : Payment → String → String → World H → World H
  unfolding mark_confirmed emit_event
  confirm p provider reference w =
      emit_event p.payment_id payment_confirmed
        (confirmed p.payment_id p.merchant_id provider reference) (in_db (mark_confirmed p) w)

  -- `FinalizePaymentCommand.fail`
  unfoldable pub fail : Payment → String → String → String → World H → World H
  unfolding mark_failed emit_event
  fail p provider category reason w =
      emit_event p.payment_id payment_failed
        (failed p.payment_id p.merchant_id provider category reason)
        (in_db (mark_failed p reason) w)

  abbrev pub commit_result : Option Db → World H → Outcome Failure (Unit {0}) × World H
  commit_result none w = (err integrity_error, record w { db = w.committed; added = [] })
  commit_result (some db) w = (ok tt, record w { db = db; committed = db; added = [] })

  -- `session.commit()`: on an error the session is rolled back.
  unfoldable pub commit : Action H (Unit {0})
  commit w = commit_result (commit_rows w.added w.db) w
