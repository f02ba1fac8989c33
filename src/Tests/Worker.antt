-- ===== src/Tests/Worker.antt =====
-- The worker, its fanout and its publishers, run.
use mathlib.Core.Path.{◌≡◌}
use global_payments_observab.Db.{Db}
use global_payments_observab.Base.{count}
use global_payments_observab.Base.{ℕ, suc, refl, arith, none, some, [], ◌∷◌, find, false}
use global_payments_observab.Base.Exec.{ok, err}
use global_payments_observab.Contracts.Enums.{
  sent, PaymentStatus, OutboxStatus, payment_requested, pending,
}
use global_payments_observab.Contracts.Records.{Payment, OutboxEvent, requested}
use global_payments_observab.Db.{get_by_payment_id}
use global_payments_observab.Resilience.Breaker.{
  new_breaker, opened, allow_call, circuit_is_open, can_half_open,
}
use global_payments_observab.Processor.World.{Http, World, Run, timed_out}
use global_payments_observab.Base.{All, ◌≤◌, true}
use global_payments_observab.Processor.Worker.{process_event}
use global_payments_observab.Processor.Worker.OpenBreaker.{open_breaker_fails_payment}
use global_payments_observab.Processor.Repositories.{has_event_id}
use global_payments_observab.Processor.Worker.Laws.{Ended, process_event_ends}
use global_payments_observab.Tests.Fixtures.{stored_db, payment, strokes}
use global_payments_observab.Base.{Bool, Bool-cases, inl, inr, ==_iff, ◌==◌, if◌then◌else◌}
use global_payments_observab.Contracts.Enums.{payment_confirmed}
use global_payments_observab.Contracts.Records.{confirmed}
use global_payments_observab.Processor.Worker.Settles.{rounds_of}
use global_payments_observab.Processor.Worker.Settles.Laws.{IsReady, Settled, event_settles}
use global_payments_observab.Processor.Worker.Stale.{stale_event_is_sent}
use global_payments_observab.Processor.Fanout.{Bus, publish_fanout_event, run_once}
use global_payments_observab.Processor.Fanout.Laws.{Publishes, publish_fanout_event_ends}
use global_payments_observab.Processor.Fanout.Delivery.{
  Accepts, IsDelivered, Delivered, run_once_delivers,
}

found : get_by_payment_id 7 stored_db ≡ some payment
unfolding get_by_payment_id find
found = refl

-- A provider that never answers, and an event that asks for the payment.
abbrev silent : Http
silent = record { State = ℕ; post = λ path request n. (timed_out, suc n); decimal = strokes }

abbrev pub event : OutboxEvent
event = record {
  event_id = 3;
  aggregate_id = 7;
  event_type = payment_requested;
  payload = requested 7 "shop" "trace" none;
  status = pending;
  created_at = 1000;
  attempts = 0;
  next_attempt_at = 1000;
}

abbrev alone : Run
alone = record {
  max_event_attempts = 5;
  breaker_config = record { failure_threshold = 3; recovery_timeout_seconds = 10 };
  allow_clock = 1;
  failure_clock = 2;
  clock = 2_000_000;
  uniform = λ spread. 0;
  meanwhile = λ db. db;
  synchronized = suc;
}

abbrev worker : World silent
worker =
    let db = record stored_db { outbox = event ∷ [] } in
    record {
      db = db;
      committed = db;
      added = [];
      next_uuid = 9;
      breakers = λ _. new_breaker;
      http = 0;
    }

process_event_ends_example :
    let (r, w') = process_event alone event worker in
    (r ≡ ok tt) × (w'.added ≡ []) × (w'.committed ≡ w'.db) × Ended alone event 7 w'.committed
unfolding find get_by_payment_id
process_event_ends_example =
    process_event_ends alone event payment worker refl refl found refl refl refl

-- The same event while the breaker is open.
abbrev tripped : World silent
tripped = record worker {
  breakers = λ name. record { state = opened; failures = 3; opened_at = some 1 };
}

blocked_call :
    (allow_call alone.breaker_config alone.allow_clock (tripped.breakers "PIX")).0
    ≡ err circuit_is_open
unfolding allow_call can_half_open
blocked_call = refl

open_breaker_fails_payment_example :
    let w' = (process_event alone event tripped).1 in
    (w'.http ≡ 0)
    × ((q : Payment) × (get_by_payment_id 7 w'.committed ≡ some q)
        × (q.status ≡ PaymentStatus.failed)
        × (q.last_error ≡ some "Unexpected processor failure"))
    × ((x : OutboxEvent) × (find (has_event_id 3) w'.committed.outbox ≡ some x)
        × (x.status ≡ OutboxStatus.failed))
unfolding find get_by_payment_id
open_breaker_fails_payment_example =
    open_breaker_fails_payment alone event payment tripped refl refl found refl refl blocked_call

ready : IsReady 3 event payment worker
unfolding find get_by_payment_id
ready = record {
  none_added = refl;
  is_committed = refl;
  payment = found;
  event = refl;
  waits = refl;
  used = (omega arith, tt);
}

event_settles_example : Settled 7 3 5 (rounds_of (λ i. alone) 3 5 worker).db
event_settles_example =
    event_settles (λ i. alone) 5 3 4 event payment worker (λ i db. refl) (λ i. refl) ready
      (omega arith)

-- A bus that takes every event and keeps its UUID, and a report that waits for it.
abbrev recorder : Bus
recorder = record {
  State = ℕ → Bool;
  is_enabled = true;
  publish = λ e s. (true, λ i. if i == e.event_id then true else s i);
}

abbrev pub report : OutboxEvent
report = record event {
  event_id = 4;
  event_type = payment_confirmed;
  payload = confirmed 7 "shop" "pix-provider" "reference";
}

abbrev reporting : World silent
reporting =
    let db = record worker.db { outbox = event ∷ report ∷ [] } in
    record worker { db = db; committed = db }

publish_fanout_event_ends_example :
    let (returned, s') = recorder.publish report (λ _. false) in
    let (r, (w', s'')) = publish_fanout_event recorder alone report (reporting, λ _. false) in
    (r ≡ ok tt)
    × (s'' ≡ s')
    × (w'.committed ≡ w'.db)
    × (w'.committed.payments ≡ reporting.db.payments)
    × ((x : OutboxEvent) × (find (has_event_id 4) w'.committed.outbox ≡ some x)
        × Publishes 5 0 2_000_000 returned x.status x.attempts x.next_attempt_at)
unfolding find
publish_fanout_event_ends_example =
    publish_fanout_event_ends recorder alone report reporting (λ _. false) (λ spread. omega arith)
      refl refl refl

kept : Accepts recorder
kept = record {
  Accepted = λ s i. s i ≡ true;
  accepts = λ e s taken. rw ((==_iff e.event_id e.event_id).1 refl) refl;
  keeps = λ e s i h. elim (Bool-cases (i == e.event_id)) [
    | inl own ↦ rw own refl
    | inr other ↦ rw other h
  ];
}

abbrev asks : ℕ → Bool
asks i = i == 3

none_to_come : (i : ℕ) → 9 ≤ i → asks i ≡ false
none_to_come i le = ground arith

delivered : IsDelivered kept asks (reporting, λ _. false)
delivered = record { valid = none_to_come; db = rows; committed = rows; added = tt }
  where
    rows : All (Delivered kept asks (λ _. false) 9) (event ∷ report ∷ [])
    rows = (
      (refl, λ _ is_sent. absurd (ground arith)),
      ((refl, λ _ is_sent. absurd (ground arith)), tt),
    )

run_once_delivers_example :
    IsDelivered kept asks (run_once recorder (λ i. alone) 10 2000 2000 (reporting, λ _. false)).1
run_once_delivers_example =
    run_once_delivers kept asks (λ i. alone) 10 2000 2000 (reporting, λ _. false) (λ i db. refl)
      delivered

-- Tables in which another worker has tried the payment and put the event off.
abbrev tried_db : Db
tried_db = record stored_db {
  payments = record payment { status = PaymentStatus.processing; version = 2 } ∷ [];
  outbox = record event { attempts = 1; next_attempt_at = 5000 } ∷ [];
}

stale_event_is_sent_example :
    let (r, w') = process_event (record alone { meanwhile = λ _. tried_db }) event worker in
    (r ≡ ok tt)
    × (w'.http ≡ 0)
    × (w'.committed.payments ≡ tried_db.payments)
    × (find (has_event_id 3) w'.committed.outbox
        ≡ some (record event { status = sent; attempts = 1; next_attempt_at = 5000 }))
unfolding find count get_by_payment_id
stale_event_is_sent_example =
    stale_event_is_sent (record alone { meanwhile = λ _. tried_db }) event
      (record event { attempts = 1; next_attempt_at = 5000 }) payment worker refl found refl refl
