-- ===== src/Processor/Worker.antt =====
-- workers/outbox_worker.py.
pub mod Session
pub mod Laws
pub mod OpenBreaker
pub mod Rows
pub mod Settles
pub mod Stale
use global_payments_observab.Base.{
  ℕ, zero, suc, ◌+◌, String, Bool, true, false, not, ◌&&◌, ◌||◌, Option, none, some, List, [], ◌∷◌,
  ◌==◌, leb, find, if◌then◌else◌,
}
use global_payments_observab.Base.Exec.{Outcome, ok, err, pure, modify, ◌>>=◌, ◌>>◌}
use global_payments_observab.Contracts.Enums.{ErrorCategory, category_value}
use global_payments_observab.Contracts.Records.{Payment, OutboxEvent, ProviderResponse}
use global_payments_observab.Rails.{provider_name_for_method}
use global_payments_observab.Db.{Db, get_by_payment_id}
use global_payments_observab.Processor.World.{World, Http, Action, Run, Failure, processor_error}
use global_payments_observab.Processor.Repositories.{
  in_db, mark_processing, confirm, fail, mark_sent, mark_event_failed, reschedule, event_delay,
  commit, fetch_pending_requested,
}
use global_payments_observab.Processor.Provider.{call_provider}

-- the payment in memory after its update
abbrev pub in_memory : Run → Payment → Payment
in_memory run p = record p { version = run.synchronized p.version }

module _ {H : Http} (run : Run) where
  -- `_handle_processor_error`
  unfoldable pub handle_processor_error :
      OutboxEvent → Payment → ErrorCategory → String → World H → World H
  handle_processor_error e p category message w =
      let attempts = suc e.attempts in
      let name = provider_name_for_method p.method in
      if leb run.max_event_attempts attempts
      then in_db run (mark_event_failed e.event_id attempts)
          (fail run p name (category_value category) message w)
      else in_db run (reschedule e.event_id attempts (run.clock + event_delay run attempts)) w

  abbrev pub by_category :
      OutboxEvent → Payment → Option (ErrorCategory × String) → World H → World H
  by_category e p (some (category, message)) w = handle_processor_error e p category message w
  by_category e p none w =
      in_db run (mark_event_failed e.event_id (suc e.attempts))
        (fail run p "unknown" "unexpected" "Unexpected processor failure" w)

  -- the `except` clauses of `_process_payment_event`
  abbrev pub on_error : OutboxEvent → Payment → Failure → World H → World H
  on_error e p failure w = by_category e p (processor_error failure) w

  -- the body of the `try`, after the provider's answer
  abbrev pub on_response : OutboxEvent → Payment → ProviderResponse → World H → World H
  on_response e p response w =
      let settled =
        if response.confirmed && not response.partial_failure
        then confirm run p response.provider response.provider_reference w
        else fail run p response.provider "provider_partial_failure" "Partial failure" w in
      in_db run (mark_sent e.event_id) settled

  abbrev pub settle : OutboxEvent → Payment → Outcome Failure ProviderResponse → World H → World H
  settle e p (ok response) w = on_response e p response w
  settle e p (err failure) w = on_error e p failure w

  -- `_process_payment_event`
  unfoldable pub process_payment_event : OutboxEvent → Payment → Action H (Unit {0})
  unfolding handle_processor_error
  process_payment_event e p w = let (r, w') = call_provider run p w in commit run (settle e p r w')

  abbrev pub after_marking : OutboxEvent → Payment → ℕ × Db → Action H (Unit {0})
  after_marking e p (matched, db) w =
      let w' = record w { db = db } in
      if matched == 0
      then commit run (in_db run (mark_sent e.event_id) w')
      else process_payment_event e (in_memory run p) w'

  abbrev pub process_found : OutboxEvent → Option Payment → Action H (Unit {0})
  process_found e none w = commit run (in_db run (mark_event_failed e.event_id (suc e.attempts)) w)
  process_found e (some p) w = after_marking e p (mark_processing p (run.meanwhile w.db)) w

  -- `_process_event`
  unfoldable pub process_event : OutboxEvent → Action H (Unit {0})
  unfolding process_payment_event
  process_event e w = process_found e (get_by_payment_id e.aggregate_id w.db) w

-- the loop of `run_once` over a batch, each event at readings of its own: an error ends it
unfoldable pub process_events : {H : Http} → (ℕ → Run) → List OutboxEvent → Action H (Unit {0})
unfolding process_event
process_events runs [] = pure tt
process_events runs (e ∷ es) = process_event (runs e.event_id) e >> process_events runs es
