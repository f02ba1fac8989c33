-- ===== src/Processor/Fanout.antt =====
-- workers/outbox_worker.py: the publishing of events to the bus, and a whole iteration of the worker.
pub mod Laws
pub mod Delivery
use global_payments_observab.Base.{
  ℕ, suc, ◌+◌, ◌-◌, Bool, true, false, ◌&&◌, Option, none, some, List, [], ◌∷◌, leb, min, select,
  if◌then◌else◌,
}
use global_payments_observab.Base.Exec.{Outcome, ok, err, Exec, pure, ◌>>◌}
use global_payments_observab.Contracts.Enums.{is_pending}
use global_payments_observab.Contracts.Records.{OutboxEvent}
use global_payments_observab.Db.{Db}
use global_payments_observab.Processor.World.{World, Http, Action, Run, Failure}
use global_payments_observab.Processor.Repositories.{
  in_db, mark_sent, mark_event_failed, reschedule, event_delay, commit, fetch_pending_requested,
  fetch_pending_fanout_events, is_requested,
}
use global_payments_observab.Processor.Worker.{process_events}

-- A publisher of event_bus/: whether it is enabled, and whether `publish` returns or raises.
pub record Bus : Type 1 where
  pub State : Type 0
  pub is_enabled : Bool
  pub publish : OutboxEvent → State → Bool × State

-- `oldest_pending_lag_seconds`, in microseconds
unfoldable pub oldest : List OutboxEvent → Option ℕ
oldest [] = none
oldest (x ∷ xs) = elim (oldest xs) [ none ↦ some x.created_at | some t ↦ some (min x.created_at t) ]

abbrev pub lag : ℕ → Option ℕ → ℕ
lag now none = 0
lag now (some t) = now - t

unfoldable pub oldest_pending_lag_seconds : ℕ → Db → ℕ
unfolding oldest
oldest_pending_lag_seconds now db = lag now (
    oldest
      (select (λ (e : OutboxEvent). is_pending e.status && is_requested e.event_type) db.outbox))

module _ {H : Http} where
  -- `_handle_fanout_failure`
  unfoldable pub handle_fanout_failure : Run → OutboxEvent → World H → World H
  handle_fanout_failure run e w =
      let attempts = suc e.attempts in
      if leb run.max_event_attempts attempts
      then in_db run (mark_event_failed e.event_id attempts) w
      else in_db run (reschedule e.event_id attempts (run.clock + event_delay run attempts)) w

  module _ (B : Bus) where
    -- `_publish_fanout_event`
    unfoldable pub publish_fanout_event :
        Run → OutboxEvent → Exec (World H × B.State) Failure (Unit {0})
    unfolding handle_fanout_failure
    publish_fanout_event run e (w, s) =
        let (returned, s') = B.publish e s in
        let (r, w') = commit run (
          if returned then in_db run (mark_sent e.event_id) w else handle_fanout_failure run e w) in
        (r, (w', s'))

    -- the loop of `_publish_fanout_events`
    unfoldable pub publish_events :
        (ℕ → Run) → List OutboxEvent → Exec (World H × B.State) Failure (Unit {0})
    unfolding publish_fanout_event
    publish_events runs [] = pure tt
    publish_events runs (e ∷ es) =
        publish_fanout_event (runs e.event_id) e >> publish_events runs es

    -- `_publish_fanout_events`, a batch as it is due at `now`
    unfoldable pub publish_fanout_events :
        (ℕ → Run) → ℕ → ℕ → Exec (World H × B.State) Failure (Unit {0})
    unfolding publish_events
    publish_fanout_events runs batch_size now (w, s) =
        let published =
          publish_events runs (fetch_pending_fanout_events batch_size now w.db) (w, s) in
        if B.is_enabled then published else (ok tt, (w, s))

    abbrev pub beside_bus : Action H (Unit {0}) → Exec (World H × B.State) Failure (Unit {0})
    beside_bus m (w, s) = let (r, w') = m w in (r, (w', s))

    -- `run_once`, its two queries at `requested_at` and `fanout_at`; its gauges are not kept.
    unfoldable pub run_once :
        (ℕ → Run)
        → (batch_size requested_at fanout_at : ℕ) → Exec (World H × B.State) Failure (Unit {0})
    unfolding publish_fanout_events
    run_once runs batch_size requested_at fanout_at (w, s) =
        (beside_bus (process_events runs (fetch_pending_requested batch_size requested_at w.db))
            >> publish_fanout_events runs batch_size fanout_at)
          (w, s)
