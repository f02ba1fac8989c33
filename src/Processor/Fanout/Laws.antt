-- ===== src/Processor/Fanout/Laws.antt =====
-- What the publishing of one event comes to.
use global_payments_observab.Base.{
  ℕ, suc, ◌+◌, ◌*◌, ◌≤◌, ◌<◌, ◌≡◌, refl, inl, inr, Bool, true, false, some, [], arith, Bool-cases,
  leb, find, find-update, find_holds, leb→le,
}
use global_payments_observab.Base.Exec.{ok}
use global_payments_observab.Contracts.Enums.{OutboxStatus, pending, sent}
use global_payments_observab.Contracts.Records.{OutboxEvent}
use global_payments_observab.Db.{commit_rows}
use global_payments_observab.Resilience.Retry.{backoff_bounds}
use global_payments_observab.Processor.World.{World, Http, Run}
use global_payments_observab.Processor.Repositories.{
  in_db, has_event_id, event_delay, update_event, commit,
}
use global_payments_observab.Processor.Fanout.{Bus, publish_fanout_event, handle_fanout_failure}

-- How a pending event ends, after `before` attempts, by whether the bus took it: its status, its attempts
-- and the time of its next attempt, in microseconds.
pub data Publishes (max_event_attempts before clock : ℕ)
    : Bool → OutboxStatus → ℕ → ℕ → Type 0 where
  taken :
      (next_attempt_at : ℕ)
      → Publishes max_event_attempts before clock true sent before next_attempt_at
  given_up :
      (next_attempt_at : ℕ)
      → max_event_attempts ≤ suc before
      → Publishes max_event_attempts before clock false OutboxStatus.failed
          (suc before)
          next_attempt_at
  put_off :
      (next_attempt_at : ℕ)
      → suc before < max_event_attempts
      → clock + 375_000 ≤ next_attempt_at
      → next_attempt_at ≤ clock + 6_250_000
      → Publishes max_event_attempts before clock false pending (suc before) next_attempt_at

delay_bounds :
    (run : Run) (attempts : ℕ)
    → ((spread : ℕ) → run.uniform spread ≤ 2 * spread)
    → (375_000 ≤ event_delay run attempts) × (event_delay run attempts ≤ 6_250_000)
unfolding event_delay
delay_bounds run attempts draws =
    let (low, high) = backoff_bounds run.uniform attempts 125_000 1_250_000 draws (omega arith) in
    (omega arith, omega arith)

module _ {H : Http} (B : Bus) (run : Run) (e : OutboxEvent) where
  -- an update of the event that the session commits
  updated :
      (w : World H) (g : OutboxEvent → OutboxEvent)
      → ((x : OutboxEvent) → (g x).event_id ≡ x.event_id)
      → w.added ≡ []
      → find (has_event_id e.event_id) w.db.outbox ≡ some e
      → let (r, w') = commit run (in_db run (update_event e.event_id g) w) in
        (r ≡ ok tt)
        × (w'.committed ≡ w'.db)
        × (w'.committed.payments ≡ w.db.payments)
        × (find (has_event_id e.event_id) w'.committed.outbox ≡ some (g e))
  unfolding commit commit_rows
  updated w g keeps_id none_added event =
      let moved =
        find-update (has_event_id e.event_id) (has_event_id e.event_id) g (λ x. rw keeps_id refl)
          w.db.outbox e event (find_holds (has_event_id e.event_id) w.db.outbox e event) in
      rw none_added (refl, refl, refl, moved)

  -- A pending event that the fanout publishes, in a session that has added nothing, is sent exactly if
  -- the bus took it. Otherwise it counts one attempt more: it fails at the limit, and below it stays
  -- pending until 0.375 to 6.25 seconds later, if the backoff draws from its range. The
  -- transaction commits in each case and touches no payment.
  pub publish_fanout_event_ends :
      (w : World H) (s : B.State)
      → ((spread : ℕ) → run.uniform spread ≤ 2 * spread)
      → w.added ≡ []
      → find (has_event_id e.event_id) w.db.outbox ≡ some e
      → e.status ≡ pending
      → let (returned, s') = B.publish e s in
        let (r, (w', s'')) = publish_fanout_event B run e (w, s) in
        (r ≡ ok tt)
        × (s'' ≡ s')
        × (w'.committed ≡ w'.db)
        × (w'.committed.payments ≡ w.db.payments)
        × ((x : OutboxEvent) × (find (has_event_id e.event_id) w'.committed.outbox ≡ some x)
            × Publishes run.max_event_attempts e.attempts run.clock returned x.status x.attempts
                x.next_attempt_at)
  unfolding publish_fanout_event handle_fanout_failure
  publish_fanout_event_ends w s draws none_added event waits = elim (Bool-cases (B.publish e s).0) [
    | inl returned ↦
        let (ok_, stored, payments, found) =
          updated w (λ x. record x { status = sent }) (λ _. refl) none_added event in
        rw returned (ok_, refl, stored, payments, (_, found, taken e.next_attempt_at))
    | inr raised ↦
        let attempts = suc e.attempts in
        let (low, high) = delay_bounds run attempts draws in
        elim (Bool-cases (leb run.max_event_attempts attempts)) [
          | inl last ↦
              let (ok_, stored, payments, found) =
                updated w (λ x. record x { status = OutboxStatus.failed; attempts = attempts })
                  (λ _. refl) none_added event in
              rw (raised, last)
                (
                  ok_,
                  refl,
                  stored,
                  payments,
                  (_, found, given_up e.next_attempt_at (leb→le _ _ last)),
                )
          | inr more ↦
              let next_attempt_at = run.clock + event_delay run attempts in
              let (ok_, stored, payments, found) =
                updated w (λ x. record x { attempts = attempts; next_attempt_at = next_attempt_at })
                  (λ _. refl) none_added event in
              rw (raised, more)
                (
                  ok_,
                  refl,
                  stored,
                  payments,
                  (
                    _,
                    found,
                    rw waits (put_off next_attempt_at (ground arith) (omega arith) (omega arith)),
                  ),
                )
        ]
  ]
