-- ===== src/Processor/Fanout/Delivery.antt =====
-- No event leaves the outbox as sent before the bus has taken it, through whole iterations of the worker.
use mathlib.Core.Path.{subst}
use mathlib.Core.Logic.{◌≢◌}
use global_payments_observab.Base.{
  ℕ, suc, ◌+◌, ◌≤◌, ◌≡◌, sym, ◌∙◌, inl, inr, Bool, true, false, ◌&&◌, List, [], ◌∷◌, arith,
  Bool-cases, leb, ==_iff, All, All-map,
}
use global_payments_observab.Base.Exec.{Outcome-cases}
use global_payments_observab.Contracts.Enums.{OutboxStatus, sent}
use global_payments_observab.Contracts.Records.{OutboxEvent}
use global_payments_observab.Db.{Db}
use global_payments_observab.Processor.World.{World, Http, Run}
use global_payments_observab.Processor.Repositories.{
  has_event_id, is_requested, is_due, fetch_pending_requested, fetch_pending_fanout_events,
  event_delay,
}
use global_payments_observab.Processor.Fetch.{All-fetched}
use global_payments_observab.Processor.Worker.{process_event, process_events}
use global_payments_observab.Processor.Worker.Rows.{Holds, IsKept, Holds-map, updates, commit-Holds}
use global_payments_observab.Processor.Worker.Rows.Process.{process_event-Holds}
use global_payments_observab.Processor.Fanout.{
  Bus, publish_fanout_event, handle_fanout_failure, publish_events, publish_fanout_events, run_once,
}

-- What a bus accepts, it has accepted for good.
pub record Accepts (B : Bus) : Type 1 where
  pub Accepted : B.State → ℕ → Type 0
  pub accepts :
      (e : OutboxEvent) (s : B.State)
      → (B.publish e s).0 ≡ true
      → Accepted (B.publish e s).1 e.event_id
  pub keeps : (e : OutboxEvent) (s : B.State) (i : ℕ) → Accepted s i → Accepted (B.publish e s).1 i

and_left : (a b : Bool) → (a && b) ≡ true → a ≡ true
and_left a b h = ground arith

module _ {B : Bus} (A : Accepts B) (is_request : ℕ → Bool) where
  -- A row of the outbox: its UUID tells the events that ask for a payment, and another one that is sent
  -- was accepted by the bus.
  abbrev pub Delivered : B.State → ℕ → OutboxEvent → Type 0
  Delivered s n x =
      (is_requested x.event_type ≡ is_request x.event_id)
      × (is_requested x.event_type ≡ false → x.status ≡ sent → A.Accepted s x.event_id)

  -- No request has a UUID to come.
  abbrev pub Unused : ℕ → Type 0
  Unused n = (i : ℕ) → n ≤ i → is_request i ≡ false

  Delivered-kept :
      (s : B.State) (run : Run) (e : OutboxEvent)
      → is_request e.event_id ≡ true
      → IsKept run e Unused (Delivered s)
  Delivered-kept s run e asks = record {
    next_valid = λ n unused i le. unused i (omega arith);
    later = λ n x h. h;
    changes = λ n x status attempts next_attempt_at own h.
        (h.0, λ fanout _. absurd (asks_not x own h.0 fanout));
    emits = λ n aggregate_id event_type payload unused fanout.
        (fanout ∙ sym (unused n (omega arith)), λ _ is_sent. absurd (ground arith));
  }
    where
      asks_not :
          (x : OutboxEvent)
          → has_event_id e.event_id x ≡ true
          → is_requested x.event_type ≡ is_request x.event_id
          → is_requested x.event_type ≢ false
      asks_not x own same fanout =
          let is_own = (==_iff x.event_id e.event_id).0 own in
          let asks' : is_request x.event_id ≡ true = rw is_own asks in absurd (ground arith)

  -- the batch of a session
  asks_all :
      (s : B.State) (n limit now : ℕ) (db : Db)
      → All (Delivered s n) db.outbox
      → All
          (λ (e : OutboxEvent). is_request e.event_id ≡ true)
          (fetch_pending_requested limit now db)
  asks_all s n limit now db h =
      All-map _ _ (fetch_pending_requested limit now db)
        (λ e h. sym h.0.0 ∙ and_left (is_requested e.event_type) (is_due now e) h.1)
        (All-fetched (Delivered s n) limit now db h)

  module _ {H : Http} where
    -- The tables, what was committed and what the session has added.
    abbrev pub IsDelivered : World H × B.State → Type 0
    IsDelivered (w, s) = Holds Unused (Delivered s) w

    process_events_deliver :
        (s : B.State) (runs : ℕ → Run) (es : List OutboxEvent) (w : World H)
        → ((i : ℕ) (db : Db) → ((runs i).meanwhile db).outbox ≡ db.outbox)
        → All (λ (e : OutboxEvent). is_request e.event_id ≡ true) es
        → Holds Unused (Delivered s) w
        → Holds Unused (Delivered s) (process_events runs es w).1
    unfolding process_events
    process_events_deliver s runs [] w quiet asks h = h
    process_events_deliver s runs (e ∷ es) w quiet asks h =
        let run = runs e.event_id in
        let h' =
          process_event-Holds Unused (Delivered s) run e (Delivered-kept s run e asks.0) w
            (λ db h. rw (quiet e.event_id db) h) h in
        elim (Outcome-cases (process_event run e w).0) [
          | inl (_, done) ↦
              rw done (process_events_deliver s runs es (process_event run e w).1 quiet asks.1 h')
          | inr (_, raised) ↦ rw raised h'
        ]

    fanout_failure_delivers :
        (s : B.State) (run : Run) (e : OutboxEvent) (w : World H)
        → Holds Unused (Delivered s) w
        → Holds Unused (Delivered s) (handle_fanout_failure run e w)
    unfolding handle_fanout_failure
    fanout_failure_delivers s run e w h =
        let attempts = suc e.attempts in
        elim (Bool-cases (leb run.max_event_attempts attempts)) [
          | inl last ↦ rw last (
              updates Unused (Delivered s) run e.event_id
                (λ x. record x { status = OutboxStatus.failed; attempts = attempts }) w
                (λ x own d. (d.0, λ _ is_sent. absurd (ground arith))) h)
          | inr more ↦ rw more (
              updates Unused (Delivered s) run e.event_id
                (λ x. record x {
                  attempts = attempts;
                  next_attempt_at = run.clock + event_delay run attempts;
                })
                w (λ x own d. d) h)
        ]

    publish_fanout_event_delivers :
        (run : Run) (e : OutboxEvent) (ws : World H × B.State)
        → IsDelivered ws
        → IsDelivered (publish_fanout_event B run e ws).1
    unfolding publish_fanout_event handle_fanout_failure
    publish_fanout_event_delivers run e (w, s) h =
        let s' = (B.publish e s).1 in
        let h' : Holds Unused (Delivered s') w =
          Holds-map Unused (Delivered s) (Delivered s') w
            (λ n x d. (d.0, λ fanout is_sent. A.keeps e s x.event_id (d.1 fanout is_sent))) h in
        commit-Holds Unused (Delivered s') run _ (elim (Bool-cases (B.publish e s).0) [
          | inl taken ↦ rw taken (
              updates Unused (Delivered s') run e.event_id (λ x. record x { status = sent }) w
                (λ x own d. (
                  d.0,
                  λ _ _.
                      subst (A.Accepted s') (sym ((==_iff x.event_id e.event_id).0 own))
                        (A.accepts e s taken),
                ))
                h')
          | inr raised ↦ rw raised (fanout_failure_delivers s' run e w h')
        ])

    publish_events_deliver :
        (runs : ℕ → Run) (es : List OutboxEvent) (ws : World H × B.State)
        → IsDelivered ws
        → IsDelivered (publish_events B runs es ws).1
    unfolding publish_events
    publish_events_deliver runs [] ws h = h
    publish_events_deliver runs (e ∷ es) ws h =
        let h' = publish_fanout_event_delivers (runs e.event_id) e ws h in
        elim (Outcome-cases (publish_fanout_event B (runs e.event_id) e ws).0) [
          | inl (_, done) ↦
              rw done (
                publish_events_deliver runs es (publish_fanout_event B (runs e.event_id) e ws).1 h')
          | inr (_, raised) ↦ rw raised h'
        ]

    publish_fanout_events_deliver :
        (runs : ℕ → Run) (batch_size now : ℕ) (ws : World H × B.State)
        → IsDelivered ws
        → IsDelivered (publish_fanout_events B runs batch_size now ws).1
    unfolding publish_fanout_events
    publish_fanout_events_deliver runs batch_size now (w, s) h = elim (Bool-cases B.is_enabled) [
      | inl enabled ↦
          rw enabled
            (publish_events_deliver runs (fetch_pending_fanout_events batch_size now w.db) (w, s) h)
      | inr disabled ↦ rw disabled h
    ]

    -- Suppose that a UUID tells whether its event asks for a payment, that each other event that is sent
    -- was accepted by the bus, and that other sessions leave the outbox while the worker reads a
    -- payment. Then an iteration of the worker, whatever providers and bus answer and wherever it
    -- stops, leaves it so: no report is sent that the bus has not accepted.
    pub run_once_delivers :
        (runs : ℕ → Run) (batch_size requested_at fanout_at : ℕ) (ws : World H × B.State)
        → ((i : ℕ) (db : Db) → ((runs i).meanwhile db).outbox ≡ db.outbox)
        → IsDelivered ws
        → IsDelivered (run_once B runs batch_size requested_at fanout_at ws).1
    unfolding run_once
    run_once_delivers runs batch_size requested_at fanout_at (w, s) quiet h =
        let es = fetch_pending_requested batch_size requested_at w.db in
        let h' =
          process_events_deliver s runs es w quiet
            (asks_all s w.next_uuid batch_size requested_at w.db h.db) h in
        elim (Outcome-cases (process_events runs es w).0) [
          | inl (_, done) ↦ rw done (
              publish_fanout_events_deliver runs batch_size fanout_at
                ((process_events runs es w).1, s) h')
          | inr (_, raised) ↦ rw raised h'
        ]
