-- ===== src/Processor/Worker/Rows/Process.antt =====
-- The processing of an event keeps a property of every row of the outbox.
use global_payments_observab.Base.{
  ℕ, suc, ◌+◌, String, ◌≡◌, refl, inl, inr, false, not, ◌&&◌, [], ◌∷◌, Bool-cases, Option-cases,
  ◌==◌, leb, All, All-map, All-append,
}
use global_payments_observab.Base.Exec.{Outcome, ok, err}
use global_payments_observab.Contracts.Enums.{
  OutboxStatus, sent, category_value, EventType, payment_confirmed, payment_failed,
}
use global_payments_observab.Contracts.Records.{Payment, OutboxEvent, Payload, ProviderResponse}
use global_payments_observab.Rails.{provider_name_for_method}
use global_payments_observab.Db.{Db, outbox_row, get_by_payment_id}
use global_payments_observab.Processor.World.{World, Http, Run, Failure, processor_error}
use global_payments_observab.Processor.Repositories.{
  in_db, mark_processing, mark_confirmed, mark_failed, confirm, fail, mark_sent, mark_event_failed,
  event_delay, emit_event, is_requested,
}
use global_payments_observab.Processor.Provider.{call_provider}
use global_payments_observab.Processor.Worker.{
  handle_processor_error, process_event, process_payment_event, settle, in_memory,
}
use global_payments_observab.Processor.Worker.Session.{call_provider-keeps}
use global_payments_observab.Processor.Worker.Rows.{
  emitted, IsKept, RowHolds, rows_map, Holds, commit-Holds, updates,
}

module _ {H : Http} (Valid : ℕ → Type 0) (P : ℕ → OutboxEvent → Type 0) (run : Run)
    (e : OutboxEvent) (k : IsKept run e Valid P) where
  emit_event-Holds :
      (aggregate_id : ℕ) (event_type : EventType) (payload : Payload) (w : World H)
      → is_requested event_type ≡ false
      → Holds Valid P w
      → Holds Valid P (emit_event run aggregate_id event_type payload w)
  unfolding emit_event
  emit_event-Holds aggregate_id event_type payload w not_requested h =
      let n = w.next_uuid in
      record {
        valid = k.next_valid n h.valid;
        db = All-map (P n) (P (suc n)) w.db.outbox (k.later n) h.db;
        committed = All-map (P n) (P (suc n)) w.committed.outbox (k.later n) h.committed;
        added =
            All-append (RowHolds (P (suc n))) w.added
              (outbox_row (emitted run n aggregate_id event_type payload) ∷ [])
              (rows_map (P n) (P (suc n)) w.added (k.later n) h.added)
              (k.emits n aggregate_id event_type payload h.valid not_requested, tt);
      }

  fail-Holds :
      (p : Payment) (provider category reason : String) (w : World H)
      → Holds Valid P w
      → Holds Valid P (fail run p provider category reason w)
  unfolding fail mark_failed
  fail-Holds p provider category reason w h =
      emit_event-Holds p.payment_id payment_failed
        (Payload.failed p.payment_id p.merchant_id provider category reason)
        (in_db run (mark_failed p reason) w) refl
        (record { valid = h.valid; db = h.db; committed = h.committed; added = h.added })

  confirm-Holds :
      (p : Payment) (provider reference : String) (w : World H)
      → Holds Valid P w
      → Holds Valid P (confirm run p provider reference w)
  unfolding confirm mark_confirmed
  confirm-Holds p provider reference w h =
      emit_event-Holds p.payment_id payment_confirmed
        (Payload.confirmed p.payment_id p.merchant_id provider reference)
        (in_db run (mark_confirmed p) w) refl
        (record { valid = h.valid; db = h.db; committed = h.committed; added = h.added })

  sent-Holds : (w : World H) → Holds Valid P w → Holds Valid P (in_db run (mark_sent e.event_id) w)
  sent-Holds w =
      updates Valid P run e.event_id (λ x. record x { status = sent }) w
        (λ x own px. k.changes w.next_uuid x sent x.attempts x.next_attempt_at own px)

  failed-Holds :
      (attempts : ℕ) (w : World H)
      → Holds Valid P w
      → Holds Valid P (in_db run (mark_event_failed e.event_id attempts) w)
  failed-Holds attempts w =
      updates Valid P run e.event_id
        (λ x. record x { status = OutboxStatus.failed; attempts = attempts }) w
        (λ x own px. k.changes w.next_uuid x OutboxStatus.failed attempts x.next_attempt_at own px)

  settle-Holds :
      (p : Payment) (r : Outcome Failure ProviderResponse) (w : World H)
      → Holds Valid P w
      → Holds Valid P (settle run e p r w)
  unfolding handle_processor_error
  settle-Holds p (ok response) w h =
      elim (Bool-cases (response.confirmed && not response.partial_failure)) [
        | inl accepted ↦
            rw accepted
              (sent-Holds _ (confirm-Holds p response.provider response.provider_reference w h))
        | inr refused ↦ rw refused (
            sent-Holds _
              (fail-Holds p response.provider "provider_partial_failure" "Partial failure" w h))
      ]
  settle-Holds p (err failure) w h = elim (Option-cases (processor_error failure)) [
    | inl e₁ ↦ rw e₁ (
        failed-Holds (suc e.attempts) _
          (fail-Holds p "unknown" "unexpected" "Unexpected processor failure" w h))
    | inr ((category, message), e₁) ↦
        elim (Bool-cases (leb run.max_event_attempts (suc e.attempts))) [
          | inl last ↦
              rw (e₁, last)
                (failed-Holds (suc e.attempts) _ (
                  fail-Holds p (provider_name_for_method p.method) (category_value category) message
                    w h))
          | inr more ↦
              rw (e₁, more)
                (updates Valid P run e.event_id
                  (λ x. record x {
                    attempts = suc e.attempts;
                    next_attempt_at = run.clock + event_delay run (suc e.attempts);
                  })
                  w
                  (λ x own px.
                    k.changes w.next_uuid x x.status (suc e.attempts)
                      (run.clock + event_delay run (suc e.attempts)) own px)
                  h)
        ]
  ]

  process_payment_event-Holds :
      (p : Payment) (w : World H)
      → Holds Valid P w
      → Holds Valid P (process_payment_event run e p w).1
  unfolding process_payment_event
  process_payment_event-Holds p w h =
      let (r, w') = call_provider run p w in
      let same = call_provider-keeps run p w in
      commit-Holds Valid P run (settle run e p r w') (
        settle-Holds p r w' (record {
          valid = rw same.next_uuid h.valid;
          db = rw (same.db, same.next_uuid) h.db;
          committed = rw (same.committed, same.next_uuid) h.committed;
          added = rw (same.added, same.next_uuid) h.added;
        }))

  pub process_event-Holds :
      (w : World H)
      → ((db : Db) → All (P w.next_uuid) db.outbox → All (P w.next_uuid) (run.meanwhile db).outbox)
      → Holds Valid P w
      → Holds Valid P (process_event run e w).1
  unfolding process_event mark_processing
  process_event-Holds w quiet h = elim (Option-cases (get_by_payment_id e.aggregate_id w.db)) [
    | inl missing ↦ rw missing (commit-Holds Valid P run _ (failed-Holds (suc e.attempts) w h))
    | inr (p, found) ↦
        let (matched, db) = mark_processing p (run.meanwhile w.db) in
        let w' = record w { db = db } in
        let h' : Holds Valid P w' = record {
          valid = h.valid;
          db = quiet w.db h.db;
          committed = h.committed;
          added = h.added;
        } in
        elim (Bool-cases (matched == 0)) [
          | inl stale ↦ rw (found, stale) (commit-Holds Valid P run _ (sent-Holds w' h'))
          | inr own ↦ rw (found, own) (process_payment_event-Holds (in_memory run p) w' h')
        ]
  ]
