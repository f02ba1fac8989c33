-- ===== src/Processor/Worker/Laws.antt =====
-- What the processing of one event comes to.
use mathlib.Core.Path.{subst}
use global_payments_observab.Base.{
  ℕ, suc, ◌+◌, ◌<◌, String, ◌≡◌, refl, sym, ap, ◌∙◌, inl, inr, not, ◌&&◌, Option, none, some, [],
  arith, Bool-cases, Option-cases, ==_iff, leb, find, update, find-update, find_holds,
}
use global_payments_observab.Base.Exec.{Outcome, ok, err}
use global_payments_observab.Contracts.Enums.{
  PaymentStatus, processing, confirmed, failed, OutboxStatus, pending, sent, category_value,
  EventType, payment_confirmed, payment_failed,
}
use global_payments_observab.Contracts.Records.{Payment, OutboxEvent, Payload, ProviderResponse}
use global_payments_observab.Rails.{provider_name_for_method}
use global_payments_observab.Db.{Db, get_by_payment_id, has_payment_id, commit_rows}
use global_payments_observab.Processor.World.{World, Http, Run, Failure, processor_error}
use global_payments_observab.Processor.Repositories.{
  in_db, mark_processing, mark_confirmed, mark_failed, confirm, fail, mark_sent, reschedule,
  event_delay, commit, emit_event, update_event, has_event_id,
}
use global_payments_observab.Processor.Provider.{call_provider}
use global_payments_observab.Processor.Worker.{
  handle_processor_error, process_event, process_payment_event, settle, in_memory,
}
use global_payments_observab.Processor.Worker.Session.{call_provider-keeps, both_end, marked, marks}

-- How a payment and the event that asked for it end together: the status of the one, and the
-- status and the attempts of the other, after `before` attempts.
pub data Fits (max_event_attempts before : ℕ) : PaymentStatus → OutboxStatus → ℕ → Type 0 where
  delivered : Fits max_event_attempts before confirmed sent before
  declined : Fits max_event_attempts before failed sent before
  exhausted : Fits max_event_attempts before failed OutboxStatus.failed (suc before)
  waiting :
      suc before < max_event_attempts
      → Fits max_event_attempts before processing pending (suc before)

-- the rows of a payment and of an event in the tables `db`
abbrev pub Ended : Run → OutboxEvent → ℕ → Db → Type 0
Ended run e i db =
    (q : Payment) × (x : OutboxEvent) × (get_by_payment_id i db ≡ some q)
    × (find (has_event_id e.event_id) db.outbox ≡ some x)
    × Fits run.max_event_attempts e.attempts q.status x.status x.attempts
    × (x.aggregate_id ≡ e.aggregate_id)

abbrev pub new_event : Run → Payment → ℕ → EventType → Payload → OutboxEvent
new_event run p uuid event_type payload = record {
  event_id = uuid;
  aggregate_id = p.payment_id;
  event_type = event_type;
  payload = payload;
  status = pending;
  created_at = run.clock;
  attempts = 0;
  next_attempt_at = run.clock;
}

abbrev pub ends_as : Run → Payment → PaymentStatus → Option String → Payment → Payment
ends_as run p status last_error x = record x {
  status = status;
  version = run.synchronized p.version + 2;
  last_error = last_error;
}

module _ {H : Http} (run : Run) (e : OutboxEvent) where
  -- the tables that the session commits, with what it has added
  abbrev flushed : World H → Option Db
  flushed w = commit_rows w.added w.db

  -- a failed payment, whatever its event becomes
  fail_ends :
      (p : Payment) (w : World H) (provider category reason : String)
      (g : OutboxEvent → OutboxEvent)
      → ((x : OutboxEvent) → (g x).event_id ≡ x.event_id)
      → Fits run.max_event_attempts e.attempts failed (g e).status (g e).attempts
      → (g e).aggregate_id ≡ e.aggregate_id
      → w.added ≡ []
      → find (has_payment_id p.payment_id) w.db.payments ≡ some (marked p)
      → find (has_event_id e.event_id) w.db.outbox ≡ some e
      → find (has_event_id w.next_uuid) w.db.outbox ≡ none
      → (db : Db) × (flushed (
            in_db run
              (update_event e.event_id g)
              (fail run (in_memory run p) provider category reason w))
          ≡ some db)
        × Ended run e p.payment_id db
  unfolding fail emit_event mark_failed get_by_payment_id
  fail_ends p w provider category reason g keeps_id fits same none_added found event fresh =
      let (db, h, payment, x) =
        both_end w.db (marked p) e
          (new_event run p w.next_uuid payment_failed
            (Payload.failed p.payment_id p.merchant_id provider category reason))
          (ends_as run p failed (some reason)) g (λ _. refl) keeps_id found event fresh in
      (db, rw none_added h, (_, _, payment, x, fits, same))

  confirm_ends :
      (p : Payment) (w : World H) (provider reference : String)
      → w.added ≡ []
      → find (has_payment_id p.payment_id) w.db.payments ≡ some (marked p)
      → find (has_event_id e.event_id) w.db.outbox ≡ some e
      → find (has_event_id w.next_uuid) w.db.outbox ≡ none
      → (db : Db) × (flushed
            (in_db run (mark_sent e.event_id) (confirm run (in_memory run p) provider reference w))
          ≡ some db)
        × Ended run e p.payment_id db
  unfolding confirm emit_event mark_confirmed get_by_payment_id
  confirm_ends p w provider reference none_added found event fresh =
      let (db, h, payment, x) =
        both_end w.db (marked p) e
          (new_event run p w.next_uuid payment_confirmed
            (Payload.confirmed p.payment_id p.merchant_id provider reference))
          (ends_as run p confirmed none) (λ x. record x { status = sent }) (λ _. refl) (λ _. refl)
          found event fresh in
      (db, rw none_added h, (_, _, payment, x, delivered, refl))

  reschedule_ends :
      (p : Payment) (w : World H) (next_attempt_at : ℕ)
      → suc e.attempts < run.max_event_attempts
      → e.status ≡ pending
      → w.added ≡ []
      → find (has_payment_id p.payment_id) w.db.payments ≡ some (marked p)
      → find (has_event_id e.event_id) w.db.outbox ≡ some e
      → (db : Db) × (flushed (in_db run (reschedule e.event_id (suc e.attempts) next_attempt_at) w)
          ≡ some db)
        × Ended run e p.payment_id db
  unfolding get_by_payment_id commit_rows
  reschedule_ends p w next_attempt_at left is_pending none_added found event =
      let g : OutboxEvent → OutboxEvent =
        λ x. record x { attempts = suc e.attempts; next_attempt_at = next_attempt_at } in
      let moved =
        find-update (has_event_id e.event_id) (has_event_id e.event_id) g (λ _. refl) w.db.outbox e
          event (find_holds (has_event_id e.event_id) w.db.outbox e event) in
      (
        record w.db { outbox = update (has_event_id e.event_id) g w.db.outbox },
        rw none_added refl,
        (marked p, g e, found, moved, rw is_pending (waiting left), refl),
      )

  settle_ends :
      (p : Payment) (r : Outcome Failure ProviderResponse) (w : World H)
      → w.added ≡ []
      → find (has_payment_id p.payment_id) w.db.payments ≡ some (marked p)
      → find (has_event_id e.event_id) w.db.outbox ≡ some e
      → e.status ≡ pending
      → find (has_event_id w.next_uuid) w.db.outbox ≡ none
      → (db : Db) × (flushed (settle run e (in_memory run p) r w) ≡ some db)
        × Ended run e p.payment_id db
  unfolding handle_processor_error
  settle_ends p (ok response) w none_added found event is_pending fresh =
      elim (Bool-cases (response.confirmed && not response.partial_failure)) [
        | inl accepted ↦ rw accepted (
            confirm_ends p w response.provider response.provider_reference none_added found event
              fresh)
        | inr refused ↦ rw refused (
            fail_ends p w response.provider "provider_partial_failure" "Partial failure"
              (λ x. record x { status = sent }) (λ _. refl) declined refl none_added found event
              fresh)
      ]
  settle_ends p (err failure) w none_added found event is_pending fresh =
      elim (Option-cases (processor_error failure)) [
        | inl e₁ ↦ rw e₁ (
            fail_ends p w "unknown" "unexpected" "Unexpected processor failure" fails (λ _. refl)
              exhausted refl none_added found event fresh)
        | inr ((category, message), e₁) ↦
            elim (Bool-cases (leb run.max_event_attempts (suc e.attempts))) [
              | inl last ↦
                  rw (e₁, last)
                    (fail_ends p w (provider_name_for_method p.method) (category_value category)
                      message fails (λ _. refl) exhausted refl none_added found event fresh)
              | inr more ↦
                  rw (e₁, more)
                    (reschedule_ends p w (run.clock + event_delay run (suc e.attempts))
                      (ground arith) is_pending none_added found event)
            ]
      ]
    where
      fails : OutboxEvent → OutboxEvent
      fails x = record x { status = OutboxStatus.failed; attempts = suc e.attempts }

  -- A pending event of a payment that no other session touches between its read and its update ends in
  -- one of four ways, and the worker's transaction commits: the payment is confirmed or declined
  -- and the event sent; the payment is failed and the event too; or, with attempts left, the payment
  -- stays in processing and the event waits with one attempt more.
  pub process_event_ends :
      (p : Payment) (w : World H)
      → w.added ≡ []
      → run.meanwhile w.db ≡ w.db
      → get_by_payment_id e.aggregate_id w.db ≡ some p
      → find (has_event_id e.event_id) w.db.outbox ≡ some e
      → e.status ≡ pending
      → find (has_event_id w.next_uuid) w.db.outbox ≡ none
      → let (r, w') = process_event run e w in
        (r ≡ ok tt)
        × (w'.added ≡ [])
        × (w'.committed ≡ w'.db)
        × Ended run e p.payment_id w'.committed
  unfolding process_event process_payment_event commit get_by_payment_id
  process_event_ends p w none_added alone found event is_pending fresh =
      let is_id : p.payment_id ≡ e.aggregate_id =
        (==_iff p.payment_id e.aggregate_id).0
          (find_holds (has_payment_id e.aggregate_id) w.db.payments p found) in
      let found' : find (has_payment_id p.payment_id) w.db.payments ≡ some p =
        subst (λ i. find (has_payment_id i) w.db.payments ≡ some p) (sym is_id) found in
      let (matched, is_marked, same_outbox) = marks p w.db found' in
      let w₁ = record w { db = (mark_processing p w.db).1 } in
      let (r, w₂) = call_provider run (in_memory run p) w₁ in
      let k = call_provider-keeps run (in_memory run p) w₁ in
      let outbox : w₂.db.outbox ≡ w.db.outbox = ap (λ (d : Db). d.outbox) k.db ∙ same_outbox in
      let (db, h, ended) =
        settle_ends p r w₂ (k.added ∙ none_added)
          (ap (λ (d : Db). find (has_payment_id p.payment_id) d.payments) k.db ∙ is_marked)
          (ap (find (has_event_id e.event_id)) outbox ∙ event) is_pending
          (ap (λ i. find (has_event_id i) w₂.db.outbox) k.next_uuid
            ∙ ap (find (has_event_id w.next_uuid)) outbox
            ∙ fresh) in
      rw (found, alone, matched) (rw h (refl, refl, refl, ended))
