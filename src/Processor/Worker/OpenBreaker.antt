-- ===== src/Processor/Worker/OpenBreaker.antt =====
-- What an event comes to while the breaker of its provider is open.
use mathlib.Core.Path.{subst}
use global_payments_observab.Base.{
  suc, ◌≡◌, refl, sym, ap, ◌∙◌, none, some, [], ==_iff, find, find_holds,
}
use global_payments_observab.Base.Exec.{err}
use global_payments_observab.Contracts.Enums.{failed, OutboxStatus, payment_failed}
use global_payments_observab.Contracts.Records.{Payment, OutboxEvent, Payload}
use global_payments_observab.Rails.{provider_name_for_method}
use global_payments_observab.Db.{get_by_payment_id, has_payment_id}
use global_payments_observab.Resilience.Breaker.{circuit_is_open, allow_call}
use global_payments_observab.Processor.World.{Http, World, Run, circuit_open, processor_error}
use global_payments_observab.Processor.Repositories.{
  mark_processing, fail, emit_event, mark_failed, commit, has_event_id,
}
use global_payments_observab.Processor.Provider.{call_provider}
use global_payments_observab.Processor.Worker.{process_event, process_payment_event, in_memory}
use global_payments_observab.Processor.Worker.Session.{both_end, marked, marks}
use global_payments_observab.Processor.Worker.Laws.{new_event, ends_as}

module _ {H : Http} (run : Run) where
  refuses :
      (p : Payment) (w : World H)
      → (allow_call run.breaker_config run.allow_clock
          (w.breakers (provider_name_for_method p.method))).0
        ≡ err circuit_is_open
      → call_provider run p w ≡ (err circuit_open, w)
  unfolding call_provider
  refuses p w h = rw h refl

  -- While the breaker of its provider is open, a pending event of a payment that no other session
  -- touches fails its payment for good, as an unexpected error and whatever attempts are
  -- left, and the provider is not called.
  pub open_breaker_fails_payment :
      (e : OutboxEvent) (p : Payment) (w : World H)
      → w.added ≡ []
      → run.meanwhile w.db ≡ w.db
      → get_by_payment_id e.aggregate_id w.db ≡ some p
      → find (has_event_id e.event_id) w.db.outbox ≡ some e
      → find (has_event_id w.next_uuid) w.db.outbox ≡ none
      → (allow_call run.breaker_config run.allow_clock
          (w.breakers (provider_name_for_method p.method))).0
        ≡ err circuit_is_open
      → let w' = (process_event run e w).1 in
        (w'.http ≡ w.http)
        × ((q : Payment) × (get_by_payment_id p.payment_id w'.committed ≡ some q)
            × (q.status ≡ failed)
            × (q.last_error ≡ some "Unexpected processor failure"))
        × ((x : OutboxEvent) × (find (has_event_id e.event_id) w'.committed.outbox ≡ some x)
            × (x.status ≡ OutboxStatus.failed))
  unfolding process_event process_payment_event commit get_by_payment_id fail emit_event mark_failed
      processor_error
  open_breaker_fails_payment e p w none_added alone found event fresh refused =
      let is_id : p.payment_id ≡ e.aggregate_id =
        (==_iff p.payment_id e.aggregate_id).0
          (find_holds (has_payment_id e.aggregate_id) w.db.payments p found) in
      let found' : find (has_payment_id p.payment_id) w.db.payments ≡ some p =
        subst (λ i. find (has_payment_id i) w.db.payments ≡ some p) (sym is_id) found in
      let (matched, is_marked, same_outbox) = marks p w.db found' in
      let db₁ = (mark_processing p w.db).1 in
      let fails : OutboxEvent → OutboxEvent =
        λ x. record x { status = OutboxStatus.failed; attempts = suc e.attempts } in
      let (db, h, payment, x) =
        both_end db₁ (marked p) e
          (new_event run p w.next_uuid payment_failed (
            Payload.failed p.payment_id p.merchant_id "unknown" "unexpected"
              "Unexpected processor failure"))
          (ends_as run p failed (some "Unexpected processor failure")) fails (λ _. refl) (λ _. refl)
          is_marked (ap (find (has_event_id e.event_id)) same_outbox ∙ event)
          (ap (find (has_event_id w.next_uuid)) same_outbox ∙ fresh) in
      rw (found, alone, matched)
        (rw (refuses (in_memory run p) (record w { db = db₁ }) refused, none_added)
          (rw h (refl, (_, payment, refl, refl), (_, x, refl))))
