-- ===== src/Processor/Worker/Stale.antt =====
-- An event whose payment another session has moved on between its read and its update.
use global_payments_observab.Base.{
  ◌≡◌, refl, some, [], ◌==◌, arith, true, find, count, update_none, find-update, find_holds,
}
use global_payments_observab.Base.Exec.{ok}
use global_payments_observab.Contracts.Enums.{sent}
use global_payments_observab.Contracts.Records.{Payment, OutboxEvent}
use global_payments_observab.Db.{get_by_payment_id, commit_rows}
use global_payments_observab.Processor.World.{World, Http, Run}
use global_payments_observab.Processor.Repositories.{
  mark_processing, has_version, has_event_id, commit,
}
use global_payments_observab.Processor.Worker.{process_event}

-- If another session has moved the payment to another version, the worker marks the event as sent and
-- leaves the payment as that session put it, without a call of the provider. So an event that
-- the other session has rescheduled is never taken up again, although its payment is not settled.
pub stale_event_is_sent :
    {H : Http} (run : Run) (e x : OutboxEvent) (p : Payment) (w : World H)
    → w.added ≡ []
    → get_by_payment_id e.aggregate_id w.db ≡ some p
    → count (has_version p) (run.meanwhile w.db).payments ≡ 0
    → find (has_event_id e.event_id) (run.meanwhile w.db).outbox ≡ some x
    → let (r, w') = process_event run e w in
      (r ≡ ok tt)
      × (w'.http ≡ w.http)
      × (w'.committed.payments ≡ (run.meanwhile w.db).payments)
      × (find (has_event_id e.event_id) w'.committed.outbox ≡ some (record x { status = sent }))
unfolding process_event mark_processing commit commit_rows
stale_event_is_sent run e x p w none_added found moved event =
    let there = run.meanwhile w.db in
    let nothing : (mark_processing p there).0 == 0 ≡ true = ground arith in
    let is_sent =
      find-update (has_event_id e.event_id) (has_event_id e.event_id)
        (λ x. record x { status = sent }) (λ _. refl) there.outbox x event
        (find_holds (has_event_id e.event_id) there.outbox x event) in
    rw (found, nothing, none_added)
      (refl, refl, update_none (has_version p) _ there.payments moved, is_sent)
