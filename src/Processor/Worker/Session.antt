-- ===== src/Processor/Worker/Session.antt =====
-- What a provider call leaves alone, and the updates that the worker makes of a payment and its event.
use global_payments_observab.Base.{
  suc, String, ◌≡◌, refl, ap, true, false, none, some, [], ◌∷◌, ◌++◌, arith, ==_iff, ◌==◌, find,
  update, find-update, find-update_none, find-count-some, find-append_some, find_holds,
}
use global_payments_observab.Base.Exec.{Outcome, ok, err, ◌>>◌}
use global_payments_observab.Contracts.Enums.{processing}
use global_payments_observab.Contracts.Records.{Payment, OutboxEvent, ProviderResponse}
use global_payments_observab.Rails.{provider_name_for_method}
use global_payments_observab.Db.{Db, outbox_row, has_payment_id, commit_rows, insert_row}
use global_payments_observab.Resilience.Breaker.{
  CircuitBreaker, allow_call, CircuitOpen, circuit_is_open,
}
use global_payments_observab.Resilience.Retry.{retry_async-keeps}
use global_payments_observab.Processor.World.{World, Http, Run, Failure}
use global_payments_observab.Processor.Repositories.{mark_processing, has_version, has_event_id}
use global_payments_observab.Processor.Provider.{
  call_provider, after_call, allowed, guarded, set_breaker, call_once, confirm_once, retried,
  is_transient,
}
use global_payments_observab.Processor.World.{invalid_state}

module _ {H : Http} where
  -- A provider call leaves the session alone.
  pub record SameSession (w w' : World H) : Type 0 where
    pub db : w'.db ≡ w.db
    pub committed : w'.committed ≡ w.committed
    pub added : w'.added ≡ w.added
    pub next_uuid : w'.next_uuid ≡ w.next_uuid

  call_once-keeps :
      (p : Payment) (w w' : World H) → SameSession w w' → SameSession w (call_once p w').1
  unfolding call_once confirm_once
  call_once-keeps p w w' k = record {
    db = k.db;
    committed = k.committed;
    added = k.added;
    next_uuid = k.next_uuid;
  }

  retried-keeps : (p : Payment) (w w' : World H) → SameSession w w' → SameSession w (retried p w').1
  unfolding retried
  retried-keeps p w w' k =
      retry_async-keeps (λ attempt w. w) is_transient invalid_state (call_once p) 3 (SameSession w)
        w' (call_once-keeps p w) (λ _ _ k. k) k

  after_call-keeps :
      (run : Run) (name : String) (r : Outcome Failure ProviderResponse) (w w' : World H)
      → SameSession w w'
      → SameSession w (after_call run name r w').1
  after_call-keeps run name (ok response) w w' k = record {
    db = k.db;
    committed = k.committed;
    added = k.added;
    next_uuid = k.next_uuid;
  }
  after_call-keeps run name (err e) w w' k = record {
    db = k.db;
    committed = k.committed;
    added = k.added;
    next_uuid = k.next_uuid;
  }

  allowed-keeps :
      (run : Run) (p : Payment) (name : String) (r : Outcome CircuitOpen (Unit {0}))
      (b : CircuitBreaker) (w : World H)
      → SameSession w ((allowed name r b >> guarded run name (retried p)) w).1
  allowed-keeps run p name (err circuit_is_open) b w = record {
    db = refl;
    committed = refl;
    added = refl;
    next_uuid = refl;
  }
  allowed-keeps run p name (ok _) b w =
      let w' = set_breaker name b w in
      after_call-keeps run name (retried p w').0 w (retried p w').1 (
        retried-keeps p w w'
          (record { db = refl; committed = refl; added = refl; next_uuid = refl }))

  pub call_provider-keeps :
      (run : Run) (p : Payment) (w : World H) → SameSession w (call_provider run p w).1
  unfolding call_provider
  call_provider-keeps run p w =
      let name = provider_name_for_method p.method in
      let (r, b) = allow_call run.breaker_config run.allow_clock (w.breakers name) in
      allowed-keeps run p name r b w

-- A payment's update and an event's, and the commit of a new event beside them.
pub both_end :
    (db : Db) (q : Payment) (e new : OutboxEvent) (f : Payment → Payment)
    (g : OutboxEvent → OutboxEvent)
    → ((x : Payment) → (f x).payment_id ≡ x.payment_id)
    → ((x : OutboxEvent) → (g x).event_id ≡ x.event_id)
    → find (has_payment_id q.payment_id) db.payments ≡ some q
    → find (has_event_id e.event_id) db.outbox ≡ some e
    → find (has_event_id new.event_id) db.outbox ≡ none
    → (db' : Db) × (commit_rows (outbox_row new ∷ []) (record db {
      payments = update (has_payment_id q.payment_id) f db.payments;
      outbox = update (has_event_id e.event_id) g db.outbox;
    })
        ≡ some db')
      × (find (has_payment_id q.payment_id) db'.payments ≡ some (f q))
      × (find (has_event_id e.event_id) db'.outbox ≡ some (g e))
unfolding commit_rows insert_row
both_end db q e new f g keeps_id keeps_event found event fresh =
    let payments = update (has_payment_id q.payment_id) f db.payments in
    let outbox = update (has_event_id e.event_id) g db.outbox in
    let still_fresh =
      find-update_none (has_event_id new.event_id) (has_event_id e.event_id) g
        (λ x. ap (λ i. i == new.event_id) (keeps_event x)) db.outbox fresh in
    let moved =
      find-update (has_event_id e.event_id) (has_event_id e.event_id) g
        (λ x. ap (λ i. i == e.event_id) (keeps_event x)) db.outbox e event
        (find_holds (has_event_id e.event_id) db.outbox e event) in
    (
      record db { payments = payments; outbox = outbox ++ new ∷ [] },
      rw (still_fresh, commit_rows, insert_row) refl,
      find-update (has_payment_id q.payment_id) (has_payment_id q.payment_id) f
          (λ x. ap (λ i. i == q.payment_id) (keeps_id x)) db.payments q found
          (find_holds (has_payment_id q.payment_id) db.payments q found),
      find-append_some (has_event_id e.event_id) outbox (new ∷ []) (g e) moved,
    )

-- the payment as `mark_processing` stores it
abbrev pub marked : Payment → Payment
marked p = record p { status = processing; version = suc p.version }

pub marks :
    (p : Payment) (db : Db)
    → find (has_payment_id p.payment_id) db.payments ≡ some p
    → ((mark_processing p db).0 == 0 ≡ false)
      × (find (has_payment_id p.payment_id) (mark_processing p db).1.payments ≡ some (marked p))
      × ((mark_processing p db).1.outbox ≡ db.outbox)
unfolding mark_processing
marks p db found =
    let own = (==_iff p.payment_id p.payment_id).1 refl in
    let same_version = (==_iff p.version p.version).1 refl in
    let own_version : has_version p p ≡ true = ground arith in
    let some_row =
      find-count-some (has_payment_id p.payment_id) (has_version p) db.payments p found
        own_version in
    (
      ground arith,
      find-update (has_payment_id p.payment_id) (has_version p) marked_as (λ _. refl) db.payments p
          found own_version,
      refl,
    )
  where
    marked_as : Payment → Payment
    marked_as q = record q { status = processing; version = suc p.version }
