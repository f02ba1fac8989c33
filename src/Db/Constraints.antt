-- ===== src/Db/Constraints.antt =====
-- What the keys and unique constraints of the tables test at an insert.
use global_payments_observab.Base.{◌≡◌, none, some, [], ◌∷◌, ◌++◌, arith, find, ◌==◌}
use global_payments_observab.Contracts.Records.{Payment, OutboxEvent, Snapshot}
use global_payments_observab.Db.{
  Db, payment_row, outbox_row, snapshot_row, has_payment_id, has_scope, snapshot_has_scope,
  insert_row,
}

-- What an insert that goes through has tested, and what it does.
pub insert_payment_inverts :
    (p : Payment) (db db' : Db)
    → insert_row (payment_row p) db ≡ some db'
    → (find (has_payment_id p.payment_id) db.payments ≡ none)
      × (find (has_scope p.merchant_id p.idempotency_key) db.payments ≡ none)
      × (db' ≡ record db { payments = db.payments ++ p ∷ [] })
unfolding insert_row
insert_payment_inverts p db db' h = ground arith

pub insert_event_inverts :
    (e : OutboxEvent) (db db' : Db)
    → insert_row (outbox_row e) db ≡ some db'
    → (find (λ (x : OutboxEvent). x.event_id == e.event_id) db.outbox ≡ none)
      × (db' ≡ record db { outbox = db.outbox ++ e ∷ [] })
unfolding insert_row
insert_event_inverts e db db' h = ground arith

pub insert_snapshot_inverts :
    (s : Snapshot) (db db' : Db)
    → insert_row (snapshot_row s) db ≡ some db'
    → (find (snapshot_has_scope s.merchant_id s.idempotency_key) db.snapshots ≡ none)
      × (db' ≡ record db { snapshots = db.snapshots ++ s ∷ [] })
unfolding insert_row
insert_snapshot_inverts s db db' h = ground arith
