-- ===== src/Db.antt =====
-- The tables (shared/contracts/persistence.py), the statements that the repositories of both
-- services run on them, and the unit of work of a session: rows that are added and then committed
-- against the unique constraints and the foreign key that the models declare.
pub mod Constraints
pub mod Schema
pub mod Seed
use global_payments_observab.Base.{
  ℕ, ◌*◌, String, Bool, true, false, not, ◌&&◌, ◌||◌, Option, none, some, List, [], ◌∷◌, ◌++◌, leb,
  ◌==◌, str_eq, is_some, find, count, sum_of, update, if◌then◌else◌,
}
use global_payments_observab.Contracts.Enums.{
  PaymentMethod, PaymentStatus, in_review, method_eq, status_eq,
}
use global_payments_observab.Contracts.Records.{
  Customer, LimitsPolicy, Payment, OutboxEvent, Snapshot,
}

pub record Db : Type 0 where
  pub customers : List Customer
  pub policies : List LimitsPolicy
  pub payments : List Payment
  pub outbox : List OutboxEvent
  pub snapshots : List Snapshot

-- A row that a session has added.
pub data Row : Type 0 where
  payment_row : Payment → Row
  outbox_row : OutboxEvent → Row
  snapshot_row : Snapshot → Row

-- `payment_id == …`
abbrev pub has_payment_id : ℕ → Payment → Bool
has_payment_id i p = p.payment_id == i

-- `merchant_id == …, idempotency_key == …`
abbrev pub has_scope : String → String → Payment → Bool
has_scope m k p = str_eq p.merchant_id m && str_eq p.idempotency_key k

abbrev pub snapshot_has_scope : String → String → Snapshot → Bool
snapshot_has_scope m k s = str_eq s.merchant_id m && str_eq s.idempotency_key k

-- The repositories' queries.
unfoldable pub get_by_payment_id : ℕ → Db → Option Payment
get_by_payment_id i db = find (has_payment_id i) db.payments

unfoldable pub get_by_merchant_and_idempotency : String → String → Db → Option Payment
get_by_merchant_and_idempotency m k db = find (has_scope m k) db.payments

unfoldable pub get_snapshot : String → String → Db → Option Snapshot
get_snapshot m k db = find (snapshot_has_scope m k) db.snapshots

unfoldable pub get_customer_by_id : String → Db → Option Customer
get_customer_by_id c db = find (λ x. str_eq x.customer_id c) db.customers

unfoldable pub get_by_rail : PaymentMethod → Db → Option LimitsPolicy
get_by_rail rail db = find (λ x. method_eq x.rail rail) db.policies

abbrev pub counts_as_outgoing : String → PaymentMethod → ℕ → Payment → Bool
counts_as_outgoing customer rail since p =
    str_eq p.customer_id customer
    && (method_eq p.method rail
        && (leb since p.created_at && not (status_eq p.status PaymentStatus.blocked)))

unfoldable pub sum_outgoing_since : String → PaymentMethod → ℕ → Db → ℕ
sum_outgoing_since customer rail since db =
    sum_of (λ p. p.amount) (counts_as_outgoing customer rail since) db.payments

unfoldable pub count_outgoing_since : String → PaymentMethod → ℕ → Db → ℕ
count_outgoing_since customer rail since db =
    count (counts_as_outgoing customer rail since) db.payments

unfoldable pub count_failures_since : String → ℕ → Db → ℕ
count_failures_since customer since db =
    count
      (λ p.
        str_eq p.customer_id customer
        && (status_eq p.status PaymentStatus.failed && leb since p.created_at))
      db.payments

-- `if not value` on a text that may be missing
abbrev pub is_blank : Option String → Bool
is_blank none = true
is_blank (some s) = str_eq s ""

abbrev pub same_destination : Option String → Option String → Bool
same_destination none _ = false
same_destination (some d) none = false
same_destination (some d) (some e) = str_eq d e

unfoldable pub destination_seen : String → Option String → Db → Bool
destination_seen customer destination db =
    if is_blank destination
    then false
    else is_some (
        find (λ p. str_eq p.customer_id customer && same_destination p.destination destination)
          db.payments)

-- `low_amount` is 95% of `high_amount` at its one call, and is compared without the division.
unfoldable pub count_near_threshold_since : String → PaymentMethod → ℕ → ℕ → Db → ℕ
count_near_threshold_since customer rail since high_amount db =
    count
      (λ p.
        counts_as_outgoing customer rail since p
        && (leb (high_amount * 95) (p.amount * 100) && leb p.amount high_amount))
      db.payments

unfoldable pub count_in_review : Db → ℕ
count_in_review db = count (λ p. status_eq p.status in_review) db.payments

-- `update_status`; an omitted `last_error` clears the column.
unfoldable pub update_status : ℕ → PaymentStatus → Option String → Db → Db
update_status i status last_error db = record db {
  payments =
      update (has_payment_id i) (λ p. record p { status = status; last_error = last_error })
        db.payments;
}

-- An insert of one row: `none` stands for `IntegrityError`. The constraints are the primary keys,
-- `uq_payment_merchant_idempotency`, `uq_idempotency_scope` and the customer's foreign key.
unfoldable pub insert_row : Row → Db → Option Db
insert_row (payment_row p) db =
    if is_some (find (has_payment_id p.payment_id) db.payments)
      || (is_some (find (has_scope p.merchant_id p.idempotency_key) db.payments)
          || not (is_some (find (λ x. str_eq x.customer_id p.customer_id) db.customers)))
    then none
    else some (record db { payments = db.payments ++ p ∷ [] })
insert_row (outbox_row e) db =
    if is_some (find (λ x. x.event_id == e.event_id) db.outbox)
    then none
    else some (record db { outbox = db.outbox ++ e ∷ [] })
insert_row (snapshot_row s) db =
    if is_some (find (snapshot_has_scope s.merchant_id s.idempotency_key) db.snapshots)
    then none
    else some (record db { snapshots = db.snapshots ++ s ∷ [] })

-- `session.commit()` of the rows that were added: all of them, or none.
unfoldable pub commit_rows : List Row → Db → Option Db
commit_rows [] db = some db
commit_rows (r ∷ rs) db = elim (insert_row r db) [ none ↦ none | some db' ↦ commit_rows rs db' ]
