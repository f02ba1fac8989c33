-- ===== src/Tests/Schema.antt =====
-- Migrations and seeds at concrete databases.
use global_payments_observab.Base.{◌≡◌, refl, not, some, [], ◌∷◌, All}
use global_payments_observab.Contracts.Enums.{
  PaymentMethod, payment_review_required, pending, in_review, status_eq,
}
use global_payments_observab.Contracts.Records.{OutboxEvent, review_required}
use global_payments_observab.Db.{Db}
use global_payments_observab.Db.Schema.{Schema, apply_all, and_then}
use global_payments_observab.Db.Schema.Migration.{upgrade, downgrade}
use global_payments_observab.Db.Schema.Laws.{Free, downgrade-upgrade}
use global_payments_observab.Db.Schema.Stored.{event_fits, review_events_do_not_fit}
use global_payments_observab.Db.Seed.{init_db, HasPolicy, init_db_lem}
use global_payments_observab.Payments.Create.Persist.{outbox_event, new_event}
use global_payments_observab.Tests.Fixtures.{run, context, response}

-- a database that holds alembic's own table
abbrev before : Schema
before = record {
  tables =
      record {
        name = "alembic_version";
        columns = [];
        primary_key = "version_num";
        constraints = [];
      }
      ∷ [];
  indexes = [];
}

free : All (Free before) upgrade
free = (
  (refl, refl, refl),
  (
    (refl, refl, refl),
    (
      (refl, refl, refl),
      (
        refl,
        (
          refl,
          (
            refl,
            (
              (refl, refl, refl),
              (refl, (refl, (refl, (refl, ((refl, refl, refl), (refl, (refl, tt))))))),
            ),
          ),
        ),
      ),
    ),
  ),
)

downgrade-upgrade_example : and_then (apply_all upgrade before) (apply_all downgrade) ≡ some before
downgrade-upgrade_example = downgrade-upgrade before free

abbrev review_event : OutboxEvent
review_event = record {
  event_id = 3;
  aggregate_id = 7;
  event_type = payment_review_required;
  payload = review_required 7 "shop" "risk_or_aml_review";
  status = pending;
  created_at = 1000;
  attempts = 0;
  next_attempt_at = 1000;
}

calls_for : outbox_event run context response 3 ≡ some review_event
unfolding outbox_event new_event
calls_for = refl

review_events_do_not_fit_example : event_fits review_event ≡ not (status_eq in_review in_review)
review_events_do_not_fit_example =
    review_events_do_not_fit run context response 3 review_event calls_for

abbrev blank : Db
blank = record { customers = []; policies = []; payments = []; outbox = []; snapshots = [] }

init_db_lem_example :
    (db' : Db) × (init_db 100 1000 blank ≡ some db')
    × (init_db 100 2000 db' ≡ some db')
    × ((rail : PaymentMethod) → HasPolicy rail db')
    × (db'.payments ≡ [])
    × (db'.outbox ≡ [])
init_db_lem_example = init_db_lem 100 1000 2000 blank refl refl
