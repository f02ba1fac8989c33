-- ===== src/Db/Schema/Migration.antt =====
-- alembic/versions/20260208_0001_initial_schema.py. A column is nullable where the call does not say.
use global_payments_observab.Base.{true, false, List, [], ◌∷◌}
use global_payments_observab.Db.Schema.{
  varchar, enum, numeric, integer, uuid, jsonb, timestamp, no_default, literal, now, column, unique,
  foreign_key, Table, Operation, create_table, create_index, drop_index, drop_table,
}

abbrev pub customers_table : Table
customers_table = record {
  name = "customers";
  columns =
      column "customer_id" (varchar 128) false no_default
      ∷ column "kyc_level" (enum ("NONE" ∷ "BASIC" ∷ "FULL" ∷ [])) false no_default
      ∷ column "status" (enum ("ACTIVE" ∷ "SUSPENDED" ∷ [])) false no_default
      ∷ column "created_at" timestamp true now
      ∷ [];
  primary_key = "customer_id";
  constraints = [];
}

abbrev pub limits_policies_table : Table
limits_policies_table = record {
  name = "limits_policies";
  columns =
      column "rail" (enum ("PIX" ∷ "BOLETO" ∷ "TED" ∷ "CARD" ∷ [])) false (literal "RECEIVED")
      ∷ column "min_amount" (numeric 18 2) false no_default
      ∷ column "max_amount" (numeric 18 2) false no_default
      ∷ column "daily_limit_amount" (numeric 18 2) false no_default
      ∷ column "velocity_limit_count" integer false no_default
      ∷ column "velocity_window_seconds" integer false no_default
      ∷ [];
  primary_key = "rail";
  constraints = [];
}

abbrev pub payments_table : Table
payments_table = record {
  name = "payments";
  columns =
      column "payment_id" uuid false no_default
      ∷ column "merchant_id" (varchar 128) false no_default
      ∷ column "customer_id" (varchar 128) false no_default
      ∷ column "account_id" (varchar 128) false no_default
      ∷ column "amount" (numeric 18 2) false no_default
      ∷ column "currency" (varchar 3) false no_default
      ∷ column "method" (enum ("PIX" ∷ "BOLETO" ∷ "TED" ∷ "CARD" ∷ [])) false no_default
      ∷ column "destination" (varchar 128) true no_default
      ∷ column "status"
          (enum (
            "RECEIVED" ∷ "VALIDATED" ∷ "IN_REVIEW" ∷ "PROCESSING" ∷ "CONFIRMED" ∷ "FAILED"
            ∷ "BLOCKED" ∷ []))
          false no_default
      ∷ column "idempotency_key" (varchar 128) false no_default
      ∷ column "risk_score" integer true no_default
      ∷ column "risk_decision" (enum ("ALLOW" ∷ "REVIEW" ∷ "BLOCK" ∷ [])) true no_default
      ∷ column "aml_decision" (enum ("ALLOW" ∷ "REVIEW" ∷ "BLOCK" ∷ [])) true no_default
      ∷ column "metadata" jsonb true no_default
      ∷ column "last_error" (varchar 512) true no_default
      ∷ column "created_at" timestamp true now
      ∷ column "updated_at" timestamp true now
      ∷ column "version" integer false (literal "1")
      ∷ [];
  primary_key = "payment_id";
  constraints =
      foreign_key ("customer_id" ∷ []) "customers" ("customer_id" ∷ [])
      ∷ unique "uq_payment_merchant_idempotency" ("merchant_id" ∷ "idempotency_key" ∷ [])
      ∷ [];
}

abbrev pub outbox_events_table : Table
outbox_events_table = record {
  name = "outbox_events";
  columns =
      column "event_id" uuid false no_default
      ∷ column "aggregate_id" uuid false no_default
      ∷ column "event_type"
          (enum (
            "PaymentRequested" ∷ "PaymentConfirmed" ∷ "PaymentFailed" ∷ "PaymentReviewRequired"
            ∷ []))
          false no_default
      ∷ column "payload" jsonb false no_default
      ∷ column "status" (enum ("PENDING" ∷ "SENT" ∷ "FAILED" ∷ [])) false (literal "PENDING")
      ∷ column "created_at" timestamp true now
      ∷ column "attempts" integer false (literal "0")
      ∷ column "next_attempt_at" timestamp false now
      ∷ [];
  primary_key = "event_id";
  constraints = [];
}

abbrev pub idempotency_records_table : Table
idempotency_records_table = record {
  name = "idempotency_records";
  columns =
      column "id" integer false no_default
      ∷ column "merchant_id" (varchar 128) false no_default
      ∷ column "idempotency_key" (varchar 128) false no_default
      ∷ column "payment_id" uuid false no_default
      ∷ column "status_code" integer false no_default
      ∷ column "response_payload" jsonb false no_default
      ∷ column "created_at" timestamp true now
      ∷ [];
  primary_key = "id";
  constraints = unique "uq_idempotency_scope" ("merchant_id" ∷ "idempotency_key" ∷ []) ∷ [];
}

abbrev pub upgrade : List Operation
upgrade =
    create_table customers_table
    ∷ create_table limits_policies_table
    ∷ create_table payments_table
    ∷ create_index "ix_payments_merchant_id" "payments" ("merchant_id" ∷ [])
    ∷ create_index "ix_payments_customer_id" "payments" ("customer_id" ∷ [])
    ∷ create_index "ix_payments_account_id" "payments" ("account_id" ∷ [])
    ∷ create_table outbox_events_table
    ∷ create_index "ix_outbox_events_aggregate_id" "outbox_events" ("aggregate_id" ∷ [])
    ∷ create_index "ix_outbox_events_event_type" "outbox_events" ("event_type" ∷ [])
    ∷ create_index "ix_outbox_events_status" "outbox_events" ("status" ∷ [])
    ∷ create_index "ix_outbox_events_next_attempt_at" "outbox_events" ("next_attempt_at" ∷ [])
    ∷ create_table idempotency_records_table
    ∷ create_index "ix_idempotency_records_merchant_id" "idempotency_records" ("merchant_id" ∷ [])
    ∷ create_index "ix_idempotency_records_payment_id" "idempotency_records" ("payment_id" ∷ [])
    ∷ []

abbrev pub downgrade : List Operation
downgrade =
    drop_index "ix_idempotency_records_payment_id" "idempotency_records"
    ∷ drop_index "ix_idempotency_records_merchant_id" "idempotency_records"
    ∷ drop_table "idempotency_records"
    ∷ drop_index "ix_outbox_events_next_attempt_at" "outbox_events"
    ∷ drop_index "ix_outbox_events_status" "outbox_events"
    ∷ drop_index "ix_outbox_events_event_type" "outbox_events"
    ∷ drop_index "ix_outbox_events_aggregate_id" "outbox_events"
    ∷ drop_table "outbox_events"
    ∷ drop_index "ix_payments_account_id" "payments"
    ∷ drop_index "ix_payments_customer_id" "payments"
    ∷ drop_index "ix_payments_merchant_id" "payments"
    ∷ drop_table "payments"
    ∷ drop_table "limits_policies"
    ∷ drop_table "customers"
    ∷ []
