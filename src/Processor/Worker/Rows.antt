-- ===== src/Processor/Worker/Rows.antt =====
-- What the processing of an event keeps of every row of the outbox.
pub mod Process
use mathlib.Core.Path.{subst}
use mathlib.Core.Option.{some-injective}
use global_payments_observab.Base.{
  ℕ, suc, ◌+◌, String, ◌≡◌, refl, sym, inl, inr, false, not, ◌&&◌, true, some, List, [], ◌∷◌,
  Bool-cases, Option-cases, ◌==◌, leb, All, All-map, All-update, All-append,
}
use global_payments_observab.Base.Exec.{Outcome, ok, err}
use global_payments_observab.Contracts.Enums.{
  OutboxStatus, pending, sent, category_value, EventType, payment_confirmed, payment_failed,
}
use global_payments_observab.Contracts.Records.{Payment, OutboxEvent, Payload, ProviderResponse}
use global_payments_observab.Rails.{provider_name_for_method}
use global_payments_observab.Db.{
  Db, Row, payment_row, outbox_row, snapshot_row, get_by_payment_id, commit_rows, insert_row,
}
use global_payments_observab.Db.Constraints.{
  insert_payment_inverts, insert_event_inverts, insert_snapshot_inverts,
}
use global_payments_observab.Processor.World.{World, Http, Run, Failure, processor_error}
use global_payments_observab.Processor.Repositories.{
  in_db, mark_processing, mark_confirmed, mark_failed, confirm, fail, mark_sent, mark_event_failed,
  event_delay, commit, emit_event, update_event, has_event_id, is_requested,
}
use global_payments_observab.Processor.Provider.{call_provider}
use global_payments_observab.Processor.Worker.{
  handle_processor_error, process_event, process_payment_event, settle, in_memory,
}
use global_payments_observab.Processor.Worker.Session.{call_provider-keeps}

-- an event that the worker emits
abbrev pub emitted : Run → ℕ → ℕ → EventType → Payload → OutboxEvent
emitted run uuid aggregate_id event_type payload = record {
  event_id = uuid;
  aggregate_id = aggregate_id;
  event_type = event_type;
  payload = payload;
  status = pending;
  created_at = run.clock;
  attempts = 0;
  next_attempt_at = run.clock;
}

-- an event after the outbox's updates of its state
abbrev pub with_state : OutboxStatus → ℕ → ℕ → OutboxEvent → OutboxEvent
with_state status attempts next_attempt_at x = record x {
  status = status;
  attempts = attempts;
  next_attempt_at = next_attempt_at;
}

-- A property of rows, given the next UUID, that the processing of `e` keeps, if that UUID is valid.
pub record IsKept (run : Run) (e : OutboxEvent) (Valid : ℕ → Type 0) (P : ℕ → OutboxEvent → Type 0)
    : Type 0 where
  pub next_valid : (n : ℕ) → Valid n → Valid (suc n)
  pub later : (n : ℕ) (x : OutboxEvent) → P n x → P (suc n) x
  pub changes :
      (n : ℕ) (x : OutboxEvent) (status : OutboxStatus) (attempts next_attempt_at : ℕ)
      → has_event_id e.event_id x ≡ true
      → P n x
      → P n (with_state status attempts next_attempt_at x)
  pub emits :
      (n aggregate_id : ℕ) (event_type : EventType) (payload : Payload)
      → Valid n
      → is_requested event_type ≡ false
      → P (suc n) (emitted run n aggregate_id event_type payload)

abbrev pub RowHolds : (OutboxEvent → Type 0) → Row → Type 0
RowHolds P (payment_row p) = Unit
RowHolds P (outbox_row x) = P x
RowHolds P (snapshot_row s) = Unit

pub rows_map :
    (P Q : OutboxEvent → Type 0) (rs : List Row)
    → ((x : OutboxEvent) → P x → Q x)
    → All (RowHolds P) rs
    → All (RowHolds Q) rs
rows_map P Q [] f h = tt
rows_map P Q (payment_row p ∷ rs) f h = (tt, rows_map P Q rs f h.1)
rows_map P Q (outbox_row x ∷ rs) f h = (f x h.0, rows_map P Q rs f h.1)
rows_map P Q (snapshot_row s ∷ rs) f h = (tt, rows_map P Q rs f h.1)

module _ (Valid : ℕ → Type 0) (P : ℕ → OutboxEvent → Type 0) where
  -- The rows that are stored, that are committed and that the session has added.
  pub record Holds {H : Http} (w : World H) : Type 0 where
    pub valid : Valid w.next_uuid
    pub db : All (P w.next_uuid) w.db.outbox
    pub committed : All (P w.next_uuid) w.committed.outbox
    pub added : All (RowHolds (P w.next_uuid)) w.added

  insert_row-All :
      (n : ℕ) (r : Row) (db db' : Db)
      → RowHolds (P n) r
      → All (P n) db.outbox
      → insert_row r db ≡ some db'
      → All (P n) db'.outbox
  insert_row-All n (payment_row p) db db' hr h e =
      subst (λ (d : Db). All (P n) d.outbox) (sym (insert_payment_inverts p db db' e).2) h
  insert_row-All n (outbox_row x) db db' hr h e =
      subst (λ (d : Db). All (P n) d.outbox) (sym (insert_event_inverts x db db' e).1)
        (All-append (P n) db.outbox (x ∷ []) h (hr, tt))
  insert_row-All n (snapshot_row s) db db' hr h e =
      subst (λ (d : Db). All (P n) d.outbox) (sym (insert_snapshot_inverts s db db' e).1) h

  commit_rows-All :
      (n : ℕ) (rs : List Row) (db db' : Db)
      → All (RowHolds (P n)) rs
      → All (P n) db.outbox
      → commit_rows rs db ≡ some db'
      → All (P n) db'.outbox
  unfolding commit_rows
  commit_rows-All n [] db db' hr h e =
      subst (λ (d : Db). All (P n) d.outbox) (some-injective _ _ e) h
  commit_rows-All n (r ∷ rs) db db' hr h e = elim (Option-cases (insert_row r db)) [
    | inl refused ↦ cc (rw (refused, commit_rows) at e)
    | inr (mid, e₁) ↦
        commit_rows-All n rs mid db' hr.1 (insert_row-All n r db mid hr.0 h e₁)
          (rw (e₁, commit_rows) at e)
  ]

  module _ {H : Http} (run : Run) where
    pub commit-Holds : (w : World H) → Holds w → Holds (commit run w).1
    unfolding commit
    commit-Holds w h = elim (Option-cases (commit_rows w.added w.db)) [
      | inl refused ↦
          rw refused
            (record { valid = h.valid; db = h.committed; committed = h.committed; added = tt })
      | inr (db, e) ↦
          let stored = commit_rows-All w.next_uuid w.added w.db db h.added h.db e in
          rw e (record { valid = h.valid; db = stored; committed = stored; added = tt })
    ]

    pub updates :
        (event_id : ℕ) (f : OutboxEvent → OutboxEvent) (w : World H)
        → ((x : OutboxEvent)
            → has_event_id event_id x ≡ true
            → P w.next_uuid x
            → P w.next_uuid (f x))
        → Holds w
        → Holds (in_db run (update_event event_id f) w)
    updates event_id f w keeps h = record {
      valid = h.valid;
      db = All-update (P w.next_uuid) (has_event_id event_id) f w.db.outbox keeps h.db;
      committed = h.committed;
      added = h.added;
    }

pub Holds-map :
    {H : Http} (Valid : ℕ → Type 0) (P Q : ℕ → OutboxEvent → Type 0) (w : World H)
    → ((n : ℕ) (x : OutboxEvent) → P n x → Q n x)
    → Holds Valid P w
    → Holds Valid Q w
Holds-map Valid P Q w f h =
    let n = w.next_uuid in
    record {
      valid = h.valid;
      db = All-map (P n) (Q n) w.db.outbox (f n) h.db;
      committed = All-map (P n) (Q n) w.committed.outbox (f n) h.committed;
      added = rows_map (P n) (Q n) w.added (f n) h.added;
    }
