-- ===== src/Processor/Worker/Settles/Laws.antt =====
-- The attempts at an event, round after round of the worker, until it is settled.
use mathlib.Core.Path.{subst}
use global_payments_observab.Base.{
  ℕ, zero, suc, ◌+◌, ◌≤◌, ◌<◌, ◌≡◌, ◌⊎◌, refl, sym, ap, ◌∙◌, inl, inr, false, none, some, List, [],
  ◌∷◌, arith, ==_iff, All, find, find_holds, if◌then◌else◌,
}
use global_payments_observab.Contracts.Enums.{
  PaymentStatus, confirmed, failed, OutboxStatus, pending, sent, is_pending,
}
use global_payments_observab.Contracts.Records.{Payment, OutboxEvent}
use global_payments_observab.Db.{Db, get_by_payment_id, has_payment_id}
use global_payments_observab.Processor.World.{World, Http, Run}
use global_payments_observab.Processor.Repositories.{has_event_id}
use global_payments_observab.Processor.Worker.{process_event}
use global_payments_observab.Processor.Worker.Laws.{
  Fits, delivered, declined, exhausted, waiting, process_event_ends,
}
use global_payments_observab.Processor.Worker.Rows.{Holds, IsKept}
use global_payments_observab.Processor.Worker.Settles.{process_if_pending, rounds_of}
use global_payments_observab.Processor.Worker.Rows.Process.{process_event-Holds}

-- The events have the UUIDs that were used.
abbrev pub Used : ℕ → OutboxEvent → Type 0
Used n x = x.event_id < n

Used-kept : (run : Run) (e : OutboxEvent) → IsKept run e (λ n. Unit {0}) Used
Used-kept run e = record {
  next_valid = λ n v. tt;
  later = λ n x h. omega arith;
  changes = λ n x status attempts next_attempt_at own h. h;
  emits = λ n aggregate_id event_type payload v h. omega arith;
}

fresh_uuid : (n : ℕ) (xs : List OutboxEvent) → All (Used n) xs → find (has_event_id n) xs ≡ none
unfolding find
fresh_uuid n [] h = refl
fresh_uuid n (x ∷ xs) h = ground (arith, fresh_uuid n xs h.1, h.0)

-- the payment and the event that asked for it, once no attempt is left
pub data Settles : PaymentStatus → OutboxStatus → Type 0 where
  is_delivered : Settles confirmed sent
  is_declined : Settles failed sent
  is_exhausted : Settles failed OutboxStatus.failed

-- The two rows, settled after `attempts` attempts at most.
abbrev pub Settled : ℕ → ℕ → ℕ → Db → Type 0
Settled i event_id attempts db =
    (q : Payment) × (x : OutboxEvent) × (get_by_payment_id i db ≡ some q)
    × (find (has_event_id event_id) db.outbox ≡ some x)
    × Settles q.status x.status
    × (x.attempts ≤ attempts)

-- A session at its start, with the pending event `e` of the UUID `event_id` and its payment `p`.
pub record IsReady {H : Http} (event_id : ℕ) (e : OutboxEvent) (p : Payment) (w : World H)
    : Type 0 where
  pub none_added : w.added ≡ []
  pub is_committed : w.committed ≡ w.db
  pub payment : get_by_payment_id e.aggregate_id w.db ≡ some p
  pub event : find (has_event_id event_id) w.db.outbox ≡ some e
  pub waits : e.status ≡ pending
  pub used : All (Used w.next_uuid) w.db.outbox

-- what a round has come to
round_ends :
    {m before attempts : ℕ} {status : PaymentStatus} {outbox_status : OutboxStatus}
    → Fits m before status outbox_status attempts
    → (Settles status outbox_status × (is_pending outbox_status ≡ false) × (attempts ≤ suc before))
      ⊎ ((suc before < m) × (outbox_status ≡ pending) × (attempts ≡ suc before))
round_ends delivered = inl (is_delivered, refl, omega arith)
round_ends declined = inl (is_declined, refl, omega arith)
round_ends exhausted = inl (is_exhausted, refl, omega arith)
round_ends (waiting left) = inr (left, refl, refl)

found_id : (i : ℕ) (db : Db) (p : Payment) → get_by_payment_id i db ≡ some p → p.payment_id ≡ i
unfolding get_by_payment_id
found_id i db p h = (==_iff p.payment_id i).0 (find_holds (has_payment_id i) db.payments p h)

module _ {H : Http} where
  -- No round touches an event that is not pending.
  rounds_leave_settled :
      (runs : ℕ → Run) (event_id n : ℕ) (x : OutboxEvent) (w : World H)
      → find (has_event_id event_id) w.db.outbox ≡ some x
      → is_pending x.status ≡ false
      → rounds_of runs event_id n w ≡ w
  unfolding rounds_of
  rounds_leave_settled runs event_id zero x w h settled = refl
  rounds_leave_settled runs event_id (suc n) x w h settled =
      rw (h, settled) (rounds_leave_settled runs event_id n x w h settled)

  -- One round: the event is settled, or it waits with one attempt more and the session is ready again.
  round :
      (run : Run) (event_id : ℕ) (e : OutboxEvent) (p : Payment) (w : World H)
      → ((db : Db) → run.meanwhile db ≡ db)
      → IsReady event_id e p w
      → let w' = (process_event run e w).1 in
        (q : Payment) × (x : OutboxEvent) × (get_by_payment_id e.aggregate_id w'.db ≡ some q)
        × (find (has_event_id event_id) w'.db.outbox ≡ some x)
        × ((Settles q.status x.status
              × (is_pending x.status ≡ false)
              × (x.attempts ≤ suc e.attempts))
            ⊎ ((suc e.attempts < run.max_event_attempts)
                × IsReady event_id x q w'
                × (x.attempts ≡ suc e.attempts)
                × (x.aggregate_id ≡ e.aggregate_id)))
  round run event_id e p w alone ready =
      let own : e.event_id ≡ event_id =
        (==_iff e.event_id event_id).0
          (find_holds (has_event_id event_id) w.db.outbox e ready.event) in
      let is_id = found_id e.aggregate_id w.db p ready.payment in
      let (returned, none_added, is_committed, ended) =
        process_event_ends run e p w ready.none_added (alone w.db) ready.payment
          (subst (λ j. find (has_event_id j) w.db.outbox ≡ some e) (sym own) ready.event)
          ready.waits (fresh_uuid w.next_uuid w.db.outbox ready.used) in
      let (q, x, payment, event, fits, same) = ended in
      let payment' : get_by_payment_id e.aggregate_id (process_event run e w).1.db ≡ some q =
        subst (λ (d : Db). get_by_payment_id e.aggregate_id d ≡ some q) is_committed
          (subst (λ j. get_by_payment_id j (process_event run e w).1.committed ≡ some q) is_id
            payment) in
      let event' : find (has_event_id event_id) (process_event run e w).1.db.outbox ≡ some x =
        subst (λ (d : Db). find (has_event_id event_id) d.outbox ≡ some x) is_committed
          (subst (λ j. find (has_event_id j) (process_event run e w).1.committed.outbox ≡ some x)
            own event) in
      let used : Holds (λ n. Unit {0}) Used (process_event run e w).1 =
        process_event-Holds (λ n. Unit {0}) Used run e (Used-kept run e) w (λ db h. rw (alone db) h)
          (record {
            valid = tt;
            db = ready.used;
            committed = rw ready.is_committed ready.used;
            added = rw ready.none_added tt;
          }) in
      (
        q,
        x,
        payment',
        event',
        elim (round_ends fits) [
          | inl settled ↦ inl settled
          | inr (left, waits, attempts) ↦ inr (
            left,
            record {
              none_added = none_added;
              is_committed = is_committed;
              payment = rw same payment';
              event = event';
              waits = waits;
              used = used.db;
            },
            attempts,
            same,
          )
        ],
      )

  one_round :
      (runs : ℕ → Run) (event_id n : ℕ) (e : OutboxEvent) (p : Payment) (w : World H)
      → IsReady event_id e p w
      → rounds_of runs event_id (suc n) w ≡ rounds_of runs event_id n (process_event (runs n) e w).1
  unfolding rounds_of
  one_round runs event_id n e p w ready =
      let w' = (process_event (runs n) e w).1 in
      ap (λ found. rounds_of runs event_id n (process_if_pending (runs n) found w)) ready.event
      ∙ ap (λ status. rounds_of runs event_id n (if is_pending status then w' else w)) ready.waits

  -- What is left once the first of the rounds has ended.
  settles_after :
      (runs : ℕ → Run) (event_id n : ℕ) (e : OutboxEvent) (p : Payment) (w : World H)
      → ((db : Db) → (runs n).meanwhile db ≡ db)
      → IsReady event_id e p w
      → let w' = (process_event (runs n) e w).1 in
        ((q : Payment) (x : OutboxEvent)
          → suc e.attempts < (runs n).max_event_attempts
          → IsReady event_id x q w'
          → x.attempts ≡ suc e.attempts
          → x.aggregate_id ≡ e.aggregate_id
          → Settled e.aggregate_id event_id (e.attempts + suc n) (rounds_of runs event_id n w').db)
        → Settled e.aggregate_id event_id
            (e.attempts + suc n)
            (rounds_of runs event_id (suc n) w).db
  settles_after runs event_id n e p w alone ready waits =
      let (q, x, payment, event, next) = round (runs n) event_id e p w alone ready in
      subst (λ (v : World H). Settled e.aggregate_id event_id (e.attempts + suc n) v.db)
        (sym (one_round runs event_id n e p w ready))
        (elim next [
          | inl (settles, settled, attempts) ↦
              subst (λ (v : World H). Settled e.aggregate_id event_id (e.attempts + suc n) v.db)
                (sym (
                  rounds_leave_settled runs event_id n x (process_event (runs n) e w).1 event
                    settled))
                (q, x, payment, event, settles, omega arith)
          | inr (left, ready', attempts, same) ↦ waits q x left ready' attempts same
        ])

  -- Whatever the provider answers, a pending event of a payment that no other session touches is
  -- settled after as many rounds as it has attempts left, and after one at least: the payment is
  -- confirmed or failed, its event is sent, or failed with the payment, and each round has counted
  -- at most one attempt.
  pub event_settles :
      (runs : ℕ → Run) (max_event_attempts event_id n : ℕ) (e : OutboxEvent) (p : Payment)
      (w : World H)
      → ((i : ℕ) (db : Db) → (runs i).meanwhile db ≡ db)
      → ((i : ℕ) → (runs i).max_event_attempts ≡ max_event_attempts)
      → IsReady event_id e p w
      → max_event_attempts ≤ e.attempts + suc n
      → Settled e.aggregate_id event_id (e.attempts + suc n) (rounds_of runs event_id (suc n) w).db
  event_settles runs m event_id zero e p w alone setting ready enough =
      settles_after runs event_id 0 e p w (alone 0) ready
        (λ q x left _ _ _. absurd (omega (arith, setting 0)))
  event_settles runs m event_id (suc n) e p w alone setting ready enough =
      settles_after runs event_id (suc n) e p w (alone (suc n)) ready
        (λ q x left ready' attempts same.
          let (q', x', payment, event, settles, few) =
            event_settles runs m event_id n x q (process_event (runs (suc n)) e w).1 alone setting
              ready' (omega arith) in
          (
            q',
            x',
            subst
                (λ j.
                  get_by_payment_id j
                    (rounds_of runs event_id (suc n) (process_event (runs (suc n)) e w).1).db
                  ≡ some q')
                same payment,
            event,
            settles,
            omega arith,
          ))
