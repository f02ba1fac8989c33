-- ===== src/Processor/Fetch.antt =====
-- What a fetched batch of the outbox holds.
use global_payments_observab.Base.{
  ℕ, zero, suc, ◌≤◌, ◌≡◌, Bool, true, ◌&&◌, List, [], ◌∷◌, leb, All, All-map, length, take, select,
  length-take, Bool-cases, inl, inr,
}
use global_payments_observab.Contracts.Records.{OutboxEvent}
use global_payments_observab.Db.{Db}
use global_payments_observab.Processor.Repositories.{
  fetch_pending_requested, order_by_created_at, insert_by_age, is_requested, is_due,
}

module _ {A : Type 0} where
  All-take : (P : A → Type 0) (n : ℕ) (xs : List A) → All P xs → All P (take n xs)
  All-take P zero xs h = tt
  All-take P (suc n) [] h = tt
  All-take P (suc n) (x ∷ xs) h = (h.0, All-take P n xs h.1)

  All-select :
      (P : A → Type 0) (p : A → Bool) (xs : List A)
      → All P xs
      → All (λ x. P x × (p x ≡ true)) (select p xs)
  unfolding select
  All-select P p [] h = tt
  All-select P p (x ∷ xs) h = elim (Bool-cases (p x)) [
    | inl e ↦ rw (e, select) ((h.0, e), All-select P p xs h.1)
    | inr e ↦ rw (e, select) (All-select P p xs h.1)
  ]

  All-unit : (xs : List A) → All (λ x. Unit {0}) xs
  All-unit [] = tt
  All-unit (x ∷ xs) = (tt, All-unit xs)

All-insert :
    (P : OutboxEvent → Type 0) (e : OutboxEvent) (xs : List OutboxEvent)
    → P e
    → All P xs
    → All P (insert_by_age e xs)
unfolding insert_by_age
All-insert P e [] p h = (p, tt)
All-insert P e (x ∷ xs) p h = elim (Bool-cases (leb e.created_at x.created_at)) [
  | inl first ↦ rw (first, insert_by_age) (p, h)
  | inr later ↦ rw (later, insert_by_age) (h.0, All-insert P e xs p h.1)
]

All-order :
    (P : OutboxEvent → Type 0) (xs : List OutboxEvent) → All P xs → All P (order_by_created_at xs)
unfolding order_by_created_at
All-order P [] h = tt
All-order P (x ∷ xs) h = All-insert P x (order_by_created_at xs) h.0 (All-order P xs h.1)

-- A fetched event asks for a payment, is pending and is due, and is a row of the outbox.
pub All-fetched :
    (P : OutboxEvent → Type 0) (limit now : ℕ) (db : Db)
    → All P db.outbox
    → All
        (λ (e : OutboxEvent). P e × ((is_requested e.event_type && is_due now e) ≡ true))
        (fetch_pending_requested limit now db)
unfolding fetch_pending_requested
All-fetched P limit now db h =
    let due = λ (e : OutboxEvent). is_requested e.event_type && is_due now e in
    All-take _ limit _ (All-order _ (select due db.outbox) (All-select P due db.outbox h))

-- A batch has no more events than its limit, and each of them asks for a payment, is pending and is due.
pub fetch_due_requests :
    (limit now : ℕ) (db : Db)
    → (length (fetch_pending_requested limit now db) ≤ limit)
      × All
          (λ (e : OutboxEvent). (is_requested e.event_type && is_due now e) ≡ true)
          (fetch_pending_requested limit now db)
unfolding fetch_pending_requested
fetch_due_requests limit now db = (
  length-take limit _,
  All-map _ _ (fetch_pending_requested limit now db) (λ e h. h.1)
      (All-fetched (λ e. Unit {0}) limit now db (All-unit db.outbox)),
)
