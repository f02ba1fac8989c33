-- ===== src/Payments/Create/Retry.antt =====
-- A repeated request: what the second delivery of an idempotency key is answered.
use global_payments_observab.Base.{
  ℕ, String, ◌≡◌, sym, ◌∙◌, inl, inr, Bool, true, none, some, List, [], ◌∷◌, ◌++◌, arith,
  Option-cases, find, find-append_none, find-append_some,
}
use global_payments_observab.Base.Exec.{Outcome}
use global_payments_observab.Contracts.Records.{Payment, AcceptedResponse, Snapshot, PaymentRequest}
use global_payments_observab.Db.{
  Db, get_snapshot, get_by_merchant_and_idempotency, commit_rows, has_scope, snapshot_has_scope,
}
use global_payments_observab.Api.Errors.{Exception}
use global_payments_observab.Api.Cache.{Redis}
use global_payments_observab.Api.World.{World}
use global_payments_observab.Api.Validation.{RequestContext}
use global_payments_observab.Payments.Create.Types.{Services, Run, ControlDecision}
use global_payments_observab.Payments.Create.Persist.{
  response_payload, transaction_rows, new_payment, new_snapshot,
}
use global_payments_observab.Payments.Create.Execute.{handle}
use global_payments_observab.Payments.Create.Ending.{Ending, refused, replayed, existing, created}
use global_payments_observab.Payments.Create.Refines.{handle_refines}
use global_payments_observab.Payments.Create.Idempotent.{
  OthersKeep, Others-keeps, transaction_appends,
}

-- Every scope that has a payment has a snapshot of its response.
pub record IsRecorded (db : Db) : Type 0 where
  pub has_snapshot :
      (m k : String) (p : Payment)
      → get_by_merchant_and_idempotency m k db ≡ some p
      → (s : Snapshot) × (get_snapshot m k db ≡ some s)

find-last :
    {A : Type 0} (p : A → Bool) (xs : List A) (x : A)
    → find p xs ≡ none
    → p x ≡ true
    → find p (xs ++ x ∷ []) ≡ some x
unfolding find
find-last p xs x h e = find-append_none p xs (x ∷ []) h ∙ ground arith

find-last_holds :
    {A : Type 0} (p : A → Bool) (xs : List A) (x y : A)
    → find p xs ≡ none
    → find p (xs ++ x ∷ []) ≡ some y
    → p x ≡ true
unfolding find
find-last_holds p xs x y h e =
    let found = sym (find-append_none p xs (x ∷ []) h) ∙ e in ground arith

-- A row more with a key, beside a row more with the same key in another table.
found_in_both :
    {A B : Type 0} (p : A → Bool) (q : B → Bool) (xs : List A) (x : A) (ys : List B) (y : B) (a : A)
    → ((a : A) → find p xs ≡ some a → (b : B) × (find q ys ≡ some b))
    → (p x ≡ true → q y ≡ true)
    → find p (xs ++ x ∷ []) ≡ some a
    → (b : B) × (find q (ys ++ y ∷ []) ≡ some b)
found_in_both p q xs x ys y a before same found = elim (Option-cases (find q ys)) [
  | inr (b, e) ↦ (b, find-append_some q ys (y ∷ []) b e)
  | inl e ↦ elim (Option-cases (find p xs)) [
    | inr (a', e') ↦ let (b, e'') = before a' e' in (b, find-append_some q ys (y ∷ []) b e'')
    | inl e' ↦ (y, find-last q ys y e (same (find-last_holds p xs x a e' found)))
  ]
]

module _ (run : Run) (c : RequestContext) (request : PaymentRequest) (d : ControlDecision) where
  commit-IsRecorded :
      (r : AcceptedResponse) (event_id : ℕ) (before db : Db)
      → IsRecorded before
      → commit_rows (transaction_rows run c request d r event_id) before ≡ some db
      → IsRecorded db
  unfolding get_snapshot get_by_merchant_and_idempotency new_payment new_snapshot
  commit-IsRecorded r event_id before db recorded h =
      let (_, _, payments, _, snapshots) =
        transaction_appends run c request d r event_id before db h in
      record {
        has_snapshot = λ m k p found. rw snapshots (
            found_in_both (has_scope m k) (snapshot_has_scope m k) before.payments
              (new_payment run c request d r) before.snapshots (new_snapshot c r) p
              (recorded.has_snapshot m k) (λ same. same) (rw payments at found));
      }

module _ (run : Run) (c : RequestContext) (request : PaymentRequest) where
  Ending-IsRecorded :
      (db₀ : Db) {o : Outcome Exception AcceptedResponse} {db : Db}
      → OthersKeep run IsRecorded
      → IsRecorded db₀
      → Ending run c request db₀ o db
      → IsRecorded db
  Ending-IsRecorded db₀ keep u (refused e h o) = Others-keeps IsRecorded keep u o
  Ending-IsRecorded db₀ keep u (replayed s h h' o) = Others-keeps IsRecorded keep u o
  Ending-IsRecorded db₀ keep u (existing p h h' h'' o) = Others-keeps IsRecorded keep u o
  Ending-IsRecorded db₀ keep u (created d i j before h o stored h') =
      commit-IsRecorded run c request d (response_payload run d i) j before _
        (Others-keeps IsRecorded keep u o) stored

module _ {R : Redis} (S : Services) (run : Run) (c : RequestContext)
    (request : PaymentRequest) where
  -- If every scope with a payment has a snapshot in the tables that a request starts on, if the other
  -- sessions keep that and if its own session has nothing added, then it is so after the request too,
  -- however it ends.
  pub handle-IsRecorded :
      (w : World R)
      → OthersKeep run IsRecorded
      → IsRecorded w.db
      → w.added ≡ []
      → IsRecorded (handle S run c request w).1.db
  handle-IsRecorded w keep recorded e =
      Ending-IsRecorded run c request w.db keep recorded (handle_refines S run c request w e)
