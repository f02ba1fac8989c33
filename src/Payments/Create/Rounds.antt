-- ===== src/Payments/Create/Rounds.antt =====
-- One look at what is stored for a scope, and the rounds of the waiting loop.
use global_payments_observab.Base.{
  ℕ, zero, suc, ◌≡◌, refl, sym, ◌∙◌, inl, inr, none, some, [], Option-cases,
}
use mathlib.Core.Path.{subst}
use global_payments_observab.Base.Exec.{Outcome, ok, err, continue, ◌>>=◌}
use global_payments_observab.Contracts.Records.{Payment, AcceptedResponse, Snapshot, PaymentRequest}
use global_payments_observab.Db.{Db, get_snapshot, get_by_merchant_and_idempotency}
use global_payments_observab.Api.Errors.{Exception, app, idempotency_conflict}
use global_payments_observab.Api.Cache.{Redis}
use global_payments_observab.Api.World.{World, Action, emit, idempotency_replay_total}
use global_payments_observab.Api.Quiet.{IsQuiet, SameStore}
use global_payments_observab.Api.Validation.{RequestContext}
use global_payments_observab.Payments.Create.Types.{Run}
use global_payments_observab.Payments.Create.Replay.{
  response_from_payment, resolve_replayed, wait_rounds, sleep,
}
use global_payments_observab.Payments.Create.Ending.{
  Others, slept, Ending, refused, replayed, existing,
}

module _ {R : Redis} (run : Run) (c : RequestContext) where
  pub resolve_snapshot :
      (w : World R) (s : Snapshot)
      → get_snapshot c.merchant_id c.idempotency_key w.db ≡ some s
      → resolve_replayed run c w ≡ (ok (some s.response_payload), emit idempotency_replay_total w)
  unfolding resolve_replayed
  resolve_snapshot w s e = rw e

  pub resolve_existing :
      (w : World R) (p : Payment)
      → get_snapshot c.merchant_id c.idempotency_key w.db ≡ none
      → get_by_merchant_and_idempotency c.merchant_id c.idempotency_key w.db ≡ some p
      → resolve_replayed run c w ≡ (ok (some (response_from_payment run p)), w)
  unfolding resolve_replayed
  resolve_existing w p e e' = rw (e, e')

  pub resolve_nothing :
      (w : World R)
      → get_snapshot c.merchant_id c.idempotency_key w.db ≡ none
      → get_by_merchant_and_idempotency c.merchant_id c.idempotency_key w.db ≡ none
      → resolve_replayed run c w ≡ (ok none, w)
  unfolding resolve_replayed
  resolve_nothing w e e' = rw (e, e')

module _ {R : Redis} (run : Run) (c : RequestContext) (request : PaymentRequest) (db₀ : Db) where
  abbrev pub Ends : Outcome Exception AcceptedResponse × World R → Type 0
  Ends (r, w) = Ending run c request db₀ r w.db

  -- An action that leaves the store alone, before a block that ends well.
  pub quiet_then :
      {A : Type 0} (m : Action R A) (f : A → Action R AcceptedResponse) (w : World R)
      → IsQuiet m
      → Others run db₀ w.db
      → w.added ≡ []
      → ((a : A) (w' : World R) → (m w).0 ≡ ok a → w'.db ≡ w.db → w'.added ≡ [] → Ends (f a w'))
      → Ends ((m >>= f) w)
  quiet_then {A} m f w q others none_added ends = from_result (m w).0 (m w).1 refl (q.at w)
    where
      from_result :
          (r : Outcome Exception A) (w' : World R)
          → (m w).0 ≡ r
          → SameStore w w'
          → Ends (continue r f w')
      from_result (ok a) w' h s = ends a w' h s.db (s.added ∙ none_added)
      from_result (err e) w' h s = refused e refl (subst (Others run db₀) (sym s.db) others)

  pub wait_rounds_end : (n : ℕ) (w : World R) → Others run db₀ w.db → Ends (wait_rounds run c n w)
  unfolding wait_rounds
  wait_rounds_end zero w others = refused (app idempotency_conflict) refl others
  wait_rounds_end (suc n) w others =
      elim (Option-cases (get_snapshot c.merchant_id c.idempotency_key w.db)) [
        | inr (s, e) ↦ rw (resolve_snapshot run c w s e) (replayed s e refl others)
        | inl e ↦
            elim (Option-cases
              (get_by_merchant_and_idempotency c.merchant_id c.idempotency_key w.db)) [
                | inr (p, e') ↦ rw (resolve_existing run c w p e e') (existing p e e' refl others)
                | inl e' ↦
                    rw (resolve_nothing run c w e e')
                      (wait_rounds_end n (sleep run n w) (slept n others))
              ]
      ]
