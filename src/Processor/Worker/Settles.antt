-- ===== src/Processor/Worker/Settles.antt =====
-- workers/outbox_worker.py: the rounds of `run_forever`, as one event sees them.
pub mod Laws
use mathlib.Core.Path.{subst}
use global_payments_observab.Base.{
  ℕ, zero, suc, ◌+◌, ◌≤◌, ◌<◌, ◌≡◌, ◌⊎◌, refl, sym, ap, ◌∙◌, inl, inr, false, Option, none, some,
  List, [], ◌∷◌, arith, ==_iff, All, find, find_holds, if◌then◌else◌,
}
use global_payments_observab.Contracts.Enums.{
  PaymentStatus, confirmed, failed, OutboxStatus, pending, sent, is_pending,
}
use global_payments_observab.Contracts.Records.{Payment, OutboxEvent}
use global_payments_observab.Db.{Db, get_by_payment_id, has_payment_id}
use global_payments_observab.Processor.World.{World, Http, Run}
use global_payments_observab.Processor.Repositories.{has_event_id}
use global_payments_observab.Processor.Worker.{process_event}
use global_payments_observab.Processor.Worker.Laws.{
  Fits, delivered, declined, exhausted, waiting, process_event_ends,
}
use global_payments_observab.Processor.Worker.Rows.{Holds, IsKept}

module _ {H : Http} where
  abbrev pub process_if_pending : Run → Option OutboxEvent → World H → World H
  process_if_pending run none w = w
  process_if_pending run (some e) w =
      let w' = (process_event run e w).1 in if is_pending e.status then w' else w

  -- An event that the loop of `run_forever` fetches in `n` rounds, as long as it is pending.
  unfoldable pub rounds_of : (ℕ → Run) → ℕ → ℕ → World H → World H
  unfolding process_event
  rounds_of runs event_id zero w = w
  rounds_of runs event_id (suc n) w =
      rounds_of runs event_id n
        (process_if_pending (runs n) (find (has_event_id event_id) w.db.outbox) w)
