-- ===== src/Controls/Aml/Rules.antt =====
-- How the rules of the anti-money-laundering engine decide.
use global_payments_observab.Base.{
  ℕ, ◌+◌, String, ◌≡◌, true, Option, leb, ltb, if◌then◌else◌, ◌*◌, ◌<◌, ◌≤◌,
}
use global_payments_observab.Base.Exec.{ok}
use global_payments_observab.Contracts.Enums.{PaymentMethod, AmlDecision, allow, review, block}
use global_payments_observab.Contracts.Records.{LimitsPolicy}
use global_payments_observab.Api.Cache.{Redis, Format}
use global_payments_observab.Api.World.{World}
use global_payments_observab.Controls.Aml.{
  AmlSettings, AmlClock, is_blocklisted, evaluate_aml, counted,
}

-- A destination on the blocklist is blocked, whatever the cache, the tables and the amount.
pub blocklist_blocks :
    {R : Redis} (F : Format) (S : AmlSettings) (t : AmlClock) (customer : String)
    (rail : PaymentMethod) (amount : ℕ) (destination : Option String) (policy : LimitsPolicy)
    (w : World R)
    → is_blocklisted S destination ≡ true
    → evaluate_aml F S t customer rail amount destination policy w ≡ (ok block, w)
unfolding evaluate_aml
blocklist_blocks F S t customer rail amount destination policy w h = rw h

-- The two rules behind the blocklist, on the total and the count that were read.
abbrev pub rules_decide : AmlSettings → ℕ → LimitsPolicy → ℕ → ℕ → AmlDecision
rules_decide S amount policy total near =
    if ltb S.total_threshold_amount (total + amount)
    then review
    else if leb S.structuring_count_threshold (counted amount policy near)
    then review
    else allow

-- The decision that the numbers call for: this payment counts as near the maximum from 95% of it on.
pub data Warrants (S : AmlSettings) (amount max_amount total near : ℕ) : AmlDecision → Type 0 where
  over_total :
      S.total_threshold_amount < total + amount → Warrants S amount max_amount total near review
  structured_with_this :
      total + amount ≤ S.total_threshold_amount
      → 95 * max_amount ≤ 100 * amount
      → S.structuring_count_threshold ≤ near + 1
      → Warrants S amount max_amount total near review
  structured_without_this :
      total + amount ≤ S.total_threshold_amount
      → 100 * amount < 95 * max_amount
      → S.structuring_count_threshold ≤ near
      → Warrants S amount max_amount total near review
  unsuspicious_with_this :
      total + amount ≤ S.total_threshold_amount
      → 95 * max_amount ≤ 100 * amount
      → near + 1 < S.structuring_count_threshold
      → Warrants S amount max_amount total near allow
  unsuspicious_without_this :
      total + amount ≤ S.total_threshold_amount
      → 100 * amount < 95 * max_amount
      → near < S.structuring_count_threshold
      → Warrants S amount max_amount total near allow
