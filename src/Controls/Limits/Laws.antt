-- ===== src/Controls/Limits/Laws.antt =====
-- What an accepted payment satisfies, whatever the cache does.
use global_payments_observab.Base.{ℕ, ◌+◌, ◌≤◌, String, ◌≡◌, ◌⊎◌}
use global_payments_observab.Base.Exec.{ok, ◌>>=◌, ◌>>◌}
use global_payments_observab.Contracts.Enums.{PaymentMethod}
use global_payments_observab.Contracts.Records.{LimitsPolicy}
use global_payments_observab.Rails.{limits_daily_key}
use global_payments_observab.Db.{sum_outgoing_since}
use global_payments_observab.Api.Cache.{Redis, Format}
use global_payments_observab.Api.World.{World}
use global_payments_observab.Controls.Limits.{
  LimitsSettings, LimitsClock, LimitsEvaluation, redis_get_int,
}
use global_payments_observab.Controls.Limits.Money.{as_cents, utc_day_start}

module _ {R : Redis} (F : Format) (S : LimitsSettings) (t : LimitsClock) where
  -- The daily total that was compared: the cache's counter, or the database's sum.
  abbrev pub WithinDay : String → PaymentMethod → ℕ → LimitsPolicy → World R → Type 0
  WithinDay customer rail amount policy w =
      ((current : ℕ) × ((redis_get_int F S (limits_daily_key (F.show_date t.date) customer rail)
            w).0
          ≡ ok current)
        × (current + as_cents S.per_cent amount ≤ as_cents S.per_cent policy.daily_limit_amount))
      ⊎ (sum_outgoing_since customer rail (utc_day_start t.day_start) w.db + amount
          ≤ policy.daily_limit_amount)

  abbrev pub Accepted : String → PaymentMethod → ℕ → LimitsEvaluation → World R → Type 0
  Accepted customer rail amount e w =
      (e.policy.min_amount ≤ amount)
      × (amount ≤ e.policy.max_amount)
      × WithinDay customer rail amount e.policy w
      × (e.velocity_count ≤ e.policy.velocity_limit_count)
