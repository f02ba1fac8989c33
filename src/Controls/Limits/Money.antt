-- ===== src/Controls/Limits/Money.antt =====
-- `_as_cents`, `_seconds_until_day_end` and `_utc_day_start` of limits_service.py.
use global_payments_observab.Base.{
  ℕ, ◌+◌, ◌-◌, ◌*◌, ◌/◌, ◌%◌, ◌≤◌, ◌<◌, max, arith, ltb, ◌==◌, if◌then◌else◌,
}

-- `int((amount * 100).to_integral_value())`, which rounds half to even: an amount is a number of
-- units, `per_cent` of which make a cent.
unfoldable pub as_cents : ℕ → ℕ → ℕ
as_cents per_cent amount =
    let whole = amount / per_cent in
    let twice = 2 * (amount % per_cent) in
    if ltb twice per_cent
    then whole
    else if ltb per_cent twice
    then whole + 1
    else if whole % 2 == 0
    then whole
    else whole + 1

abbrev microseconds : ℕ
microseconds = 1_000_000

abbrev day_length : ℕ
day_length = 86_400_000_000

-- `now.replace(hour=0, minute=0, second=0, microsecond=0)`
unfoldable pub utc_day_start : ℕ → ℕ
utc_day_start now = now - now % day_length

-- `max(1, int((end - now).total_seconds()))`, with `end` at 23:59:59 of the day
unfoldable pub seconds_until_day_end : ℕ → ℕ
unfolding utc_day_start
seconds_until_day_end now = max 1 ((utc_day_start now + 86_399 * microseconds - now) / microseconds)

-- The daily counter never outlives the day by more than a second, and lives at least one.
pub seconds_until_day_end_bounds :
    (now : ℕ)
    → (1 ≤ seconds_until_day_end now)
      × (now + seconds_until_day_end now * microseconds ≤ utc_day_start now + 86_401 * microseconds)
unfolding seconds_until_day_end
seconds_until_day_end_bounds now = omega arith

-- The cents of an amount are off by at most half a cent.
pub as_cents_near :
    (per_cent amount : ℕ)
    → 0 < per_cent
    → (2 * (as_cents per_cent amount * per_cent) ≤ 2 * amount + per_cent)
      × (2 * amount ≤ 2 * (as_cents per_cent amount * per_cent) + per_cent)
unfolding as_cents
as_cents_near per_cent amount h = grind arith
