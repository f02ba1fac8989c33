-- ===== src/Controls/Aml.antt =====
-- payments_api/services/aml_service.py: the rules against money laundering and the history of
-- outgoing payments that they read, in the cache or in the database where the cache fails.
pub mod Entry
pub mod Loops
pub mod Rules
pub mod History
use Entry.{format_entry, sum_recent, count_near}
use global_payments_observab.Base.{
  ℕ, ◌+◌, ◌-◌, ◌*◌, ◌/◌, max, String, Bool, true, false, Option, none, some, List, [], ◌∷◌, ltb,
  leb, str_eq, ◌||◌, not, ◌&&◌, if◌then◌else◌,
}
use global_payments_observab.Base.Exec.{Outcome, ok, err, pure, raise, gets, ◌>>=◌, ◌>>◌}
use global_payments_observab.Contracts.Enums.{
  PaymentMethod, AmlDecision, allow, review, block, method_value,
}
use global_payments_observab.Contracts.Records.{LimitsPolicy}
use global_payments_observab.Rails.{aml_history_key, aml_history_max_items}
use global_payments_observab.Db.{is_blank, sum_outgoing_since, count_near_threshold_since}
use global_payments_observab.Api.Errors.{Exception}
use global_payments_observab.Api.Cache.{Redis, Format}
use global_payments_observab.Api.World.{World, Action, call, try_except}
use global_payments_observab.Controls.Limits.{on_redis_error}

pub record AmlSettings : Type 0 where
  pub blocklist_destinations : List String
  pub total_window_seconds : ℕ
  pub total_threshold_amount : ℕ
  pub structuring_window_seconds : ℕ
  pub structuring_count_threshold : ℕ

-- The times that one call of `evaluate` reads, in microseconds.
pub record AmlClock : Type 0 where
  pub total : ℕ
  pub total_in_database : ℕ
  pub near : ℕ
  pub near_in_database : ℕ

abbrev pub second : ℕ
second = 1_000_000

abbrev pub is_in : String → List String → Bool
is_in d [] = false
is_in d (x ∷ xs) = str_eq d x || is_in d xs

-- `destination and destination in self._blocklist_destinations`
abbrev pub is_blocklisted : AmlSettings → Option String → Bool
is_blocklisted S none = false
is_blocklisted S (some d) = not (str_eq d "") && is_in d S.blocklist_destinations

-- `if amount >= policy.max_amount * Decimal("0.95"): near_count += 1`
abbrev counted : ℕ → LimitsPolicy → ℕ → ℕ
counted amount policy near_count =
    if leb (policy.max_amount * 95) (amount * 100) then near_count + 1 else near_count

module _ {R : Redis} (F : Format) (S : AmlSettings) where
  -- `_read_history_entries`
  unfoldable pub read_history_entries : String → Action R (Option (List String))
  read_history_entries key =
      try_except (do entries ← call (R.lrange key 0 aml_history_max_items); pure (some entries))
        (on_redis_error (pure none))

  abbrev pub total_from : AmlClock → String → PaymentMethod → Option (List String) → Action R ℕ
  total_from t customer rail (some entries) =
      pure (sum_recent F entries (method_value rail) (t.total / second - S.total_window_seconds))
  total_from t customer rail none = gets (λ (w : World R).
      sum_outgoing_since customer rail (t.total_in_database - S.total_window_seconds * second) w.db)

  -- `_total_outgoing_recent`
  unfoldable pub total_outgoing_recent : AmlClock → String → PaymentMethod → Action R ℕ
  total_outgoing_recent t customer rail = do
    entries ← read_history_entries (aml_history_key customer)
    total_from t customer rail entries

  abbrev pub near_from : AmlClock → String → PaymentMethod → ℕ → Option (List String) → Action R ℕ
  near_from t customer rail max_amount (some entries) = pure (
      count_near F entries (method_value rail) (t.near / second - S.structuring_window_seconds)
        max_amount)
  near_from t customer rail max_amount none = gets (λ (w : World R).
      count_near_threshold_since customer rail
        (t.near_in_database - S.structuring_window_seconds * second) max_amount w.db)

  -- `_near_threshold_count`
  unfoldable pub near_threshold_count : AmlClock → String → PaymentMethod → ℕ → Action R ℕ
  near_threshold_count t customer rail max_amount = do
    entries ← read_history_entries (aml_history_key customer)
    near_from t customer rail max_amount entries

  abbrev pub structuring_rule :
      AmlClock → String → PaymentMethod → ℕ → LimitsPolicy → Action R AmlDecision
  structuring_rule t customer rail amount policy = do
    near_count ← near_threshold_count t customer rail policy.max_amount
    pure (
        if leb S.structuring_count_threshold (counted amount policy near_count)
        then review
        else allow)

  abbrev pub total_rule :
      AmlClock → String → PaymentMethod → ℕ → LimitsPolicy → Action R AmlDecision
  total_rule t customer rail amount policy = do
    total_outgoing ← total_outgoing_recent t customer rail
    let rest = structuring_rule t customer rail amount policy
    if ltb S.total_threshold_amount (total_outgoing + amount) then pure review else rest

  -- `AmlRuleEngine.evaluate`
  unfoldable pub evaluate_aml :
      AmlClock → String → PaymentMethod → ℕ → Option String → LimitsPolicy → Action R AmlDecision
  evaluate_aml t customer rail amount destination policy =
      let rest = total_rule t customer rail amount policy in
      if is_blocklisted S destination then pure block else rest

  -- `record_outgoing`, at the time `now`
  unfoldable pub record_outgoing : ℕ → String → PaymentMethod → ℕ → Action R (Unit {0})
  record_outgoing now customer rail amount =
      let key = aml_history_key customer in
      try_except
        (do
          call (R.lpush key (format_entry F (now / second) (method_value rail) amount))
          call (R.ltrim key 0 aml_history_max_items)
          call (R.expire key (max S.total_window_seconds S.structuring_window_seconds)))
        (on_redis_error (pure tt))
