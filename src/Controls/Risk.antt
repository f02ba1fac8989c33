-- ===== src/Controls/Risk.antt =====
-- payments_api/services/risk_service.py. The decimal factor 0.9 and the float ratio 0.8 are cross
-- multiplied: the quotient of two integers below 2^50 is at least the float 0.8 exactly when it
-- is at least 4/5.
pub mod Laws
use global_payments_observab.Base.{
  ℕ, zero, ◌+◌, ◌-◌, ◌*◌, min, String, Bool, true, false, not, ◌&&◌, ◌||◌, Option, none, some, List,
  [], ◌∷◌, ltb, leb, ◌==◌, if◌then◌else◌,
}
use global_payments_observab.Contracts.Enums.{
  KycLevel, basic, full, RiskDecision, allow, review, block,
}
use global_payments_observab.Contracts.Records.{Customer, LimitsPolicy}
use global_payments_observab.Db.{Db, count_failures_since, destination_seen}

pub record RiskContext : Type 0 where
  pub amount : ℕ
  pub policy_max : ℕ
  pub velocity_count : ℕ
  pub velocity_limit : ℕ
  pub repeated_failures : ℕ
  pub is_new_customer : Bool
  pub customer_kyc : KycLevel
  pub destination_seen : Bool

unfoldable pub amount_near_max : RiskContext → ℕ
amount_near_max c = if leb (c.policy_max * 9) (c.amount * 10) then 25 else 0

unfoldable pub velocity_spike : RiskContext → ℕ
velocity_spike c =
    if c.velocity_limit == 0
    then 0
    else if leb (c.velocity_limit * 4) (c.velocity_count * 5)
    then 20
    else 0

unfoldable pub repeated_failures_score : RiskContext → ℕ
repeated_failures_score c =
    if leb 3 c.repeated_failures then 25 else if leb 1 c.repeated_failures then 10 else 0

-- `in {KycLevel.NONE, KycLevel.BASIC}`
abbrev is_low : KycLevel → Bool
is_low full = false
is_low _ = true

unfoldable pub new_customer_low_kyc : RiskContext → ℕ
new_customer_low_kyc c = if c.is_new_customer && is_low c.customer_kyc then 20 else 0

unfoldable pub new_destination : RiskContext → ℕ
new_destination c = if not c.destination_seen then 15 else 0

-- `RiskRule.score` of each of the five rules
pub data RiskRule : Type 0 where
  amount_near_max_rule velocity_spike_rule repeated_failures_rule : RiskRule
  new_customer_low_kyc_rule new_destination_rule : RiskRule

unfoldable pub rule_score : RiskRule → RiskContext → ℕ
unfolding amount_near_max velocity_spike repeated_failures_score new_customer_low_kyc
    new_destination
rule_score amount_near_max_rule c = amount_near_max c
rule_score velocity_spike_rule c = velocity_spike c
rule_score repeated_failures_rule c = repeated_failures_score c
rule_score new_customer_low_kyc_rule c = new_customer_low_kyc c
rule_score new_destination_rule c = new_destination c

abbrev pub rules : List RiskRule
rules =
    amount_near_max_rule ∷ velocity_spike_rule ∷ repeated_failures_rule ∷ new_customer_low_kyc_rule
    ∷ new_destination_rule ∷ []

unfoldable pub sum_scores : List RiskRule → RiskContext → ℕ
unfolding rule_score
sum_scores [] c = 0
sum_scores (r ∷ rs) c = rule_score r c + sum_scores rs c

unfoldable pub risk_score : RiskContext → ℕ
risk_score c = min 100 (sum_scores rules c)

pub record RiskThresholds : Type 0 where
  pub review_threshold : ℕ
  pub block_threshold : ℕ

unfoldable pub decision_from_score : RiskThresholds → ℕ → RiskDecision
decision_from_score t score =
    if leb t.block_threshold score
    then block
    else if leb t.review_threshold score
    then review
    else allow

-- 7 days, and 1 day, in microseconds
abbrev pub week : ℕ
week = 604_800_000_000

abbrev pub day : ℕ
day = 86_400_000_000

unfoldable pub is_new_customer : Customer → ℕ → Bool
is_new_customer customer now = elim customer.created_at [
  | none ↦ true
  | some created ↦ ltb (now - created) week
]

unfoldable pub risk_context : Db → Customer → ℕ → LimitsPolicy → ℕ → Option String → ℕ → RiskContext
unfolding is_new_customer
risk_context db customer amount policy velocity_count destination now = record {
  amount = amount;
  policy_max = policy.max_amount;
  velocity_count = velocity_count;
  velocity_limit = policy.velocity_limit_count;
  repeated_failures = count_failures_since customer.customer_id (now - day) db;
  is_new_customer = is_new_customer customer now;
  customer_kyc = customer.kyc_level;
  destination_seen = destination_seen customer.customer_id destination db;
}

-- `RiskScoreService.evaluate`, at the time `now` that it reads.
unfoldable pub evaluate_risk :
    RiskThresholds → Db → Customer → ℕ → LimitsPolicy → ℕ → Option String → ℕ → ℕ × RiskDecision
unfolding risk_context risk_score decision_from_score
evaluate_risk t db customer amount policy velocity_count destination now =
    let score =
      risk_score (risk_context db customer amount policy velocity_count destination now) in
    (score, decision_from_score t score)
