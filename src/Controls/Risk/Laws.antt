-- ===== src/Controls/Risk/Laws.antt =====
-- The score's range and its growth, and what a decision says of the score.
use global_payments_observab.Base.{ℕ, ◌+◌, ◌≤◌, ◌≡◌, refl, true, arith}
use global_payments_observab.Contracts.Enums.{RiskDecision, allow, review, block}
use global_payments_observab.Controls.Risk.{
  RiskContext, amount_near_max, velocity_spike, repeated_failures_score, new_customer_low_kyc,
  new_destination, risk_score, sum_scores, RiskThresholds, decision_from_score, rules,
}

-- One context is at least as risky as another: more money of the same limit, more payments in the
-- window, more failures, and no sign of trust that the other lacks.
pub record IsRiskier (c d : RiskContext) : Type 0 where
  pub amount : c.amount ≤ d.amount
  pub policy_max : c.policy_max ≡ d.policy_max
  pub velocity_count : c.velocity_count ≤ d.velocity_count
  pub velocity_limit : c.velocity_limit ≡ d.velocity_limit
  pub repeated_failures : c.repeated_failures ≤ d.repeated_failures
  pub is_new_customer : c.is_new_customer ≡ true → d.is_new_customer ≡ true
  pub customer_kyc : c.customer_kyc ≡ d.customer_kyc
  pub destination_seen : d.destination_seen ≡ true → c.destination_seen ≡ true

module _ (c d : RiskContext) (h : IsRiskier c d) where
  amount_mono : amount_near_max c ≤ amount_near_max d
  unfolding amount_near_max
  amount_mono = ground arith

  velocity_mono : velocity_spike c ≤ velocity_spike d
  unfolding velocity_spike
  velocity_mono = ground arith

  failures_mono : repeated_failures_score c ≤ repeated_failures_score d
  unfolding repeated_failures_score
  failures_mono = ground arith

  new_customer_mono : new_customer_low_kyc c ≤ new_customer_low_kyc d
  unfolding new_customer_low_kyc
  new_customer_mono = ground arith

  destination_mono : new_destination c ≤ new_destination d
  unfolding new_destination
  destination_mono = ground arith

sum_scores_lem :
    (c : RiskContext)
    → sum_scores rules c
      ≡ amount_near_max c
        + (velocity_spike c
            + (repeated_failures_score c + (new_customer_low_kyc c + (new_destination c + 0))))
unfolding sum_scores
sum_scores_lem c = refl

-- The score is at most 100, and never falls when the payment grows riskier.
pub risk_score_monotone :
    (c d : RiskContext) → IsRiskier c d → (risk_score c ≤ risk_score d) × (risk_score d ≤ 100)
unfolding risk_score
risk_score_monotone c d h = omega (
  arith,
  sum_scores_lem c,
  sum_scores_lem d,
  amount_mono c d h,
  velocity_mono c d h,
  failures_mono c d h,
  new_customer_mono c d h,
  destination_mono c d h,
)

-- The decisions from the mildest to the hardest.
pub severity : RiskDecision → ℕ
severity allow = 0
severity review = 1
severity block = 2

-- A riskier payment never gets a milder decision, whatever the two thresholds.
pub decision_monotone :
    (t : RiskThresholds) (c d : RiskContext)
    → IsRiskier c d
    → severity (decision_from_score t (risk_score c))
      ≤ severity (decision_from_score t (risk_score d))
unfolding decision_from_score severity
decision_monotone t c d h = let m = (risk_score_monotone c d h).0 in ground (arith, m)
