-- ===== src/Tests/Controls.antt =====
-- The controls, run.
use global_payments_observab.Base.{◌<>◌}
use global_payments_observab.Base.{
  ℕ, zero, suc, ◌+◌, ◌-◌, ◌*◌, ◌/◌, ◌<◌, ◌≤◌, ◌≢◌, ◌≡◌, min, String, str_eq, ◌<>◌, refl, arith,
  Bool, true, false, not, ◌&&◌, Option, none, some, List, [], ◌∷◌, length, take, count, sum_of,
  eq_refl, ap, if◌then◌else◌,
}
use global_payments_observab.Base.Exec.{ok, err}
use global_payments_observab.Contracts.Enums.{ted, full, active, merchant}
use global_payments_observab.Api.Errors.{app, rate_limited}
use global_payments_observab.Api.World.{World}
use global_payments_observab.Controls.Idempotency.{SetsOnce, acquire, colliding_scopes_lock_out}
use global_payments_observab.Controls.Kyc.{MayPay, enforce_kyc, enforce_kyc_iff}
use global_payments_observab.Controls.Limits.{LimitsEvaluation}
use global_payments_observab.Controls.RateLimiter.{enforce_rate_limit, run_checks, Check}
use global_payments_observab.Controls.RateLimiter.Laws.{Counts, passes, passes-eq-room}
use global_payments_observab.Controls.Risk.{RiskContext, risk_score}
use global_payments_observab.Controls.Risk.Laws.{IsRiskier, risk_score_monotone}
use global_payments_observab.Tests.Fixtures.{
  memory_redis, dead_redis, set, alice, pix_policy, empty_db, world,
}

enforce_kyc_iff_example :
    (enforce_kyc alice ted ≡ ok tt → (alice.status ≡ active) × MayPay alice.kyc_level ted)
    × ((alice.status ≡ active) × MayPay alice.kyc_level ted → enforce_kyc alice ted ≡ ok tt)
enforce_kyc_iff_example = enforce_kyc_iff alice ted

-- two payments, of which the second is larger and goes to a new destination
abbrev mild : RiskContext
mild = record {
  amount = 100;
  policy_max = 1000;
  velocity_count = 1;
  velocity_limit = 10;
  repeated_failures = 0;
  is_new_customer = false;
  customer_kyc = full;
  destination_seen = true;
}

abbrev bold : RiskContext
bold = record mild { amount = 990; destination_seen = false }

riskier : IsRiskier mild bold
riskier = record {
  amount = omega arith;
  policy_max = refl;
  velocity_count = omega arith;
  velocity_limit = refl;
  repeated_failures = omega arith;
  is_new_customer = λ h. h;
  customer_kyc = refl;
  destination_seen = λ h. refl;
}

risk_score_monotone_example : (risk_score mild ≤ risk_score bold) × (risk_score bold ≤ 100)
risk_score_monotone_example = risk_score_monotone mild bold riskier

set_same : (k : String) (n : ℕ) (f : String → ℕ) → set k n f k ≡ n
set_same k n f = ground (arith, eq_refl k)

abbrev memory_counts : Counts memory_redis
memory_counts = record {
  counter = λ s k. s.counters k;
  incr_reply = λ k s. refl;
  incr_counts = λ k s. set_same k (s.counters k + 1) s.counters;
  expire_reply = λ k n s. refl;
  expire_keeps = λ k n s. refl;
}

passes-eq-room_example : passes "key" 60 2 5 world ≡ min 5 (2 - 0)
passes-eq-room_example = passes-eq-room memory_counts "key" 60 2 5 world

abbrev full_check : List Check
full_check = (merchant, "shop", 0) ∷ []

limited : (run_checks (λ c. c.1) 60 full_check world).0 ≡ err (app (rate_limited merchant))
unfolding run_checks global_payments_observab.Controls.RateLimiter.allow
limited = refl

abbrev dead_world : World dead_redis
dead_world = record { redis = tt; db = empty_db; added = []; next_uuid = 1; metrics = [] }

abbrev memory_sets_once : SetsOnce memory_redis
memory_sets_once = record {
  holds = λ s k. s.locks k;
  set_nx_reply = λ k v ttl s. refl;
  set_nx_holds = λ k v ttl s j. refl;
}

abbrev evaluation : LimitsEvaluation
evaluation = record { policy = pix_policy; velocity_count = 1 }

lock_granted : (acquire 60 ("shop" <> (":" <> "eu")) "key" world).0 ≡ ok true
unfolding acquire
lock_granted = refl

colliding_scopes_lock_out_example :
    ((acquire 90 "shop" ("eu" <> (":" <> "key")) world).0 ≡ ok true)
    × ((acquire 90 "shop"
          ("eu" <> (":" <> "key"))
          (acquire 60 ("shop" <> (":" <> "eu")) "key" world).1).0
        ≡ ok false)
colliding_scopes_lock_out_example =
    colliding_scopes_lock_out memory_sets_once 60 90 "shop" "eu" "key" world lock_granted
