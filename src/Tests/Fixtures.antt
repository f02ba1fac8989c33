-- ===== src/Tests/Fixtures.antt =====
-- A cache, text forms, settings and tables to run the code on.
use global_payments_observab.Base.{
  ℕ, zero, suc, ◌+◌, String, str_eq, ◌≡◌, refl, ap, Bool, true, false, not, none, some, List, [],
  ◌∷◌, take, if◌then◌else◌,
}
use global_payments_observab.Contracts.Enums.{pix, full, active, in_review, review, AmlDecision}
use global_payments_observab.Contracts.Records.{
  Customer, LimitsPolicy, Payment, Snapshot, AcceptedResponse, PaymentRequest,
}
use global_payments_observab.Db.{Db}
use global_payments_observab.Api.Cache.{Redis, Format}
use global_payments_observab.Api.World.{World}
use global_payments_observab.Api.Validation.{RequestContext}
use global_payments_observab.Payments.Create.Types.{Services, Run}

-- A cache in memory that counts, holds locks and lists, and never expires a key.
pub record Memory : Type 0 where
  pub counters : String → ℕ
  pub locks : String → Bool
  pub lists : String → List String

abbrev pub set : {A : Type 0} → String → A → (String → A) → String → A
set k a f j = if str_eq k j then a else f j

abbrev pub empty_memory : Memory
empty_memory = record { counters = λ _. 0; locks = λ _. false; lists = λ _. [] }

abbrev pub memory_redis : Redis
memory_redis = record {
  State = Memory;
  get = λ k s. (some none, s);
  set_ex = λ k v ttl s. (some tt, s);
  set_nx = λ k v ttl s. (some (not (s.locks k)), record s { locks = set k true s.locks });
  incr =
      λ k s. (some (s.counters k + 1), record s { counters = set k (s.counters k + 1) s.counters });
  expire = λ k ttl s. (some tt, s);
  lpush = λ k v s. (some tt, record s { lists = set k (v ∷ s.lists k) s.lists });
  ltrim = λ k i n s. (some tt, record s { lists = set k (take (suc n) (s.lists k)) s.lists });
  lrange = λ k i n s. (some (take (suc n) (s.lists k)), s);
  zremrangebyscore = λ k i n s. (some tt, s);
  zcard = λ k s. (some 0, s);
  zadd = λ k v n s. (some tt, s);
}

-- A cache that answers nothing.
abbrev pub dead_redis : Redis
dead_redis = record {
  State = Unit {0};
  get = λ k s. (none, s);
  set_ex = λ k v ttl s. (none, s);
  set_nx = λ k v ttl s. (none, s);
  incr = λ k s. (none, s);
  expire = λ k ttl s. (none, s);
  lpush = λ k v s. (none, s);
  ltrim = λ k i n s. (none, s);
  lrange = λ k i n s. (none, s);
  zremrangebyscore = λ k i n s. (none, s);
  zcard = λ k s. (none, s);
  zadd = λ k v n s. (none, s);
}

-- Numbers written in strokes.
unfoldable pub strokes : ℕ → String
strokes zero = ""
strokes (suc n) = String.◌∷◌ "1" (strokes n)

unfoldable pub count_strokes : String → ℕ
count_strokes String.[] = 0
count_strokes (String.◌∷◌ c s) = suc (count_strokes s)

pub count-strokes : (n : ℕ) → count_strokes (strokes n) ≡ n
unfolding strokes count_strokes
count-strokes zero = refl
count-strokes (suc n) = ap suc (count-strokes n)

abbrev pub format : Format
format = record {
  show_int = strokes;
  read_int = λ s. some (count_strokes s);
  show_amount = strokes;
  read_amount = λ s. some (count_strokes s);
  show_time = strokes;
  show_date = strokes;
  upper = λ s. s;
  dump_policy = λ p. "";
  load_policy = λ s. none;
}

abbrev pub alice : Customer
alice = record { customer_id = "alice"; kyc_level = full; status = active; created_at = some 0 }

abbrev pub pix_policy : LimitsPolicy
pix_policy = record {
  rail = pix;
  min_amount = 1;
  max_amount = 1000;
  daily_limit_amount = 5000;
  velocity_limit_count = 10;
  velocity_window_seconds = 60;
}

abbrev pub empty_db : Db
empty_db = record {
  customers = alice ∷ [];
  policies = pix_policy ∷ [];
  payments = [];
  outbox = [];
  snapshots = [];
}

abbrev pub services : Services
services = record {
  format = format;
  supported_currencies = "BRL" ∷ [];
  idempotency_ttl_seconds = 60;
  rate_limits = record {
    merchant_limit = 10;
    customer_limit = 10;
    account_limit = 10;
    window_seconds = 60;
  };
  limits = record { cache_ttl_seconds = 60; per_cent = 1 };
  risk = record { review_threshold = 60; block_threshold = 85 };
  aml = record {
    blocklist_destinations = "bad" ∷ [];
    total_window_seconds = 60;
    total_threshold_amount = 2000;
    structuring_window_seconds = 60;
    structuring_count_threshold = 3;
  };
}

-- a run on its own, a millisecond after the epoch
abbrev pub run : Run
run =
    let now : ℕ = 1000 in
    record {
      limits_clock = record { date = now; ttl = now; day_start = now; velocity = now };
      rate_clock = now;
      risk_clock = now;
      aml_clock = record {
        total = now;
        total_in_database = now;
        near = now;
        near_in_database = now;
      };
      record_clock = now;
      commit_clock = now;
      trace_id = "trace";
      traceparent = none;
      to_numeric = λ n. n;
      meanwhile = λ db. db;
      sleeping = λ n db. db;
      queue_query_fails = false;
    }

abbrev pub context : RequestContext
context = record {
  merchant_id = "shop";
  customer_id = "alice";
  account_id = "account";
  idempotency_key = "key";
}

abbrev pub request : PaymentRequest
request = record { amount = 100; currency = "BRL"; method = pix; destination = some "bob" }

abbrev pub world : World memory_redis
world = record { redis = empty_memory; db = empty_db; added = []; next_uuid = 1; metrics = [] }

-- the tables after a payment of the scope, in review
abbrev pub response : AcceptedResponse
response = record {
  payment_id = 7;
  status = in_review;
  trace_id = "trace";
  risk_decision = some review;
  aml_decision = some AmlDecision.allow;
}

abbrev pub payment : Payment
payment = record {
  payment_id = 7;
  merchant_id = "shop";
  customer_id = "alice";
  account_id = "account";
  amount = 100;
  currency = "BRL";
  method = pix;
  destination = some "bob";
  status = in_review;
  idempotency_key = "key";
  risk_score = some 60;
  risk_decision = some review;
  aml_decision = some AmlDecision.allow;
  last_error = none;
  created_at = 1000;
  version = 1;
}

abbrev pub snapshot : Snapshot
snapshot = record {
  merchant_id = "shop";
  idempotency_key = "key";
  payment_id = 7;
  status_code = 202;
  response_payload = response;
}

abbrev pub stored_db : Db
stored_db = record empty_db { payments = payment ∷ []; snapshots = snapshot ∷ [] }

abbrev pub stored_world : World memory_redis
stored_world = record world { db = stored_db }
