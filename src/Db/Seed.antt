-- ===== src/Db/Seed.antt =====
-- payments_api/db/session.py: what `init_db` puts into empty tables. An amount of `n` is written in the
-- units of a whole one.
use global_payments_observab.Base.{
  ℕ, ◌*◌, ◌≤◌, ◌≡◌, refl, String, str_eq, Bool, Option, none, some, List, [], ◌∷◌, ◌++◌, arith,
  is_some, find, if◌then◌else◌,
}
use global_payments_observab.Contracts.Enums.{
  PaymentMethod, pix, boleto, ted, card, KycLevel, basic, full, CustomerStatus, active, suspended,
  method_eq,
}
use global_payments_observab.Contracts.Records.{Customer, LimitsPolicy}
use global_payments_observab.Db.{Db, get_by_rail}

-- A seed's row as `session.commit()` has stored it.
abbrev pub customer : String → KycLevel → CustomerStatus → ℕ → Customer
customer customer_id kyc_level status now = record {
  customer_id = customer_id;
  kyc_level = kyc_level;
  status = status;
  created_at = some now;
}

abbrev pub policy : PaymentMethod → (one min_amount max_amount daily velocity : ℕ) → LimitsPolicy
policy rail one min_amount max_amount daily velocity = record {
  rail = rail;
  min_amount = min_amount * one;
  max_amount = max_amount * one;
  daily_limit_amount = daily * one;
  velocity_limit_count = velocity;
  velocity_window_seconds = 60;
}

abbrev pub seed_customers : ℕ → List Customer
seed_customers now =
    customer "customer-basic-001" basic active now
    ∷ customer "customer-full-001" full active now
    ∷ customer "customer-suspended-001" full suspended now
    ∷ customer "customer-none-001" KycLevel.none active now
    ∷ []

abbrev pub seed_policies : ℕ → List LimitsPolicy
seed_policies one =
    policy pix one 1 5000 20_000 10
    ∷ policy boleto one 5 10_000 30_000 5
    ∷ policy ted one 50 20_000 50_000 4
    ∷ policy card one 1 8000 25_000 12
    ∷ []

-- An insert of rows under a primary key: `none` stands for `IntegrityError`.
abbrev pub insert_all {ℓ} : {A : Type ℓ} → (A → A → Bool) → List A → List A → Option (List A)
insert_all same [] table = some table
insert_all same (x ∷ xs) table =
    let rest = insert_all same xs (table ++ x ∷ []) in
    if is_some (find (same x) table) then none else rest

abbrev pub same_customer : Customer → Customer → Bool
same_customer c d = str_eq d.customer_id c.customer_id

abbrev pub same_rail : LimitsPolicy → LimitsPolicy → Bool
same_rail p q = method_eq q.rail p.rail

-- `_seed_customers`: the id that the query returns is tested for its truth, so an empty one counts as none.
unfoldable pub with_customers : ℕ → List Customer → Option (List Customer)
with_customers now [] = insert_all same_customer (seed_customers now) []
with_customers now (c ∷ cs) =
    if str_eq c.customer_id ""
    then insert_all same_customer (seed_customers now) (c ∷ cs)
    else some (c ∷ cs)

-- `_seed_limits_policies`
unfoldable pub with_policies : ℕ → List LimitsPolicy → Option (List LimitsPolicy)
with_policies one [] = insert_all same_rail (seed_policies one) []
with_policies one (p ∷ ps) = some (p ∷ ps)

abbrev pub both : Db → Option (List Customer) → Option (List LimitsPolicy) → Option Db
both db none policies = none
both db (some customers) none = none
both db (some customers) (some policies) =
    some (record db { customers = customers; policies = policies })

-- The session of `init_db`, which the start of the service runs where `app_env` is `local`.
unfoldable pub init_db : (one now : ℕ) → Db → Option Db
unfolding with_customers with_policies
init_db one now db = both db (with_customers now db.customers) (with_policies one db.policies)

-- A rail's policy that lets some amount through: its limits are in order.
abbrev pub HasPolicy : PaymentMethod → Db → Type 0
HasPolicy rail db =
    (p : LimitsPolicy) × (get_by_rail rail db ≡ some p)
    × (p.min_amount ≤ p.max_amount)
    × (p.max_amount ≤ p.daily_limit_amount)
    × (1 ≤ p.velocity_limit_count)

-- On tables without customers and policies the seeding goes through, a second start changes nothing
-- more, and every rail has a policy whose smallest amount is at most its largest, which is at most its
-- daily limit.
pub init_db_lem :
    (one now later : ℕ) (db : Db)
    → db.customers ≡ []
    → db.policies ≡ []
    → (db' : Db) × (init_db one now db ≡ some db')
      × (init_db one later db' ≡ some db')
      × ((rail : PaymentMethod) → HasPolicy rail db')
      × (db'.payments ≡ db.payments)
      × (db'.outbox ≡ db.outbox)
unfolding init_db find get_by_rail
init_db_lem one now later db no_customers no_policies = (
  record db { customers = seed_customers now; policies = seed_policies one },
  rw (no_customers, no_policies) refl,
  refl,
  has_policy,
  refl,
  refl,
)
  where
    has_policy :
        (rail : PaymentMethod)
        → HasPolicy rail
            (record db { customers = seed_customers now; policies = seed_policies one })
    has_policy pix = (_, refl, omega arith, omega arith, omega arith)
    has_policy boleto = (_, refl, omega arith, omega arith, omega arith)
    has_policy ted = (_, refl, omega arith, omega arith, omega arith)
    has_policy card = (_, refl, omega arith, omega arith, omega arith)
