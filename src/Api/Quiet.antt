-- ===== src/Api/Quiet.antt =====
-- Actions that leave the store alone: they may write the cache and move counters, and touch neither
-- the tables nor the session's rows nor the supply of UUIDs.
use global_payments_observab.Base.{◌≡◌, refl, ◌∙◌, Bool, true, false, Option, if◌then◌else◌}
use global_payments_observab.Base.Exec.{
  Outcome, ok, err, pure, raise, gets, lift, modify, raise_if, continue, ◌>>=◌,
}
use global_payments_observab.Api.Errors.{Exception}
use global_payments_observab.Api.Cache.{Redis}
use global_payments_observab.Api.World.{World, Action, Metric, emit, call, try_except, except}

module _ {R : Redis} where
  pub record SameStore (w w' : World R) : Type 0 where
    pub db : w'.db ≡ w.db
    pub added : w'.added ≡ w.added
    pub next_uuid : w'.next_uuid ≡ w.next_uuid

  pub SameStore-refl : (w : World R) → SameStore w w
  SameStore-refl w = record { db = refl; added = refl; next_uuid = refl }

  pub SameStore-trans : {u v w : World R} → SameStore u v → SameStore v w → SameStore u w
  SameStore-trans a b = record {
    db = b.db ∙ a.db;
    added = b.added ∙ a.added;
    next_uuid = b.next_uuid ∙ a.next_uuid;
  }

module _ {R : Redis} {A : Type 0} where
  pub record IsQuiet (m : Action R A) : Type 0 where
    pub at : (w : World R) → SameStore w (m w).1

  pub IsQuiet-pure : (a : A) → IsQuiet (pure a)
  IsQuiet-pure a = record { at = SameStore-refl }

  pub IsQuiet-raise : (e : Exception) → IsQuiet (raise e)
  IsQuiet-raise e = record { at = SameStore-refl }

  pub IsQuiet-lift : (r : Outcome Exception A) → IsQuiet (lift r)
  IsQuiet-lift r = record { at = SameStore-refl }

  pub IsQuiet-gets : (f : World R → A) → IsQuiet (gets f)
  IsQuiet-gets f = record { at = SameStore-refl }

  pub IsQuiet-call : (command : R.State → Option A × R.State) → IsQuiet (call command)
  IsQuiet-call command = record { at = λ w. record { db = refl; added = refl; next_uuid = refl } }

  pub IsQuiet-if :
      (b : Bool) (m n : Action R A) → IsQuiet m → IsQuiet n → IsQuiet (if b then m else n)
  IsQuiet-if true m n qm qn = qm
  IsQuiet-if false m n qm qn = qn

  pub IsQuiet-try :
      (m : Action R A) (handler : Exception → Action R A)
      → IsQuiet m
      → ((e : Exception) → IsQuiet (handler e))
      → IsQuiet (try_except m handler)
  IsQuiet-try m handler qm qh = record { at = λ w. from_result (m w).0 w (m w).1 (qm.at w) }
    where
      from_result :
          (r : Outcome Exception A) (w w' : World R)
          → SameStore w w'
          → SameStore w (except r handler w').1
      from_result (ok a) w w' s = s
      from_result (err e) w w' s = SameStore-trans s ((qh e).at w')

module _ {R : Redis} where
  pub IsQuiet-emit : (m : Metric) → IsQuiet {R = R} (modify (emit m))
  IsQuiet-emit m = record { at = λ w. record { db = refl; added = refl; next_uuid = refl } }

  pub IsQuiet-raise_if : (b : Bool) (e : Exception) → IsQuiet {R = R} (raise_if b e)
  IsQuiet-raise_if true e = IsQuiet-raise e
  IsQuiet-raise_if false e = IsQuiet-pure tt

module _ {R : Redis} {A B : Type 0} where
  pub IsQuiet-bind :
      (m : Action R A) (f : A → Action R B)
      → IsQuiet m
      → ((a : A) → IsQuiet (f a))
      → IsQuiet (m >>= f)
  IsQuiet-bind m f qm qf = record { at = λ w. from_result (m w).0 w (m w).1 (qm.at w) }
    where
      from_result :
          (r : Outcome Exception A) (w w' : World R)
          → SameStore w w'
          → SameStore w (continue r f w').1
      from_result (ok a) w w' s = SameStore-trans s ((qf a).at w')
      from_result (err e) w w' s = s

pub ruleset quiet_rules = (
  IsQuiet-pure, IsQuiet-raise, IsQuiet-lift, IsQuiet-gets, IsQuiet-call, IsQuiet-try, IsQuiet-emit,
  IsQuiet-raise_if, IsQuiet-bind,
)
