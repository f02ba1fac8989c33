-- ===== src/Resilience/Bulkhead.antt =====
-- shared/resilience/bulkhead.py. A semaphore of asyncio is the number of its free permits: `acquire` waits
-- until there is one. The dictionary makes the semaphore of a key at its first use.
pub mod Laws
use global_payments_observab.Base.{
  ℕ, zero, suc, String, str_eq, ◌≡◌, Option, none, some, List, [], ◌∷◌, ◌++◌, if◌then◌else◌,
}

pub record Bulkhead : Type 0 where
  pub limit_per_key : ℕ
  pub locks : String → Option ℕ

unfoldable pub new_bulkhead : ℕ → Bulkhead
new_bulkhead limit_per_key = record { limit_per_key = limit_per_key; locks = λ key. none }

abbrev pub made : ℕ → Option ℕ → ℕ
made limit_per_key none = limit_per_key
made limit_per_key (some free) = free

-- `self._locks[key]`
unfoldable pub free_permits : Bulkhead → String → ℕ
free_permits b key = made b.limit_per_key (b.locks key)

abbrev pub set_permits : String → ℕ → Bulkhead → Bulkhead
set_permits key free b = record b {
  locks = λ other. if str_eq key other then some free else b.locks other;
}

abbrev pub taken : String → Bulkhead → ℕ → Option Bulkhead
taken key b zero = none
taken key b (suc free) = some (set_permits key free b)

-- the entry of `limit`: `none` while the task has to wait
unfoldable pub enter : String → Bulkhead → Option Bulkhead
unfolding free_permits
enter key b = taken key b (free_permits b key)

-- the exit of `limit`, with or without an exception
unfoldable pub leave : String → Bulkhead → Bulkhead
unfolding free_permits
leave key b = set_permits key (suc (free_permits b key)) b

-- The tasks inside by their keys, and the steps of the event loop between them.
pub record System : Type 0 where
  pub bulkhead : Bulkhead
  pub inside : List String

pub data Step : System → System → Type 0 where
  enters :
      (s : System) (key : String) (b : Bulkhead)
      → enter key s.bulkhead ≡ some b
      → Step s (record { bulkhead = b; inside = key ∷ s.inside })
  leaves :
      (s : System) (before after : List String) (key : String)
      → s.inside ≡ before ++ key ∷ after
      → Step s (record { bulkhead = leave key s.bulkhead; inside = before ++ after })

pub data Reached (limit_per_key : ℕ) : System → Type 0 where
  starts : Reached limit_per_key (record { bulkhead = new_bulkhead limit_per_key; inside = [] })
  steps : (s s' : System) → Reached limit_per_key s → Step s s' → Reached limit_per_key s'
