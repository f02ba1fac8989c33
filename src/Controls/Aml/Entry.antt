-- ===== src/Controls/Aml/Entry.antt =====
-- The text of a history entry and the sums over the entries: `record_outgoing`'s payload,
-- `_try_parse_entry`, `_sum_recent` and `_count_near` of aml_service.py.
use Prim.Native.Char.{code}
use global_payments_observab.Base.{
  ℕ, ◌+◌, ◌*◌, String, ◌<>◌, Bool, not, ◌&&◌, ◌||◌, Option, none, some, List, [], ◌∷◌, ltb, leb,
  ◌==◌, str_eq, if◌then◌else◌,
}
use global_payments_observab.Api.Cache.{Format}

pub record Entry : Type 0 where
  pub ts : ℕ
  pub rail : String
  pub amount : ℕ

-- `f"{int(now)}|{rail.value}|{amount}"`
unfoldable pub format_entry : Format → ℕ → String → ℕ → String
format_entry F ts rail amount = F.show_int ts <> ("|" <> (rail <> ("|" <> F.show_amount amount)))

-- The parts of a text before and after its first `|`.
unfoldable pub split_bar : String → Option (String × String)
split_bar String.[] = none
split_bar (String.◌∷◌ c s) =
    let rest = split_bar s in
    if code c == b'|'
    then some ("", s)
    else elim rest [ none ↦ none | some (a, b) ↦ some (String.◌∷◌ c a, b) ]

abbrev read_entry : Format → String → String → String → Option Entry
read_entry F ts rail amount = elim (F.read_int ts) [
  | none ↦ none
  | some t ↦ elim (F.read_amount amount) [
    | none ↦ none
    | some a ↦ some (record { ts = t; rail = rail; amount = a })
  ]
]

-- `_try_parse_entry`: `entry.split("|", 2)` must have three parts.
unfoldable pub try_parse_entry : Format → String → Option Entry
unfolding split_bar
try_parse_entry F entry = elim (split_bar entry) [
  | none ↦ none
  | some (ts, rest) ↦ elim (split_bar rest) [
    | none ↦ none
    | some (rail, amount) ↦ read_entry F ts rail amount
  ]
]

-- `ts >= cutoff_timestamp and current_rail == rail`
abbrev pub is_recent : String → ℕ → Entry → Bool
is_recent rail cutoff e = leb cutoff e.ts && str_eq e.rail rail

abbrev pub add_recent : String → ℕ → Option Entry → ℕ → ℕ
add_recent rail cutoff none total = total
add_recent rail cutoff (some e) total = if is_recent rail cutoff e then total + e.amount else total

unfoldable pub sum_from : Format → String → ℕ → ℕ → List String → ℕ
sum_from F rail cutoff total [] = total
sum_from F rail cutoff total (entry ∷ entries) =
    sum_from F rail cutoff (add_recent rail cutoff (try_parse_entry F entry) total) entries

unfoldable pub sum_recent : Format → List String → String → ℕ → ℕ
unfolding sum_from
sum_recent F entries rail cutoff = sum_from F rail cutoff 0 entries

-- `low_amount <= amount <= max_amount`, with `low_amount` 95% of `max_amount`
abbrev pub is_near : ℕ → ℕ → Bool
is_near max_amount amount = leb (max_amount * 95) (amount * 100) && leb amount max_amount

abbrev pub count_entry : String → ℕ → ℕ → Option Entry → ℕ → ℕ
count_entry rail cutoff max_amount none n = n
count_entry rail cutoff max_amount (some e) n =
    if ltb e.ts cutoff || not (str_eq e.rail rail)
    then n
    else if is_near max_amount e.amount
    then n + 1
    else n

unfoldable pub count_from : Format → String → ℕ → ℕ → ℕ → List String → ℕ
count_from F rail cutoff max_amount n [] = n
count_from F rail cutoff max_amount n (entry ∷ entries) =
    count_from F rail cutoff max_amount
      (count_entry rail cutoff max_amount (try_parse_entry F entry) n) entries

unfoldable pub count_near : Format → List String → String → ℕ → ℕ → ℕ
unfolding count_from
count_near F entries rail cutoff max_amount = count_from F rail cutoff max_amount 0 entries
