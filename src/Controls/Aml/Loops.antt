-- ===== src/Controls/Aml/Loops.antt =====
-- What the loops `_sum_recent` and `_count_near` of aml_service.py compute over the cached history.
use global_payments_observab.Base.{
  ℕ, suc, ◌+◌, ◌*◌, ◌≤◌, String, eq_iff, ◌≡◌, true, false, ◌&&◌, none, some, List, [], ◌∷◌, arith,
  sum_of, count, ◌∙◌, Bool-cases, inl, inr,
}
use global_payments_observab.Api.Cache.{Format}
use global_payments_observab.Controls.Aml.Entry.{
  Entry, try_parse_entry, sum_from, sum_recent, count_from, count_near, is_recent, is_near,
  add_recent, count_entry,
}

-- The entries that parse, in order.
abbrev pub parsed : Format → List String → List Entry
parsed F [] = []
parsed F (x ∷ xs) =
    let rest = parsed F xs in elim (try_parse_entry F x) [ none ↦ rest | some e ↦ e ∷ rest ]

sum_from-acc :
    (F : Format) (rail : String) (cutoff total : ℕ) (entries : List String)
    → sum_from F rail cutoff total entries
      ≡ total + sum_of (λ (e : Entry). e.amount) (is_recent rail cutoff) (parsed F entries)
unfolding sum_from sum_of
sum_from-acc F rail cutoff total [] = omega arith
sum_from-acc F rail cutoff total (x ∷ xs) =
    ground
      (arith, sum_from-acc F rail cutoff (add_recent rail cutoff (try_parse_entry F x) total) xs)

count_from-acc :
    (F : Format) (rail : String) (cutoff max_amount n : ℕ) (entries : List String)
    → count_from F rail cutoff max_amount n entries
      ≡ n
        + count
            (λ (e : Entry). is_recent rail cutoff e && is_near max_amount e.amount)
            (parsed F entries)
unfolding count_from count
count_from-acc F rail cutoff max_amount n [] = omega arith
count_from-acc F rail cutoff max_amount n (x ∷ xs) = ground (
  arith,
  count_from-acc F rail cutoff max_amount
      (count_entry rail cutoff max_amount (try_parse_entry F x) n) xs,
)

-- An entry of the rail that is not older than the cutoff.
pub record IsRecent (rail : String) (cutoff : ℕ) (e : Entry) : Type 0 where
  pub not_older : cutoff ≤ e.ts
  pub of_rail : e.rail ≡ rail

-- An amount between 95% and 100% of the maximum.
pub record IsNear (max_amount amount : ℕ) : Type 0 where
  pub at_least : 95 * max_amount ≤ 100 * amount
  pub at_most : amount ≤ max_amount

-- `total` is the sum of the amounts of the recent entries of the rail.
pub data Totals (rail : String) (cutoff : ℕ) : List Entry → ℕ → Type 0 where
  no_entries : Totals rail cutoff [] 0
  adds :
      (e : Entry) (es : List Entry) (total : ℕ)
      → IsRecent rail cutoff e
      → Totals rail cutoff es total
      → Totals rail cutoff (e ∷ es) (e.amount + total)
  passes_over :
      (e : Entry) (es : List Entry) (total : ℕ)
      → ¬ IsRecent rail cutoff e
      → Totals rail cutoff es total
      → Totals rail cutoff (e ∷ es) total

-- `n` of the recent entries of the rail lie near the maximum.
pub data Nears (rail : String) (cutoff max_amount : ℕ) : List Entry → ℕ → Type 0 where
  no_entries : Nears rail cutoff max_amount [] 0
  hits :
      (e : Entry) (es : List Entry) (n : ℕ)
      → IsRecent rail cutoff e
      → IsNear max_amount e.amount
      → Nears rail cutoff max_amount es n
      → Nears rail cutoff max_amount (e ∷ es) (suc n)
  misses :
      (e : Entry) (es : List Entry) (n : ℕ)
      → ¬ (IsRecent rail cutoff e × IsNear max_amount e.amount)
      → Nears rail cutoff max_amount es n
      → Nears rail cutoff max_amount (e ∷ es) n

module _ (rail : String) (cutoff : ℕ) where
  is_recent-IsRecent : (e : Entry) → is_recent rail cutoff e ≡ true → IsRecent rail cutoff e
  is_recent-IsRecent e h = record {
    not_older = ground arith;
    of_rail = (eq_iff e.rail rail).0 (ground arith);
  }

  is_recent_complete : (e : Entry) → is_recent rail cutoff e ≡ false → ¬ IsRecent rail cutoff e
  is_recent_complete e h r =
      let same = (eq_iff e.rail rail).1 r.of_rail in ground (arith, r.not_older)

  totals :
      (es : List Entry)
      → Totals rail cutoff es (sum_of (λ (e : Entry). e.amount) (is_recent rail cutoff) es)
  unfolding sum_of
  totals [] = no_entries
  totals (e ∷ es) = elim (Bool-cases (is_recent rail cutoff e)) [
    | inl h ↦ rw h (adds e es _ (is_recent-IsRecent e h) (totals es))
    | inr h ↦ rw h (passes_over e es _ (is_recent_complete e h) (totals es))
  ]

  nears :
      (max_amount : ℕ) (es : List Entry)
      → Nears rail cutoff max_amount es
          (count (λ (e : Entry). is_recent rail cutoff e && is_near max_amount e.amount) es)
  unfolding count
  nears max_amount [] = no_entries
  nears max_amount (e ∷ es) =
      elim (Bool-cases (is_recent rail cutoff e && is_near max_amount e.amount)) [
        | inl h ↦ rw h (
            hits e es _ (is_recent-IsRecent e (ground arith))
              (record { at_least = ground arith; at_most = ground arith }) (nears max_amount es))
        | inr h ↦ rw h (
            misses e es _
              (λ ((r, n) : IsRecent rail cutoff e × IsNear max_amount e.amount).
                let same = (eq_iff e.rail rail).1 r.of_rail in
                ground (arith, r.not_older, n.at_least, n.at_most))
              (nears max_amount es))
      ]

-- Over the entries of the cached history that parse, the first loop computes the sum of the amounts of
-- those of the rail that are not older than the cutoff, and the second the number of those among
-- them whose amount lies between 95% and 100% of the maximum, both ends included.
pub history_loops :
    (F : Format) (entries : List String) (rail : String) (cutoff max_amount : ℕ)
    → Totals rail cutoff (parsed F entries) (sum_recent F entries rail cutoff)
      × Nears rail cutoff max_amount
          (parsed F entries)
          (count_near F entries rail cutoff max_amount)
unfolding sum_recent count_near
history_loops F entries rail cutoff max_amount =
    let total : sum_from F rail cutoff 0 entries
        ≡ sum_of (λ (e : Entry). e.amount) (is_recent rail cutoff) (parsed F entries) =
      sum_from-acc F rail cutoff 0 entries ∙ omega arith in
    let number : count_from F rail cutoff max_amount 0 entries
        ≡ count (λ (e : Entry). is_recent rail cutoff e && is_near max_amount e.amount)
            (parsed F entries) =
      count_from-acc F rail cutoff max_amount 0 entries ∙ omega arith in
    (
      rw total (totals rail cutoff (parsed F entries)),
      rw number (nears rail cutoff max_amount (parsed F entries)),
    )
