-- ===== src/Resilience/Bulkhead/Laws.antt =====
-- The permits of a key and the tasks that hold them.
use mathlib.Core.Path.{subst}
use global_payments_observab.Base.{
  ℕ, zero, suc, ◌+◌, ◌≤◌, ◌<◌, String, str_eq, eq_iff, eq_refl, ◌≡◌, ◌↔◌, refl, sym, ap, ◌∙◌, inl,
  inr, true, false, some, List, ◌∷◌, ◌++◌, arith, Bool-cases, is_some, count, count-append,
}
use global_payments_observab.Resilience.Bulkhead.{
  Bulkhead, new_bulkhead, free_permits, set_permits, enter, leave, taken, System, enters, leaves,
  Reached, starts, steps,
}

-- the tasks inside under a key
abbrev pub holders : String → List String → ℕ
holders key inside = count (λ other. str_eq other key) inside

set_own :
    (key : String) (free : ℕ) (b : Bulkhead) → free_permits (set_permits key free b) key ≡ free
unfolding free_permits
set_own key free b = rw (eq_refl key) refl

set_other :
    (key other : String) (free : ℕ) (b : Bulkhead)
    → str_eq key other ≡ false
    → free_permits (set_permits key free b) other ≡ free_permits b other
unfolding free_permits
set_other key other free b h = rw h refl

-- What an invariant has to say: the permits of each key are free or held, and none is lost.
abbrev pub Balanced : ℕ → System → Type 0
Balanced limit_per_key s =
    (key : String) → free_permits s.bulkhead key + holders key s.inside ≡ limit_per_key

entered :
    (key : String) (b b' : Bulkhead)
    → enter key b ≡ some b'
    → (free : ℕ) × (free_permits b key ≡ suc free) × (b' ≡ set_permits key free b)
unfolding enter
entered key b b' h = of_free (free_permits b key) refl h
  where
    of_free :
        (n : ℕ)
        → free_permits b key ≡ n
        → taken key b n ≡ some b'
        → (free : ℕ) × (free_permits b key ≡ suc free) × (b' ≡ set_permits key free b)
    of_free zero e h = absurd (ground arith)
    of_free (suc free) e h = (free, e, ground arith)

enters-Balanced :
    (limit_per_key : ℕ) (s : System) (key : String) (free : ℕ)
    → free_permits s.bulkhead key ≡ suc free
    → Balanced limit_per_key s
    → Balanced limit_per_key
        (record { bulkhead = set_permits key free s.bulkhead; inside = key ∷ s.inside })
unfolding count
enters-Balanced limit_per_key s key free one balanced other = elim (Bool-cases (str_eq key other)) [
  | inl own ↦
      let is_key : key ≡ other = (eq_iff key other).0 own in
      let set : free_permits (set_permits key free s.bulkhead) other ≡ free =
        ap (free_permits (set_permits key free s.bulkhead)) (sym is_key)
        ∙ set_own key free s.bulkhead in
      let was : free_permits s.bulkhead other ≡ suc free =
        ap (free_permits s.bulkhead) (sym is_key) ∙ one in
      rw (own, set) (omega (arith, balanced other))
  | inr apart ↦ rw (apart, set_other key other free s.bulkhead apart) (balanced other)
]

leaves-Balanced :
    (limit_per_key : ℕ) (s : System) (before after : List String) (key : String)
    → s.inside ≡ before ++ key ∷ after
    → Balanced limit_per_key s
    → Balanced limit_per_key (record { bulkhead = leave key s.bulkhead; inside = before ++ after })
unfolding leave count
leaves-Balanced limit_per_key s before after key splits balanced other =
    let free = suc (free_permits s.bulkhead key) in
    let held : holders other s.inside ≡ holders other before + holders other (key ∷ after) =
      ap (holders other) splits ∙ count-append (λ x. str_eq x other) before (key ∷ after) in
    let left = count-append (λ x. str_eq x other) before after in
    elim (Bool-cases (str_eq key other)) [
      | inl own ↦
          let is_key : key ≡ other = (eq_iff key other).0 own in
          let set : free_permits (set_permits key free s.bulkhead) other ≡ free =
            ap (free_permits (set_permits key free s.bulkhead)) (sym is_key)
            ∙ set_own key free s.bulkhead in
          let same : free_permits s.bulkhead key ≡ free_permits s.bulkhead other =
            ap (free_permits s.bulkhead) is_key in
          rw set (omega (arith, balanced other, rw own at held))
      | inr apart ↦
          rw (set_other key other free s.bulkhead apart)
            (omega (arith, balanced other, rw apart at held))
    ]

Reached-Balanced :
    (limit_per_key : ℕ) (s : System) → Reached limit_per_key s → Balanced limit_per_key s
unfolding free_permits new_bulkhead count
Reached-Balanced limit_per_key s starts = λ key. omega arith
Reached-Balanced limit_per_key _ (steps _ _ r (enters s key b h)) =
    let (free, one, is_set) = entered key s.bulkhead b h in
    subst (λ b. Balanced limit_per_key (record { bulkhead = b; inside = key ∷ s.inside }))
      (sym is_set)
      (enters-Balanced limit_per_key s key free one (Reached-Balanced limit_per_key s r))
Reached-Balanced limit_per_key _ (steps _ _ r (leaves s before after key splits)) =
    leaves-Balanced limit_per_key s before after key splits (Reached-Balanced limit_per_key s r)

-- However the tasks interleave, no more tasks than the limit are inside under one key, and a task enters
-- exactly while fewer are: tasks under other keys never keep it out.
pub bulkhead_bounds :
    (limit_per_key : ℕ) (s : System) (key : String)
    → Reached limit_per_key s
    → (holders key s.inside ≤ limit_per_key)
      × ((is_some (enter key s.bulkhead) ≡ true) ↔ (holders key s.inside < limit_per_key))
unfolding enter
bulkhead_bounds limit_per_key s key r = of_free (free_permits s.bulkhead key) refl
  where
    balanced : free_permits s.bulkhead key + holders key s.inside ≡ limit_per_key
    balanced = Reached-Balanced limit_per_key s r key

    of_free :
        (n : ℕ)
        → free_permits s.bulkhead key ≡ n
        → (holders key s.inside ≤ limit_per_key)
          × ((is_some (taken key s.bulkhead (free_permits s.bulkhead key)) ≡ true)
              ↔ (holders key s.inside < limit_per_key))
    of_free zero e = rw e (
      omega (arith, balanced),
      (λ h. absurd (ground arith), λ h. absurd (omega (arith, balanced))),
    )
    of_free (suc n) e = rw e (omega (arith, balanced), (λ _. omega (arith, balanced), λ _. refl))
