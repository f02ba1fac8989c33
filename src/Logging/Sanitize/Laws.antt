-- ===== src/Logging/Sanitize/Laws.antt =====
-- What a sanitized value shows.
use global_payments_observab.Base.{
  ℕ, suc, ◌-◌, ◌≤◌, ◌<◌, max, ◌≡◌, refl, ap, ◌&&◌, ◌++◌, length, length-append, leb→le, Bool, true,
  leb, arith, Bool-cases, inl, inr, if◌then◌else◌,
}
use global_payments_observab.Logging.Redact.{Text, chars, Match}
use global_payments_observab.Logging.Redact.Laws.{redact_string-no_Match}
use global_payments_observab.Logging.Sanitize.{
  Value, mapping, sequence, tuple, text, number, datetime, opaque, Items, nil, cons, Fields, end,
  field, TextLibrary, is_redacted_field, sanitize_value, sanitize_sequence, sanitize_mapping,
  hidden, truncated, LogRecord, format_record,
}

-- The texts that `isoformat` gives hold no card number.
pub record IsoIsPlain (L : TextLibrary) : Type 0 where
  pub iso_plain : (t : ℕ) → ¬ Match L.classes (L.isoformat t)

module _ (L : TextLibrary) where
  -- No text below shows a card number, and a field of a secret name shows nothing of its value.
  unfoldable mutual
    pub IsClean : Value → Type 0
    IsClean (mapping fs) = AreClean fs
    IsClean (sequence vs) = AllClean vs
    IsClean (tuple vs) = AllClean vs
    IsClean (text t) = ¬ Match L.classes t
    IsClean (number n) = Unit
    IsClean (datetime t) = Unit
    IsClean (opaque t) = Unit

    pub AllClean : Items → Type 0
    AllClean nil = Unit
    AllClean (cons v vs) = IsClean v × AllClean vs

    pub AreClean : Fields → Type 0
    AreClean end = Unit
    AreClean (field k v fs) =
        IsClean v × (is_redacted_field (L.lower k) ≡ true → v ≡ hidden L) × AreClean fs

  -- The levels of containers of a value.
  unfoldable mutual
    pub height : Value → ℕ
    height (mapping fs) = suc (height_fields fs)
    height (sequence vs) = suc (height_items vs)
    height (tuple vs) = suc (height_items vs)
    height _ = 0

    pub height_items : Items → ℕ
    height_items nil = 0
    height_items (cons v vs) = max (height v) (height_items vs)

    pub height_fields : Fields → ℕ
    height_fields end = 0
    height_fields (field k v fs) = max (height v) (height_fields fs)

  pub short_unmatched : (t : Text) → length t < 12 → ¬ Match L.classes t
  short_unmatched t short m =
      let digits : leb 12 (length m.card) ≡ true =
        card_is_long _ _ (length m.card) m.is_card_number in
      omega (
        arith,
        leb→le 12 (length m.card) digits,
        ap length m.splits,
        length-append m.before (m.card ++ m.after),
        length-append m.card m.after,
      )
    where
      card_is_long : (b c : Bool) (n : ℕ) → (b && (leb 12 n && c)) ≡ true → leb 12 n ≡ true
      card_is_long b c n h = ground arith

  hidden-IsClean : IsClean (hidden L)
  unfolding IsClean
  hidden-IsClean = short_unmatched (chars "[REDACTED]") (omega arith)

  truncated-IsClean : IsClean (truncated L)
  unfolding IsClean
  truncated-IsClean = short_unmatched (chars "[TRUNCATED]") (omega arith)

  -- the test of the depth, before a value that is clean or flat
  cut-IsClean : (d : ℕ) (v : Value) → IsClean v → IsClean (if leb 6 d then truncated L else v)
  cut-IsClean d v clean = elim (Bool-cases (leb 6 d)) [
    | inl e ↦ rw e truncated-IsClean
    | inr e ↦ rw e clean
  ]

  cut_flat :
      (d : ℕ) (v : Value)
      → (d < 6 → height v ≤ 6 - d)
      → height (if leb 6 d then truncated L else v) ≤ 6 - d
  unfolding height
  cut_flat d v flat = elim (Bool-cases (leb 6 d)) [
    | inl e ↦ rw e (omega arith)
    | inr e ↦ rw e (flat (ground arith))
  ]

  module _ (iso : IsoIsPlain L) where
    mutual
      unfolding sanitize_value IsClean

      sanitize-IsClean : (d : ℕ) (v : Value) → IsClean (sanitize_value L d v)
      sanitize-IsClean d (mapping fs) = cut-IsClean d (mapping _) (mapping_clean d fs)
      sanitize-IsClean d (sequence vs) = cut-IsClean d (sequence _) (sequence_clean d vs)
      sanitize-IsClean d (tuple vs) = cut-IsClean d (tuple _) (sequence_clean d vs)
      sanitize-IsClean d (text t) = cut-IsClean d (text _) (redact_string-no_Match L.classes t)
      sanitize-IsClean d (number n) = cut-IsClean d (number n) tt
      sanitize-IsClean d (datetime t) = cut-IsClean d (text _) (iso.iso_plain t)
      sanitize-IsClean d (opaque t) = cut-IsClean d (opaque t) tt

      sequence_clean : (d : ℕ) (vs : Items) → AllClean (sanitize_sequence L d vs)
      sequence_clean d nil = tt
      sequence_clean d (cons v vs) = (sanitize-IsClean (suc d) v, sequence_clean d vs)

      mapping_clean : (d : ℕ) (fs : Fields) → AreClean (sanitize_mapping L d fs)
      mapping_clean d end = tt
      mapping_clean d (field k v fs) = elim (Bool-cases (is_redacted_field (L.lower k))) [
        | inl e ↦ rw e (hidden-IsClean, (λ _. refl), mapping_clean d fs)
        | inr e ↦
            rw e (sanitize-IsClean (suc d) v, (λ f. absurd (ground arith)), mapping_clean d fs)
      ]

  mutual
    unfolding sanitize_value height

    sanitize_flat : (d : ℕ) (v : Value) → height (sanitize_value L d v) ≤ 6 - d
    sanitize_flat d (mapping fs) = cut_flat d (mapping _) λ below. omega (arith, mapping_flat d fs)
    sanitize_flat d (sequence vs) =
        cut_flat d (sequence _) λ below. omega (arith, sequence_flat d vs)
    sanitize_flat d (tuple vs) = cut_flat d (tuple _) λ below. omega (arith, sequence_flat d vs)
    sanitize_flat d (text t) = cut_flat d (text _) λ _. omega arith
    sanitize_flat d (number n) = cut_flat d (number n) λ _. omega arith
    sanitize_flat d (datetime t) = cut_flat d (text _) λ _. omega arith
    sanitize_flat d (opaque t) = cut_flat d (opaque t) λ _. omega arith

    sequence_flat : (d : ℕ) (vs : Items) → height_items (sanitize_sequence L d vs) ≤ 5 - d
    sequence_flat d nil = omega arith
    sequence_flat d (cons v vs) = omega (arith, sanitize_flat (suc d) v, sequence_flat d vs)

    mapping_flat : (d : ℕ) (fs : Fields) → height_fields (sanitize_mapping L d fs) ≤ 5 - d
    mapping_flat d end = omega arith
    mapping_flat d (field k v fs) = elim (Bool-cases (is_redacted_field (L.lower k))) [
      | inl e ↦ rw e (omega (arith, mapping_flat d fs))
      | inr e ↦ rw e (omega (arith, sanitize_flat (suc d) v, mapping_flat d fs))
    ]

  -- Whatever the record, its extra fields and the correlation context hold, the value that is dumped
  -- shows no card number between two boundaries in any text, shows nothing of a field of a secret
  -- name, at any depth and in any case of its letters, and nests at most six containers. Keys,
  -- numbers and the values that `str` dumps are not looked at.
  pub format_record_hides :
      (context : Fields) (r : LogRecord)
      → IsoIsPlain L
      → IsClean (format_record L context r) × (height (format_record L context r) ≤ 6)
  unfolding format_record
  format_record_hides context r iso =
      (sanitize-IsClean iso 0 (mapping _), sanitize_flat 0 (mapping _))
