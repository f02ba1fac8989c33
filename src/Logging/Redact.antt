-- ===== src/Logging/Redact.antt =====
-- `_redact_string` of shared/logging/logger.py: the substitution of `\b\d{12,19}\b`. A text is the list
-- of its characters. A match starts and ends at a boundary between a word character and none,
-- and all its characters are word characters: so it is a whole run of them.
pub mod Laws
use Prim.Native.Char.{Char}
use Prim.Native.String
use global_payments_observab.Base.{
  ℕ, suc, String, ◌≡◌, Bool, true, false, ◌&&◌, List, [], ◌∷◌, ◌++◌, leb, length, if◌then◌else◌,
}

abbrev pub Text : Type 0
Text = List Char

abbrev pub chars : String → Text
chars String.[] = []
chars (String.◌∷◌ c s) = c ∷ chars s

-- The classes `\w` and `\d` of Python's `re`: every digit is a word character, and so are the letters
-- of `[REDACTED]`, which are no digits; its brackets are not.
pub record CharClass : Type 0 where
  pub is_word : Char → Bool
  pub is_digit : Char → Bool
  pub digit_is_word : (c : Char) → is_digit c ≡ true → is_word c ≡ true
  pub open_bracket : is_word "[" ≡ false
  pub close_bracket : is_word "]" ≡ false
  pub letter : is_digit "R" ≡ false
  pub letters :
      (is_word "R"
        && (is_word "E" && (is_word "D" && (is_word "A" && (is_word "C" && is_word "T")))))
      ≡ true

module _ (C : CharClass) where
  abbrev pub all_digits : Text → Bool
  all_digits [] = true
  all_digits (c ∷ s) = C.is_digit c && all_digits s

  -- `\d{12,19}`, the whole of the text
  abbrev pub is_card : Text → Bool
  is_card r = all_digits r && (leb 12 (length r) && leb (length r) 19)

  abbrev pub redacted : Text
  redacted = chars "[REDACTED]"

  -- what is put for a run of word characters
  abbrev pub close_run : Text → Text
  close_run run = if is_card run then redacted else run

  -- The substitution, behind a run of word characters that is not closed yet.
  unfoldable pub redact_from : Text → Text → Text
  redact_from run [] = close_run run
  redact_from run (c ∷ s) = elim (C.is_word c) [
    | true ↦ redact_from (run ++ c ∷ []) s
    | false ↦ close_run run ++ (c ∷ redact_from [] s)
  ]

  -- `_redact_string`
  unfoldable pub redact_string : Text → Text
  unfolding redact_from
  redact_string s = redact_from [] s

  -- Whether the character before the rest is a word character, after the text `a`.
  abbrev pub ends_inside : Bool → Text → Bool
  ends_inside before [] = before
  ends_inside before (c ∷ s) = ends_inside (C.is_word c) s

  abbrev pub starts_inside : Text → Bool
  starts_inside [] = false
  starts_inside (c ∷ s) = C.is_word c

  -- A match of the pattern: a card number between two boundaries.
  pub record Match (t : Text) : Type 0 where
    pub before : Text
    pub card : Text
    pub after : Text
    pub splits : t ≡ before ++ (card ++ after)
    pub starts : ends_inside false before ≡ false
    pub stops : starts_inside after ≡ false
    pub is_card_number : is_card card ≡ true
