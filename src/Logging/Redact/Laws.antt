-- ===== src/Logging/Redact/Laws.antt =====
-- What is left of a text after the substitution.
use Prim.Native.Char.{Char}
use mathlib.Core.Path.{subst}
use mathlib.Core.List.{append-nil, append_assoc}
use global_payments_observab.Base.{
  ◌≡◌, refl, sym, ap, ◌∙◌, inl, inr, Bool, true, false, ◌&&◌, List, [], ◌∷◌, ◌++◌, arith, All,
  All-append, Bool-cases,
}
use global_payments_observab.Logging.Redact.{
  Text, CharClass, all_digits, is_card, redacted, close_run, redact_from, redact_string,
  ends_inside, starts_inside, Match, chars,
}

and_left : (a b : Bool) → (a && b) ≡ true → a ≡ true
and_left a b h = ground arith

module _ (C : CharClass) where
  -- The runs of word characters of a text, behind one that is not closed yet; some may be empty.
  words_from : Text → Text → List Text
  words_from run [] = run ∷ []
  words_from run (c ∷ s) = elim (C.is_word c) [
    | true ↦ words_from (run ++ c ∷ []) s
    | false ↦ run ∷ words_from [] s
  ]

  words_inside :
      (run s : Text) (c : Char)
      → C.is_word c ≡ true
      → words_from run (c ∷ s) ≡ words_from (run ++ c ∷ []) s
  unfolding words_from
  words_inside run s c h = rw (h, words_from) refl

  words_outside :
      (run s : Text) (c : Char)
      → C.is_word c ≡ false
      → words_from run (c ∷ s) ≡ run ∷ words_from [] s
  unfolding words_from
  words_outside run s c h = rw (h, words_from) refl

  abbrev all_word : Text → Bool
  all_word [] = true
  all_word (c ∷ s) = C.is_word c && all_word s

  abbrev IsPlain : Text → Type 0
  IsPlain r = is_card C r ≡ false

  words-append :
      (run x y : Text) (c : Char)
      → C.is_word c ≡ false
      → words_from run (x ++ c ∷ y) ≡ words_from run x ++ words_from [] y
  unfolding words_from
  words-append run [] y c h = rw h refl
  words-append run (d ∷ x) y c h = elim (Bool-cases (C.is_word d)) [
    | inl e ↦ rw (e, words_from) (words-append (run ++ d ∷ []) x y c h)
    | inr e ↦ rw (e, words_from) (ap (λ l. run ∷ l) (words-append [] x y c h))
  ]

  words_of_run : (run x : Text) → all_word x ≡ true → words_from run x ≡ (run ++ x) ∷ []
  unfolding words_from
  words_of_run run [] h = rw append-nil refl
  words_of_run run (d ∷ x) h =
      let inside : C.is_word d ≡ true = ground arith in
      let rest : all_word x ≡ true = ground arith in
      words_inside run x d inside
      ∙ words_of_run (run ++ d ∷ []) x rest
      ∙ ap (λ (l : Text). l ∷ []) (append_assoc run (d ∷ []) x)

  all_word-append : (x y : Text) → all_word x ≡ true → all_word y ≡ true → all_word (x ++ y) ≡ true
  all_word-append [] y h k = k
  all_word-append (d ∷ x) y h k = ground (arith, all_word-append x y)

  all_word_of_digits : (x : Text) → all_digits C x ≡ true → all_word x ≡ true
  all_word_of_digits [] h = refl
  all_word_of_digits (d ∷ x) h = ground (arith, C.digit_is_word d, all_word_of_digits x)

  redacted-IsPlain : All IsPlain (words_from [] (redacted C))
  unfolding words_from
  redacted-IsPlain =
      let label : all_word (chars "REDACTED") ≡ true = ground (arith, C.letters) in
      let words : words_from [] (redacted C) ≡ [] ∷ (chars "REDACTED" ∷ [] ∷ []) =
        words_outside [] (chars "REDACTED]") "[" C.open_bracket
        ∙ ap (λ l. [] ∷ l) (words-append [] (chars "REDACTED") [] "]" C.close_bracket)
        ∙ ap (λ l. [] ∷ (l ++ words_from [] [])) (words_of_run [] (chars "REDACTED") label) in
      rw words (refl, (ground (arith, C.letter), (refl, tt)))

  -- what is put for a run holds no card number
  close_run-IsPlain :
      (run : Text) → all_word run ≡ true → All IsPlain (words_from [] (close_run C run))
  close_run-IsPlain run h = elim (Bool-cases (is_card C run)) [
    | inl e ↦ rw e redacted-IsPlain
    | inr e ↦ rw e (rw (words_of_run [] run h) (e, tt))
  ]

  redact-IsPlain :
      (run s : Text) → all_word run ≡ true → All IsPlain (words_from [] (redact_from C run s))
  unfolding redact_from
  redact-IsPlain run [] h = close_run-IsPlain run h
  redact-IsPlain run (c ∷ s) h = elim (Bool-cases (C.is_word c)) [
    | inl e ↦
        rw (e, redact_from)
          (redact-IsPlain (run ++ c ∷ []) s (all_word-append run (c ∷ []) h (ground arith)))
    | inr e ↦
        rw (e, redact_from)
          (rw (words-append [] (close_run C run) (redact_from C [] s) c e) (
            All-append IsPlain (words_from [] (close_run C run))
              (words_from [] (redact_from C [] s)) (close_run-IsPlain run h)
              (redact-IsPlain [] s refl)))
  ]

  -- Every match is one of the runs.
  run_of_match :
      (run r b : Text)
      → all_word r ≡ true
      → starts_inside C b ≡ false
      → All IsPlain (words_from run (r ++ b))
      → IsPlain (run ++ r)
  unfolding words_from
  run_of_match run [] [] h o plain = rw append-nil plain.0
  run_of_match run [] (c ∷ b) h o plain = rw append-nil (rw (words_outside run b c o) at plain).0
  run_of_match run (d ∷ r) b h o plain =
      let inside : C.is_word d ≡ true = ground arith in
      let rest : all_word r ≡ true = ground arith in
      rw (← append_assoc run (d ∷ []) r)
        (run_of_match (run ++ d ∷ []) r b rest o (rw (words_inside run (r ++ b) d inside) at plain))

  match-IsPlain :
      (prev : Bool) (run a r b : Text)
      → (prev ≡ false → run ≡ [])
      → ends_inside C prev a ≡ false
      → all_word r ≡ true
      → starts_inside C b ≡ false
      → All IsPlain (words_from run (a ++ (r ++ b)))
      → IsPlain r
  match-IsPlain prev run [] r b empty e h o plain =
      subst (λ (x : Text). IsPlain (x ++ r)) (empty e) (run_of_match run r b h o plain)
  match-IsPlain prev run (c ∷ a) r b empty e h o plain = elim (Bool-cases (C.is_word c)) [
    | inl i ↦
        match-IsPlain true (run ++ c ∷ []) a r b (λ f. absurd (ground arith)) (rw i at e) h o
          (rw (words_inside run (a ++ (r ++ b)) c i) at plain)
    | inr i ↦
        match-IsPlain false [] a r b (λ _. refl) (rw i at e) h o
          ((rw (words_outside run (a ++ (r ++ b)) c i) at plain).1)
  ]

  -- The substitution leaves no card number between two boundaries, wherever the text had one.
  pub redact_string-no_Match : (s : Text) → ¬ Match C (redact_string C s)
  unfolding redact_string
  redact_string-no_Match s m =
      let digits : all_digits C m.card ≡ true = and_left _ _ m.is_card_number in
      let plain : All IsPlain (words_from [] (redact_from C [] s)) = redact-IsPlain [] s refl in
      let none : IsPlain m.card =
        match-IsPlain false [] m.before m.card m.after (λ _. refl) m.starts
          (all_word_of_digits m.card digits) m.stops
          (subst (λ (t : Text). All IsPlain (words_from [] t)) m.splits plain) in
      absurd (ground arith)

  ends_inside-append :
      (prev : Bool) (x : Text) (c : Char) → ends_inside C prev (x ++ c ∷ []) ≡ C.is_word c
  ends_inside-append prev [] c = refl
  ends_inside-append prev (d ∷ x) c = ends_inside-append (C.is_word d) x c

  no_Match_plain :
      (pre run s : Text)
      → ends_inside C false pre ≡ false
      → starts_inside C s ≡ false
      → ¬ Match C (pre ++ (run ++ s))
      → is_card C run ≡ false
  no_Match_plain pre run s before after unmatched = elim (Bool-cases (is_card C run)) [
    | inr e ↦ e
    | inl e ↦ absurd (
        unmatched (record {
          before = pre;
          card = run;
          after = s;
          splits = refl;
          starts = before;
          stops = after;
          is_card_number = e;
        }))
  ]

  ends_inside-append-run :
      (pre run : Text) (c : Char) → ends_inside C false (pre ++ (run ++ c ∷ [])) ≡ C.is_word c
  ends_inside-append-run pre run c =
      ap (ends_inside C false) (sym (append_assoc pre run (c ∷ [])))
      ∙ ends_inside-append false (pre ++ run) c

  redact_keeps :
      (pre run s : Text)
      → ends_inside C false pre ≡ false
      → ¬ Match C (pre ++ (run ++ s))
      → redact_from C run s ≡ run ++ s
  unfolding redact_from
  redact_keeps pre run [] before unmatched =
      rw (no_Match_plain pre run [] before refl unmatched) (rw append-nil refl)
  redact_keeps pre run (c ∷ s) before unmatched = elim (Bool-cases (C.is_word c)) [
    | inl e ↦
        rw (e, redact_from)
          (redact_keeps pre (run ++ c ∷ []) s before (λ m.
              unmatched (subst (λ (t : Text). Match C (pre ++ t)) (append_assoc run (c ∷ []) s) m))
            ∙ append_assoc run (c ∷ []) s)
    | inr e ↦
        rw (e, redact_from, no_Match_plain pre run (c ∷ s) before e unmatched)
          (ap (λ (t : Text). run ++ (c ∷ t))
            (redact_keeps (pre ++ (run ++ c ∷ [])) [] s (ends_inside-append-run pre run c ∙ e) (λ m.
              unmatched (
                subst (Match C)
                  (append_assoc pre (run ++ c ∷ []) s
                    ∙ ap (λ (t : Text). pre ++ t) (append_assoc run (c ∷ []) s))
                  m))))
  ]

  -- A text without a card number between two boundaries stays as it is.
  pub redact_string_keeps : (s : Text) → ¬ Match C s → redact_string C s ≡ s
  unfolding redact_string
  redact_string_keeps s unmatched = redact_keeps [] [] s refl unmatched
