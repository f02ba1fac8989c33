-- ===== src/Api/SecurityHeaders.antt =====
-- shared/utils/http_security.py. The headers of a response are a list of pairs; starlette compares their
-- names in lower case.
use global_payments_observab.Base.{
  ◌≡◌, refl, inl, inr, String, str_eq, Bool, true, some, List, [], ◌∷◌, ◌++◌, is_some, Bool-cases,
  Option-cases, All, arith, find, find-append_some, find-append_none, eq_refl, if◌then◌else◌,
}

abbrev pub Headers : Type 0
Headers = List (String × String)

abbrev pub security_headers : Headers
security_headers =
    ("X-Content-Type-Options", "nosniff")
    ∷ ("X-Frame-Options", "DENY")
    ∷ ("Referrer-Policy", "no-referrer")
    ∷ ("Permissions-Policy", "geolocation=(), microphone=(), camera=()")
    ∷ ("Content-Security-Policy", "default-src 'none'; frame-ancestors 'none'; base-uri 'none'")
    ∷ ("Cross-Origin-Resource-Policy", "same-origin")
    ∷ []

module _ (lower : String → String) where
  abbrev pub is_named : String → String × String → Bool
  is_named name (other, value) = str_eq (lower other) (lower name)

  -- `headers.setdefault`
  unfoldable pub setdefault : String → String → Headers → Headers
  setdefault name value headers =
      if is_some (find (is_named name) headers) then headers else headers ++ (name, value) ∷ []

  -- the loop of `apply_security_headers` over the entries of a dictionary
  unfoldable pub apply_headers : Headers → Headers → Headers
  unfolding setdefault
  apply_headers [] headers = headers
  apply_headers ((name, value) ∷ rest) headers = apply_headers rest (setdefault name value headers)

  abbrev pub apply_security_headers : Headers → Headers
  apply_security_headers = apply_headers security_headers

  setdefault_keeps :
      (name value : String) (headers : Headers) (other : String) (h : String × String)
      → find (is_named other) headers ≡ some h
      → find (is_named other) (setdefault name value headers) ≡ some h
  unfolding setdefault
  setdefault_keeps name value headers other h found =
      elim (Bool-cases (is_some (find (is_named name) headers))) [
        | inl there ↦ rw there found
        | inr missing ↦
            rw missing (find-append_some (is_named other) headers ((name, value) ∷ []) h found)
      ]

  setdefault_sets :
      (name value : String) (headers : Headers)
      → is_some (find (is_named name) (setdefault name value headers)) ≡ true
  unfolding setdefault find
  setdefault_sets name value headers = elim (Option-cases (find (is_named name) headers)) [
    | inr (h, found) ↦ rw (found, found) refl
    | inl missing ↦
        rw (missing, find-append_none (is_named name) headers ((name, value) ∷ []) missing)
          (rw (eq_refl (lower name)) refl)
  ]

  apply_keeps :
      (entries headers : Headers) (other : String) (h : String × String)
      → find (is_named other) headers ≡ some h
      → find (is_named other) (apply_headers entries headers) ≡ some h
  unfolding apply_headers
  apply_keeps [] headers other h found = found
  apply_keeps ((name, value) ∷ rest) headers other h found =
      apply_keeps rest (setdefault name value headers) other h
        (setdefault_keeps name value headers other h found)

  apply_sets :
      (entries headers : Headers)
      → All
          (λ (e : String × String).
            is_some (find (is_named e.0) (apply_headers entries headers)) ≡ true)
          entries
  unfolding apply_headers
  apply_sets [] headers = tt
  apply_sets ((name, value) ∷ rest) headers = (
    elim (Option-cases (find (is_named name) (setdefault name value headers))) [
      | inl missing ↦ absurd (ground (arith, setdefault_sets name value headers))
      | inr (h, found) ↦ rw (apply_keeps rest (setdefault name value headers) name h found) refl
    ],
    apply_sets rest (setdefault name value headers),
  )

  -- Whatever headers a response has, it leaves with every security header, and a header that it had
  -- before has its value still.
  pub apply_security_headers_lem :
      (headers : Headers)
      → All
          (λ (e : String × String).
            is_some (find (is_named e.0) (apply_security_headers headers)) ≡ true)
          security_headers
        × ((other : String) (h : String × String)
            → find (is_named other) headers ≡ some h
            → find (is_named other) (apply_security_headers headers) ≡ some h)
  apply_security_headers_lem headers =
      (apply_sets security_headers headers, apply_keeps security_headers headers)
