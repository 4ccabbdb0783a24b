-- ===== src/Helpers/Headers.antt =====
-- middleware_helpers.go: which headers ExtractSafeHeaders keeps.
use go_clockwork.Prelude.{
  ◌≡◌, ◌≢◌, refl, ap, subst, ◌∙◌, Option, none, some, List, [], ◌∷◌, if◌then◌else◌, arith,
  Bool-cases, inl, inr, Text, codes, text_eq, text_eq_iff, Map, lookup, insert, lookup-insert,
}
use go_clockwork.Helpers.{
  Header, safe_header_names, is_among, safe_loop, extract_safe_headers, canonical_header_key,
  canonical_loop,
}

-- No name stands twice.
abbrev pub AreDistinct : Header → Type 0
AreDistinct [] = Unit {0}
AreDistinct ((key, values) ∷ headers) = (lookup key headers ≡ none) × AreDistinct headers

-- The first value, if there is one.
abbrev pub first_value : Option (List Text) → Option Text
first_value none = none
first_value (some []) = none
first_value (some (value ∷ values)) = some value

-- What is found in the result: a value of a safe header, or what was there before.
abbrev pub or_else : Option Text → Option Text → Option Text
or_else none before = before
or_else (some value) before = some value

or_else_nil : (name : Text) (o : Option Text) → or_else o (lookup name []) ≡ o
unfolding lookup
or_else_nil name none = refl
or_else_nil name (some value) = refl

safe_loop_lem :
    (name : Text) (headers : Header) (safe : Map Text)
    → AreDistinct headers
    → lookup name (safe_loop headers safe)
      ≡ or_else
          (if is_among safe_header_names name then first_value (lookup name headers) else none)
          (lookup name safe)
unfolding safe_loop lookup
safe_loop_lem name [] safe d = ground arith
safe_loop_lem name ((key, []) ∷ headers) safe (absent, d) =
    ground (arith, safe_loop_lem name headers safe d, text_eq_iff key name)
safe_loop_lem name ((key, value ∷ values) ∷ headers) safe (absent, d) = ground (
  arith,
  safe_loop_lem name headers safe d,
  safe_loop_lem name headers (insert key value safe) d,
  lookup-insert key name value safe,
  text_eq_iff key name,
)

-- Of headers with distinct names, one is found among the safe headers exactly if its name is safe and
-- it has a value, and then with its first value.
pub lookup-extract_safe_headers :
    (name : Text) (headers : Header)
    → AreDistinct headers
    → lookup name (extract_safe_headers headers)
      ≡ (if is_among safe_header_names name then first_value (lookup name headers) else none)
unfolding extract_safe_headers
lookup-extract_safe_headers name headers d =
    safe_loop_lem name headers [] d
    ∙ or_else_nil name
        (if is_among safe_header_names name then first_value (lookup name headers) else none)

-- Every name is in canonical form.
abbrev pub AreCanonical : Header → Type 0
AreCanonical [] = Unit {0}
AreCanonical ((key, values) ∷ headers) = (canonical_header_key key ≡ key) × AreCanonical headers

lookup_not_canonical :
    (name : Text) (headers : Header)
    → AreCanonical headers
    → canonical_header_key name ≢ name
    → lookup name headers ≡ none
unfolding lookup
lookup_not_canonical name [] c h = refl
lookup_not_canonical name ((key, values) ∷ headers) (k, c) h =
    elim (Bool-cases (text_eq key name)) [
      | inl same ↦
          absurd (h (subst (λ t. canonical_header_key t ≡ t) ((text_eq_iff key name).0 same) k))
      | inr other ↦ rw other (lookup_not_canonical name headers c h)
    ]

-- Of headers with distinct names in canonical form, as net/http makes them, neither X-Request-ID nor
-- X-City-ID is ever kept, in the spelling of the list or in the canonical one.
pub extract_safe_headers_ids :
    (headers : Header)
    → AreDistinct headers
    → AreCanonical headers
    → let safe = extract_safe_headers headers in
      (lookup (codes "X-Request-ID") safe ≡ none)
      × (lookup (codes "X-Request-Id") safe ≡ none)
      × (lookup (codes "X-City-ID") safe ≡ none)
      × (lookup (codes "X-City-Id") safe ≡ none)
unfolding is_among text_eq canonical_header_key canonical_loop
extract_safe_headers_ids headers d c =
    let absent = λ (name : Text) (h : canonical_header_key name ≢ name).
      lookup-extract_safe_headers name headers d
      ∙ ap (λ found. if is_among safe_header_names name then first_value found else none)
          (lookup_not_canonical name headers c h) in
    (
      absent (codes "X-Request-ID") (λ e. ground arith),
      lookup-extract_safe_headers (codes "X-Request-Id") headers d,
      absent (codes "X-City-ID") (λ e. ground arith),
      lookup-extract_safe_headers (codes "X-City-Id") headers d,
    )
