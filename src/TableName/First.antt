-- ===== src/TableName/First.antt =====
-- collector.go: the table name of a query is what stands behind its first keyword.
use go_clockwork.Prelude.{
  ◌≡◌, refl, ap, ◌∙◌, true, false, ◌⊎◌, inl, inr, Bool-cases, arith, codes, text_eq, text_eq_iff,
  List, [], ◌∷◌, ◌++◌, if◌then◌else◌, All, Text, is_empty, trim_space, to_upper,
}
use go_clockwork.TableName.{
  fields, fields_loop, table_loop, is_keyword, clean_table_name, extract_table_name,
}

-- The words in front of a table name.
abbrev pub keywords : List Text
keywords = codes "FROM" ∷ codes "INTO" ∷ codes "UPDATE" ∷ codes "TABLE" ∷ codes "JOIN" ∷ []

abbrev pub IsAmong : Text → List Text → Type 0
IsAmong t [] = ⊥
IsAmong t (word ∷ words) = (t ≡ word) ⊎ IsAmong t words

-- A token is one of these words in any case of its letters.
abbrev pub Keyword : Text → Type 0
Keyword token = IsAmong (to_upper token) keywords

pub is_keyword-true : (t : Text) → IsAmong t keywords → is_keyword t ≡ true
unfolding is_keyword text_eq
is_keyword-true t (inl e) = rw e refl
is_keyword-true t (inr (inl e)) = rw e refl
is_keyword-true t (inr (inr (inl e))) = rw e refl
is_keyword-true t (inr (inr (inr (inl e)))) = rw e refl
is_keyword-true t (inr (inr (inr (inr (inl e))))) = rw e refl
is_keyword-true t (inr (inr (inr (inr (inr x))))) = elim x [ ]

IsAmong-of_is_keyword : (t : Text) → is_keyword t ≡ true → IsAmong t keywords
unfolding is_keyword
IsAmong-of_is_keyword t h = elim (Bool-cases (text_eq t (codes "FROM"))) [
  | inl same ↦ inl ((text_eq_iff t (codes "FROM")).0 same)
  | inr n0 ↦ elim (Bool-cases (text_eq t (codes "INTO"))) [
    | inl same ↦ inr (inl ((text_eq_iff t (codes "INTO")).0 same))
    | inr n1 ↦ elim (Bool-cases (text_eq t (codes "UPDATE"))) [
      | inl same ↦ inr (inr (inl ((text_eq_iff t (codes "UPDATE")).0 same)))
      | inr n2 ↦ elim (Bool-cases (text_eq t (codes "TABLE"))) [
        | inl same ↦ inr (inr (inr (inl ((text_eq_iff t (codes "TABLE")).0 same))))
        | inr n3 ↦ elim (Bool-cases (text_eq t (codes "JOIN"))) [
          | inl same ↦ inr (inr (inr (inr (inl ((text_eq_iff t (codes "JOIN")).0 same)))))
          | inr n4 ↦ absurd (ground (arith, n0, n1, n2, n3, n4, h))
        ]
      ]
    ]
  ]
]

is_keyword-false : (t : Text) → (IsAmong t keywords → ⊥) → is_keyword t ≡ false
is_keyword-false t h = elim (Bool-cases (is_keyword t)) [
  | inl found ↦ absurd (h (IsAmong-of_is_keyword t found))
  | inr other ↦ other
]

table_loop_first :
    (front : List Text) (keyword name : Text) (rest : List Text)
    → All (λ t. Keyword t → ⊥) front
    → Keyword keyword
    → table_loop (front ++ keyword ∷ name ∷ rest) ≡ clean_table_name name
unfolding table_loop
table_loop_first [] keyword name rest h k = rw (is_keyword-true (to_upper keyword) k) refl
table_loop_first (t ∷ []) keyword name rest (ht, h) k =
    rw (is_keyword-false (to_upper t) ht) (table_loop_first [] keyword name rest h k)
table_loop_first (t ∷ u ∷ front) keyword name rest (ht, h) k =
    rw (is_keyword-false (to_upper t) ht) (table_loop_first (u ∷ front) keyword name rest h k)

-- A query of spaces has no tokens.
table_loop_blank :
    (q : Text) → (if is_empty q then [] else table_loop (fields q)) ≡ table_loop (fields q)
unfolding fields fields_loop table_loop
table_loop_blank [] = refl
table_loop_blank (c ∷ q) = refl

extract_table_name_tokens :
    (query : Text) → extract_table_name query ≡ table_loop (fields (trim_space query))
unfolding extract_table_name
extract_table_name_tokens query = table_loop_blank (trim_space query)

-- Of a query whose tokens are `front`, a keyword (FROM, INTO, UPDATE, TABLE or JOIN in any case) and a
-- name, and possibly more, where `front` has no keyword, the table name is what cleanTableName makes of
-- the name.
pub extract_table_name_first :
    (query keyword name : Text) (front rest : List Text)
    → fields (trim_space query) ≡ front ++ keyword ∷ name ∷ rest
    → All (λ t. Keyword t → ⊥) front
    → Keyword keyword
    → extract_table_name query ≡ clean_table_name name
extract_table_name_first query keyword name front rest tokens h k =
    extract_table_name_tokens query
    ∙ ap table_loop tokens
    ∙ table_loop_first front keyword name rest h k
