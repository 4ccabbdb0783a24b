-- ===== src/TableName.antt =====
-- collector.go: the table name of an SQL query, on ASCII text.
pub mod First
use go_clockwork.Prelude.{
  ℕ, ◌==◌, Bool, false, ◌||◌, Option, none, some, List, [], ◌∷◌, ◌++◌, if◌then◌else◌, Text, codes,
  text_eq, is_empty, is_space, trim_left, trim_right, trim_space, to_upper,
}

-- The loop of `strings.Fields`: `word` is the token that is being read.
unfoldable pub fields_loop : Text → Text → List Text
fields_loop [] word = if is_empty word then [] else word ∷ []
fields_loop (c ∷ s) word =
    let rest = fields_loop s (if is_space c then [] else word ++ c ∷ []) in
    if is_space c then (if is_empty word then rest else word ∷ rest) else rest

-- `strings.Fields`
unfoldable pub fields : Text → List Text
unfolding fields_loop
fields s = fields_loop s []

-- Membership of a byte in a cutset.
abbrev one_of : Text → ℕ → Bool
one_of [] c = false
one_of (d ∷ t) c = c == d || one_of t c

-- `name[strings.LastIndex(name, ".")+1:]`, if there is a dot.
unfoldable pub after_last_dot : Text → Option Text
after_last_dot [] = none
after_last_dot (c ∷ s) = elim (after_last_dot s) [
  | some t ↦ some t
  | none ↦ if c == b'.' then some s else none
]

-- The qualifier is dropped if something stands behind the last dot.
abbrev unqualified : Text → Option Text → Text
unqualified name none = name
unqualified name (some t) = if is_empty t then name else t

-- `cleanTableName`
unfoldable pub clean_table_name : Text → Text
unfolding trim_left trim_right after_last_dot
clean_table_name raw =
    let quotes = one_of (codes "`\"'[]") in
    let closing = one_of (codes ",;()") in
    let name = trim_right closing (trim_right quotes (trim_left quotes raw)) in
    unqualified name (after_last_dot name)

-- The tokens in front of a table name.
unfoldable pub is_keyword : Text → Bool
unfolding text_eq
is_keyword t =
    text_eq t (codes "FROM")
    || text_eq t (codes "INTO")
    || text_eq t (codes "UPDATE")
    || text_eq t (codes "TABLE")
    || text_eq t (codes "JOIN")

-- The loop over the tokens: a keyword that is the last token is passed over.
unfoldable pub table_loop : List Text → Text
unfolding is_keyword clean_table_name
table_loop [] = []
table_loop (tok ∷ []) = []
table_loop (tok ∷ next ∷ rest) =
    let later = table_loop (next ∷ rest) in
    if is_keyword (to_upper tok) then clean_table_name next else later

-- `extractTableName`
unfoldable pub extract_table_name : Text → Text
unfolding trim_space fields table_loop
extract_table_name query =
    let q = trim_space query in if is_empty q then [] else table_loop (fields q)
