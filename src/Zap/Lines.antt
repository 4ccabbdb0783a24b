-- ===== src/Zap/Lines.antt =====
-- integrations/zap/zap.go: what parseFileLine reads.
use go_clockwork.Prelude.{
  ℕ, ◌<◌, ◌≡◌, refl, sym, ap, ◌∙◌, append_assoc, ◌^◌, true, false, Option, none, some, [], ◌∷◌,
  ◌++◌, arith, Text, codes, text_eq, is_empty, trim_suffix, split_last, atoi_digits, are_digits,
  decimal, ℤ, pos,
}
use go_clockwork.Zap.Stack.{parse_parts, parse_file_line}

-- Digits hold no colon.
split_digits : (s : Text) → are_digits s ≡ true → split_last b':' s ≡ none
unfolding split_last
split_digits [] h = refl
split_digits (c ∷ s) h = ground (arith, split_digits s)

split-append :
    (file s : Text)
    → split_last b':' s ≡ none
    → split_last b':' (file ++ (b':' ∷ s)) ≡ some (file, s)
unfolding split_last
split-append [] s h = rw (h, split_last) refl
split-append (c ∷ file) s h = rw (split-append file s h, split_last) refl

trim_digits :
    (c : ℕ) (s : Text) → are_digits (c ∷ s) ≡ true → trim_suffix (codes ")") (c ∷ s) ≡ c ∷ s
unfolding trim_suffix text_eq
trim_digits c [] h = ground arith
trim_digits c (d ∷ s) h = ground (arith, trim_digits d s)

-- Digits at the end of a text stay, and one closing bracket behind a text is removed.
trim-append_digits :
    (front : Text) (c : ℕ) (s : Text)
    → are_digits (c ∷ s) ≡ true
    → trim_suffix (codes ")") (front ++ (c ∷ s)) ≡ front ++ (c ∷ s)
unfolding trim_suffix text_eq
trim-append_digits [] c s h = trim_digits c s h
trim-append_digits (d ∷ []) c s h = ground (arith, trim_digits c s h)
trim-append_digits (d ∷ e ∷ front) c s h = ground (arith, trim-append_digits (e ∷ front) c s h)

trim-append_bracket : (t : Text) → trim_suffix (codes ")") (t ++ codes ")") ≡ t
unfolding trim_suffix text_eq
trim-append_bracket [] = refl
trim-append_bracket (c ∷ []) = ground arith
trim-append_bracket (c ∷ d ∷ t) = ground (arith, trim-append_bracket (d ∷ t))

is_empty-append : (front : Text) (c : ℕ) (s : Text) → is_empty (front ++ (c ∷ s)) ≡ false
is_empty-append [] c s = refl
is_empty-append (d ∷ front) c s = refl

parse_split :
    (file : Text) (c : ℕ) (s : Text)
    → are_digits (c ∷ s) ≡ true
    → decimal 0 (c ∷ s) < 2 ^ 63
    → parse_parts (split_last b':' (file ++ (b':' ∷ c ∷ s))) ≡ some (file, pos (decimal 0 (c ∷ s)))
parse_split file c s h fits =
    rw (split-append file (c ∷ s) (split_digits (c ∷ s) h), atoi_digits c s h fits) refl

-- A file name, a colon and the digits of a line number in range are read as that file and that number,
-- with a closing bracket behind them or without, and whatever the file name holds.
pub parse_file_line_digits :
    (file : Text) (c : ℕ) (s : Text)
    → are_digits (c ∷ s) ≡ true
    → decimal 0 (c ∷ s) < 2 ^ 63
    → let line = file ++ (b':' ∷ c ∷ s) in
      let read : Option (Text × ℤ) = some (file, pos (decimal 0 (c ∷ s))) in
      (parse_file_line line ≡ read) × (parse_file_line (line ++ codes ")") ≡ read)
unfolding parse_file_line
parse_file_line_digits file c s h fits =
    let line = file ++ (b':' ∷ c ∷ s) in
    let plain : trim_suffix (codes ")") line ≡ line =
      ap (trim_suffix (codes ")")) (sym (append_assoc file (b':' ∷ []) (c ∷ s)))
      ∙ trim-append_digits (file ++ b':' ∷ []) c s h
      ∙ append_assoc file (b':' ∷ []) (c ∷ s) in
    let filled : is_empty (line ++ codes ")") ≡ false =
      ap is_empty (append_assoc file (b':' ∷ c ∷ s) (codes ")"))
      ∙ is_empty-append file b':' (c ∷ s ++ codes ")") in
    (
      rw (is_empty-append file b':' (c ∷ s), plain) (parse_split file c s h fits),
      rw (filled, trim-append_bracket line) (parse_split file c s h fits),
    )
