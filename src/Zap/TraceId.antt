-- ===== src/Zap/TraceId.antt =====
-- integrations/zap/zap.go: the trace id that `Write` takes from the fields of its core and of the line.
use go_clockwork.Prelude.{
  subst, ◌≡◌, ◌≢◌, refl, sym, ap, ◌∙◌, true, false, Bool-cases, inl, inr, List, [], ◌∷◌, ◌++◌,
  arith, All, Text, codes, text_eq, text_eq_iff, is_empty,
}
use go_clockwork.Zap.{FieldType, Field, is_string_type, find_trace_id, trace_id_key, trace_of}

heads : {A : Type 0} {x y : A} {xs ys : List A} → x ∷ xs ≡ y ∷ ys → x ≡ y
heads h = cc

tails : {A : Type 0} {x y : A} {xs ys : List A} → x ∷ xs ≡ y ∷ ys → xs ≡ ys
tails h = cc

is_string_type_eq : (t : FieldType) → is_string_type t ≡ true → t ≡ FieldType.string_type
is_string_type_eq FieldType.string_type h = refl
is_string_type_eq _ h = cc

pub is_empty_of_ne : (t : Text) → t ≢ [] → is_empty t ≡ false
is_empty_of_ne [] h = absurd (h refl)
is_empty_of_ne (c ∷ t) h = refl

-- A field that names a trace: a string with this key.
abbrev pub NamesTrace : {O : Type 0} → Field O → Type 0
NamesTrace f = (f.key ≡ codes "trace_id") × (f.type ≡ FieldType.string_type)

module _ {O : Type 0} where
  find_trace_id_named :
      (f : Field O) (fields : List (Field O)) → NamesTrace f → find_trace_id (f ∷ fields) ≡ f.string
  unfolding find_trace_id text_eq
  find_trace_id_named f fields (key, type) = rw (key, type) refl

  find_trace_id_other :
      (f : Field O) (fields : List (Field O))
      → (NamesTrace f → ⊥)
      → find_trace_id (f ∷ fields) ≡ find_trace_id fields
  unfolding find_trace_id
  find_trace_id_other f fields other = elim (Bool-cases (is_string_type f.type)) [
    | inr no_string ↦ rw no_string (ground arith)
    | inl string ↦ elim (Bool-cases (text_eq f.key trace_id_key)) [
      | inr other_key ↦ rw other_key refl
      | inl key ↦
          let named : f.key ≡ trace_id_key = ground (arith, text_eq_iff f.key trace_id_key) in
          absurd (other (named, is_string_type_eq f.type string))
    ]
  ]

  find_trace_id_first :
      (front rest : List (Field O)) (f : Field O)
      → All (λ g. NamesTrace g → ⊥) front
      → NamesTrace f
      → find_trace_id (front ++ (f ∷ rest)) ≡ f.string
  find_trace_id_first [] rest f others names = find_trace_id_named f rest names
  find_trace_id_first (h ∷ front) rest f (other, others) names =
      find_trace_id_other h (front ++ (f ∷ rest)) other
      ∙ find_trace_id_first front rest f others names

  -- The first field that names a trace, if it is not empty.
  pub trace_of_first :
      {U : Type 0} (underlying : U) (own fields front rest : List (Field O)) (f : Field O)
      → own ++ fields ≡ front ++ (f ∷ rest)
      → All (λ g. NamesTrace g → ⊥) front
      → NamesTrace f
      → f.string ≢ []
      → trace_of fields (record { underlying = underlying; fields = own }) ≡ f.string
  unfolding trace_of
  trace_of_first underlying [] fields front rest f split others names named =
      ap find_trace_id split ∙ find_trace_id_first front rest f others names
  trace_of_first underlying (g ∷ own) fields [] rest f split others names named =
      let found : find_trace_id (g ∷ own) ≡ f.string =
        find_trace_id_named g own (subst NamesTrace (sym (heads split)) names)
        ∙ ap (λ (x : Field O). x.string) (heads split) in
      rw (found, is_empty_of_ne f.string named) refl
  trace_of_first underlying (g ∷ own) fields (h ∷ front) rest f split (other, others) names named =
      let passed : find_trace_id (g ∷ own) ≡ find_trace_id own =
        find_trace_id_other g own (λ n. other (subst NamesTrace (heads split) n)) in
      rw passed (trace_of_first underlying own fields front rest f (tails split) others names named)
