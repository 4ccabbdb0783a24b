-- ===== src/Zap/Context.antt =====
-- integrations/zap/zap.go: the fields that `Write` passes on, first those of its core, then those of the
-- line.
use go_clockwork.Prelude.{
  ℤ, ◌+◌, ◌≤◌, ◌≡◌, refl, sym, ap, ◌∙◌, false, not, ◌&&◌, inl, inr, Option, none, some,
  Option-cases, List, [], ◌∷◌, ◌++◌, if◌then◌else◌, arith, length, Text, codes, text_eq,
  text_eq_iff, is_empty, Map, lookup, insert, lookup-insert, length-insert-le, length-append, leb,
}
use go_clockwork.Metadata.{Value}
use go_clockwork.Zap.{
  Field, Formats, Core, trace_id_key, typed_value, put_value, append_fields, context_fields,
}
use go_clockwork.Zap.Stack.{Entry}

module _ {F O : Type 0} (formats : Formats F O) where
  -- The last value of a key among fields; a trace id is not passed on.
  abbrev pub field_value : Text → Field O → Option (Value F O)
  field_value k f =
      if text_eq f.key k && not (text_eq k (codes "trace_id"))
      then typed_value formats f.type f
      else none

  abbrev pub last_or : {A : Type 0} → Option A → Option A → Option A
  last_or none first = first
  last_or (some last) first = some last

  abbrev pub last_value : Text → List (Field O) → Option (Value F O)
  last_value k [] = none
  last_value k (f ∷ fields) = last_or (last_value k fields) (field_value k f)

  last_or_assoc :
      {A : Type 0} (x y z : Option A) → last_or x (last_or y z) ≡ last_or (last_or x y) z
  last_or_assoc none y z = refl
  last_or_assoc (some a) y z = refl

  last_or-none : {A : Type 0} (x : Option A) → last_or x none ≡ x
  last_or-none none = refl
  last_or-none (some a) = refl

  last_value-append :
      (k : Text) (own fields : List (Field O))
      → last_value k (own ++ fields) ≡ last_or (last_value k fields) (last_value k own)
  last_value-append k [] fields = sym (last_or-none (last_value k fields))
  last_value-append k (f ∷ own) fields =
      ap (λ x. last_or x (field_value k f)) (last_value-append k own fields)
      ∙ sym (last_or_assoc (last_value k fields) (last_value k own) (field_value k f))

  lookup-put_field :
      (k : Text) (f : Field O) (dst : Map (Value F O))
      → lookup k (
          if text_eq f.key trace_id_key
          then dst
          else put_value formats f.key (typed_value formats f.type f) dst)
        ≡ last_or (field_value k f) (lookup k dst)
  unfolding put_value
  lookup-put_field k f dst = elim (Option-cases (typed_value formats f.type f)) [
    | inl nothing ↦ rw nothing (ground arith)
    | inr (v, value) ↦ rw value (
        ground (
          arith,
          lookup-insert f.key k v dst,
          text_eq_iff f.key k,
          text_eq_iff f.key trace_id_key,
          text_eq_iff k trace_id_key,
        ))
  ]

  length-put_field :
      (f : Field O) (dst : Map (Value F O))
      → length (
          if text_eq f.key trace_id_key
          then dst
          else put_value formats f.key (typed_value formats f.type f) dst)
        ≤ length dst + 1
  unfolding put_value
  length-put_field f dst = elim (Option-cases (typed_value formats f.type f)) [
    | inl nothing ↦ rw nothing (ground arith)
    | inr (v, value) ↦ rw value (ground (arith, length-insert-le f.key v dst))
  ]

  -- So few fields are all taken.
  lookup-append_fields :
      (k : Text) (fields : List (Field O)) (dst : Map (Value F O))
      → length dst + length fields ≤ 20
      → lookup k (append_fields formats fields dst) ≡ last_or (last_value k fields) (lookup k dst)
  unfolding append_fields put_value
  lookup-append_fields k [] dst room = refl
  lookup-append_fields k (f ∷ fields) dst room =
      let next =
        if text_eq f.key trace_id_key
        then dst
        else put_value formats f.key (typed_value formats f.type f) dst in
      let below : leb 20 (length dst) ≡ false = ground arith in
      rw below (
        lookup-append_fields k fields next (omega (arith, length-put_field f dst))
        ∙ ap (last_or (last_value k fields)) (lookup-put_field k f dst)
        ∙ last_or_assoc (last_value k fields) (field_value k f) (lookup k dst))

  length-append_fields :
      (fields : List (Field O)) (dst : Map (Value F O))
      → length (append_fields formats fields dst) ≤ length dst + length fields
  unfolding append_fields
  length-append_fields [] dst = omega arith
  length-append_fields (f ∷ fields) dst =
      let next =
        if text_eq f.key trace_id_key
        then dst
        else put_value formats f.key (typed_value formats f.type f) dst in
      ground (arith, length-append_fields fields next, length-put_field f dst)

  -- The value of a key behind the time of a line.
  abbrev pub timed_value : Text → Option ℤ → Option (Value F O) → Option (Value F O)
  timed_value k none v = v
  timed_value k (some t) v =
      if text_eq (codes "time") k then some (Value.text (formats.utc_text t)) else v

  lookup-timed :
      (k : Text) (time : Option ℤ) (m : Map (Value F O))
      → lookup k (elim time [
        | none ↦ m
        | some t ↦ insert (codes "time") (Value.text (formats.utc_text t)) m
      ])
        ≡ timed_value k time (lookup k m)
  lookup-timed k none m = refl
  lookup-timed k (some t) m = lookup-insert (codes "time") k (Value.text (formats.utc_text t)) m

  lookup-named :
      (k name : Text) (m : Map (Value F O))
      → lookup k (if is_empty name then m else insert (codes "logger") (Value.text name) m) ≡ (
          if text_eq (codes "logger") k && not (is_empty name)
          then some (Value.text name)
          else lookup k m)
  lookup-named k [] m = ground arith
  lookup-named k (c ∷ name) m =
      lookup-insert (codes "logger") k (Value.text (c ∷ name)) m ∙ ground arith

  -- What a key has in the context of a line: the name of the logger and the time come last.
  abbrev pub context_value : Text → Entry → List (Field O) → Option (Value F O)
  context_value k entry fields = timed_value k entry.time (
      if text_eq (codes "logger") k && not (is_empty entry.logger_name)
      then some (Value.text entry.logger_name)
      else last_value k fields)

  abbrev pub IsContext : Entry → List (Field O) → Map (Value F O) → Type 0
  IsContext entry fields context = (k : Text) → lookup k context ≡ context_value k entry fields

  pub lookup-context_fields :
      {U : Type 0} (k : Text) (entry : Entry) (fields : List (Field O)) (core : Core O U)
      → length (core.fields ++ fields) ≤ 20
      → lookup k (context_fields formats entry fields core)
        ≡ context_value k entry (core.fields ++ fields)
  unfolding context_fields lookup
  lookup-context_fields k entry fields core few =
      let first = append_fields formats core.fields [] in
      let own = append_fields formats fields first in
      let short = length-append_fields core.fields [] in
      let size = length-append core.fields fields in
      let values : lookup k own ≡ last_value k (core.fields ++ fields) =
        lookup-append_fields k fields first (omega arith)
        ∙ ap (last_or (last_value k fields)) (
            lookup-append_fields k core.fields [] (omega arith)
            ∙ last_or-none (last_value k core.fields))
        ∙ sym (last_value-append k core.fields fields) in
      let logger = Value.text entry.logger_name in
      lookup-timed k entry.time
        (if is_empty entry.logger_name then own else insert (codes "logger") logger own)
      ∙ ap (timed_value k entry.time) (lookup-named k entry.logger_name own ∙ rw values refl)
