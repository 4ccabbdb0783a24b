-- ===== src/Zap.antt =====
-- integrations/zap/zap.go: a zap core that copies log lines to the collectors. The core underneath, and
-- what zapcore gives for levels and times, are outside the program.
pub mod Stack
pub mod Lines
pub mod Distinct
pub mod TraceId
pub mod Context
pub mod Routing
use go_clockwork.Prelude.{
  ℕ, ◌==◌, Bool, true, false, not, ◌&&◌, Option, none, some, List, [], ◌∷◌, ◌++◌, if◌then◌else◌,
  leb, length, Text, codes, text_eq, is_empty, trim_space, Map, insert, ℤ, pos, wrap64, to_signed,
  to_unsigned,
}
use go_clockwork.Metadata.{Value, NumberKind, LogTraceFrame}
use go_clockwork.Runtime.{Runtime}
use go_clockwork.Frames.{Frame}
use go_clockwork.Service.{World, is_enabled, has_active_traces}
use go_clockwork.Service.Requests.{record_log_for_trace, record_log_for_single_active}
use go_clockwork.Zap.Stack.{Entry, build_log_trace}

-- `zapcore.FieldType`, as far as the code tells the types apart.
pub data FieldType : Type 0 where
  string_type bool_type duration_type time_type error_type byte_string_type other_type : FieldType
  int8_type int16_type int32_type int64_type : FieldType
  uint8_type uint16_type uint32_type uint64_type : FieldType
  float32_type float64_type : FieldType

-- The interface of a field: nil, a location, an error with its text, bytes, or another value.
pub data Content (O : Type 0) : Type 0 where
  nothing : Content O
  location : O → Content O
  error : Text → Content O
  bytes : Text → Content O
  other : O → Content O

-- `zapcore.Field`
pub record Field (O : Type 0) : Type 0 where
  pub key : Text
  pub type : FieldType
  pub string : Text
  pub integer : ℤ
  pub content : Content O

-- What packages math, time and fmt give: the float64 of a bit pattern, the float32 next to it, the texts of a duration, of a time
-- in UTC and of one at a location, and of any value; and the name of a level.
pub record Formats (F O : Type 0) : Type 0 where
  pub float64_from_bits : ℤ → F
  pub to_float32 : F → F
  pub duration_text : ℤ → Text
  pub utc_text : ℤ → Text
  pub local_text : O → ℤ → Text
  pub sprint : Content O → Text
  pub level_name : ℤ → Text

abbrev pub trace_id_key : Text
trace_id_key = codes "trace_id"

abbrev pub is_string_type : FieldType → Bool
is_string_type FieldType.string_type = true
is_string_type _ = false

-- `findTraceID`
unfoldable pub find_trace_id : {O : Type 0} → List (Field O) → Text
find_trace_id [] = []
find_trace_id (f ∷ fields) =
    if text_eq f.key trace_id_key && is_string_type f.type then f.string else find_trace_id fields

module _ {F O : Type 0} (formats : Formats F O) where
  -- `toCompactString`, of a value that is not nil.
  unfoldable pub compact : Content O → Text
  compact v = trim_space (formats.sprint v)

  -- The cases of `fieldValue` that look at the interface of a field.
  unfoldable pub time_value : ℤ → Content O → Value F O
  time_value n (location l) = Value.text (formats.local_text l n)
  time_value n _ = Value.text (formats.utc_text n)

  unfoldable pub error_value : Content O → Value F O
  unfolding compact
  error_value nothing = Value.text []
  error_value (error t) = Value.text t
  error_value v = Value.text (compact v)

  unfoldable pub bytes_value : Content O → Option (Value F O)
  bytes_value nothing = some (Value.text [])
  bytes_value (bytes t) = some (Value.text t)
  bytes_value _ = none

  unfoldable pub any_value : Content O → Option (Value F O)
  unfolding compact
  any_value nothing = none
  any_value v = some (Value.text (compact v))

  -- `fieldValue`, by the type of the field.
  unfoldable pub typed_value : FieldType → Field O → Option (Value F O)
  unfolding time_value error_value bytes_value any_value to_signed to_unsigned
  typed_value FieldType.string_type f = some (Value.text f.string)
  typed_value FieldType.bool_type f =
      some (Value.boolean (elim f.integer [ pos n ↦ n == 1 | _ ↦ false ]))
  typed_value FieldType.int64_type f = some (Value.number NumberKind.int64 f.integer)
  typed_value FieldType.int32_type f = some (Value.number NumberKind.int32 (to_signed 32 f.integer))
  typed_value FieldType.int16_type f = some (Value.number NumberKind.int16 (to_signed 16 f.integer))
  typed_value FieldType.int8_type f = some (Value.number NumberKind.int8 (to_signed 8 f.integer))
  typed_value FieldType.uint64_type f =
      some (Value.number NumberKind.uint64 (to_unsigned 64 f.integer))
  typed_value FieldType.uint32_type f =
      some (Value.number NumberKind.uint32 (to_unsigned 32 f.integer))
  typed_value FieldType.uint16_type f =
      some (Value.number NumberKind.uint16 (to_unsigned 16 f.integer))
  typed_value FieldType.uint8_type f =
      some (Value.number NumberKind.uint8 (to_unsigned 8 f.integer))
  typed_value FieldType.float64_type f =
      some (Value.float64 (formats.float64_from_bits (to_unsigned 64 f.integer)))
  typed_value FieldType.float32_type f =
      some
        (Value.float32 (formats.to_float32 (formats.float64_from_bits (to_unsigned 64 f.integer))))
  typed_value FieldType.duration_type f = some (Value.text (formats.duration_text f.integer))
  typed_value FieldType.time_type f = some (time_value f.integer f.content)
  typed_value FieldType.error_type f = some (error_value f.content)
  typed_value FieldType.byte_string_type f = bytes_value f.content
  typed_value FieldType.other_type f = any_value f.content

  -- The step of the loop in `appendFields`.
  unfoldable pub put_value : Text → Option (Value F O) → Map (Value F O) → Map (Value F O)
  put_value key none dst = dst
  put_value key (some value) dst = insert key value dst

  -- `appendFields`
  unfoldable pub append_fields : List (Field O) → Map (Value F O) → Map (Value F O)
  unfolding typed_value put_value
  append_fields [] dst = dst
  append_fields (f ∷ fields) dst =
      let next =
        append_fields fields (
          if text_eq f.key trace_id_key then dst else put_value f.key (typed_value f.type f) dst) in
      if leb 20 (length dst) then dst else next

-- What the code uses of a core underneath, with a state of type `U`; `E` is the type of its results.
pub record Under (O U E : Type 0) : Type 0 where
  pub enabled : ℤ → U → Bool
  pub with_fields : List (Field O) → U → U
  pub write : Entry → List (Field O) → U → E × U
  pub sync : U → E × U

-- `Core`; the service is that of the world, and not nil.
pub record Core (O U : Type 0) : Type 0 where
  pub underlying : U
  pub fields : List (Field O)

module _ {O U E : Type 0} (under : Under O U E) where
  -- `Enabled`, `With`, `Check` and `Sync`; `Check` adds the core to the entry if it says `true`.
  unfoldable pub enabled : ℤ → Core O U → Bool
  enabled level c = under.enabled level c.underlying

  unfoldable pub with_fields : List (Field O) → Core O U → Core O U
  with_fields fields c = record {
    underlying = under.with_fields fields c.underlying;
    fields = c.fields ++ fields;
  }

  unfoldable pub check : Entry → Core O U → Bool
  unfolding enabled
  check entry c = enabled entry.level c

  unfoldable pub sync : Core O U → E × Core O U
  sync c = let r = under.sync c.underlying in (r.0, record c { underlying = r.1 })

-- `WrapCore`: a core that is nil, or a service that is disabled, leaves the core as it is. The service is
-- not nil.
pub data Wrapped (O U : Type 0) : Type 0 where
  unchanged : Option U → Wrapped O U
  wrapped : Core O U → Wrapped O U

unfoldable pub wrap_core : {F O S U : Type 0} → Option U → World F O S → Wrapped O U
wrap_core none w = unchanged none
wrap_core (some u) w =
    if is_enabled w then wrapped (record { underlying = u; fields = [] }) else unchanged (some u)

module _ {F O U : Type 0} (formats : Formats F O) where
  -- The fields that `Write` passes on.
  unfoldable pub context_fields : Entry → List (Field O) → Core O U → Map (Value F O)
  unfolding append_fields
  context_fields entry fields c =
      let own = append_fields formats fields (append_fields formats c.fields []) in
      let named =
        if is_empty entry.logger_name
        then own
        else insert (codes "logger") (Value.text entry.logger_name) own in
      elim entry.time [
        | none ↦ named
        | some t ↦ insert (codes "time") (Value.text (formats.utc_text t)) named
      ]

-- The trace id that `Write` finds, in the fields of the core first.
unfoldable pub trace_of : {O U : Type 0} → List (Field O) → Core O U → Text
unfolding find_trace_id
trace_of fields c =
    let own = find_trace_id c.fields in if is_empty own then find_trace_id fields else own

module _ {F O S U E : Type 0} (rt : Runtime F O) (formats : Formats F O) (under : Under O U E) where
  -- `Write`; `now` and `stack` are what the collector reads.
  unfoldable pub write :
      Entry → List (Field O) → ℤ → List Frame → Core O U → World F O S → E × Core O U × World F O S
  unfolding context_fields trace_of
  write entry fields now stack c w =
      let r = under.write entry fields c.underlying in
      let level = formats.level_name entry.level in
      let context = context_fields formats entry fields c in
      let trace_id = trace_of fields c in
      let frames = build_log_trace entry in
      let logged =
        if is_empty trace_id
        then (record_log_for_single_active rt level entry.message context frames now stack w).1
        else record_log_for_trace rt trace_id level entry.message context frames now stack w in
      (r.0, record c { underlying = r.1 }, if has_active_traces w then logged else w)
