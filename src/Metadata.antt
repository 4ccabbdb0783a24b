-- ===== src/Metadata.antt =====
-- metadata.go: the payload that is stored for a request. `F` is the type of float64 values and `O`
-- that of the Go values that are neither texts, numbers nor booleans.
use go_clockwork.Prelude.{ℕ, Bool, List, Text, Map, ℤ}

-- The numeric types that a value of type interface{} may have.
pub data NumberKind : Type 0 where
  int int8 int16 int32 int64 : NumberKind
  uint uint8 uint16 uint32 uint64 : NumberKind

-- A value of type interface{}.
pub data Value (F O : Type 0) : Type 0 where
  text : Text → Value F O
  number : NumberKind → ℤ → Value F O
  float32 : F → Value F O
  float64 : F → Value F O
  boolean : Bool → Value F O
  other : O → Value F O

-- `LogTraceFrame`
pub record LogTraceFrame : Type 0 where
  pub call : Text
  pub file : Text
  pub line : ℤ
  pub is_vendor : Bool

-- `DatabaseQuery`
pub record DatabaseQuery (F : Type 0) : Type 0 where
  pub query : Text
  pub duration : F
  pub connection : Text
  pub model : Text
  pub file : Text
  pub line : ℤ
  pub slow : Bool
  pub timestamp : F

-- `CacheQuery`
pub record CacheQuery (F : Type 0) : Type 0 where
  pub type : Text
  pub key : Text
  pub duration : F
  pub timestamp : F

-- `LogEntry`; a nil map is an empty one.
pub record LogEntry (F O : Type 0) : Type 0 where
  pub level : Text
  pub message : Text
  pub context : Map (Value F O)
  pub timestamp : F
  pub trace : List LogTraceFrame

-- `TimelineEvent`
pub record TimelineEvent (F : Type 0) : Type 0 where
  pub name : Text
  pub description : Text
  pub start : F
  pub end : F
  pub duration : F
  pub color : Text

-- `Metadata`
pub record Metadata (F O : Type 0) : Type 0 where
  pub id : Text
  pub version : ℕ
  pub type : Text
  pub time : F
  pub response_time : F
  pub response_status : ℤ
  pub response_duration : F
  pub method : Text
  pub uri : Text
  pub url : Text
  pub controller : Text
  pub headers : Map Text
  pub trace_id : Text
  pub span_id : Text
  pub database_queries : List (DatabaseQuery F)
  pub database_queries_count : ℕ
  pub database_duration : F
  pub cache_queries : List (CacheQuery F)
  pub log_entries : List (LogEntry F O)
  pub timeline_events : List (TimelineEvent F)
  pub memory_usage : ℕ
  pub truncated : Bool
  pub dropped : Map ℕ
  pub user_data : Map (Value F O)
