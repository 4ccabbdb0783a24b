-- ===== src/Collector/Calls.antt =====
-- collector.go: the methods that change a collector as data, to speak of any sequence of calls.
use go_clockwork.Prelude.{ℕ, ◌+◌, Bool, List, [], ◌∷◌, Text, Map, ℤ}
use go_clockwork.Metadata.{Value, LogTraceFrame}
use go_clockwork.Runtime.{Runtime}
use go_clockwork.Frames.{Frame}
use go_clockwork.Collector.{Collector}
use go_clockwork.Collector.Methods.{
  set_headers, set_url, set_controller, set_trace, set_user_data, set_response_data,
  add_database_query_detailed, add_cache_query, add_log_entry_with_trace, add_timeline_event,
}

-- A call of a method of `DataCollector` with its arguments, and the clock, the memory statistics and
-- the stack that the method reads. `AddDatabaseQuery` and `AddLogEntry` are calls of the two
-- methods with more arguments.
pub data Call (F O : Type 0) : Type 0 where
  sets_headers : Map Text → Call F O
  sets_url : Text → Call F O
  sets_controller : Text → Call F O
  sets_trace : Text → Text → Call F O
  sets_user_data : Text → Value F O → Call F O
  sets_response_data : ℤ → ℤ → ℤ → ℕ → Call F O
  adds_database_query : Text → ℤ → Text → Bool → Text → Text → ℤ → ℤ → List Frame → Call F O
  adds_cache_query : Text → Text → ℤ → ℤ → Call F O
  adds_log_entry : Text → Text → Map (Value F O) → List LogTraceFrame → ℤ → List Frame → Call F O
  adds_timeline_event : Text → Text → ℤ → ℤ → Text → Call F O

module _ {F O : Type 0} (rt : Runtime F O) where
  unfoldable pub apply_call : Call F O → Collector F O → Collector F O
  apply_call (Call.sets_headers headers) = set_headers headers
  apply_call (Call.sets_url url) = set_url url
  apply_call (Call.sets_controller controller) = set_controller controller
  apply_call (Call.sets_trace trace_id span_id) = set_trace trace_id span_id
  apply_call (Call.sets_user_data key value) = set_user_data key value
  apply_call (Call.sets_response_data status duration now alloc) =
      set_response_data rt status duration now alloc
  apply_call (Call.adds_database_query query duration connection slow model file line now stack) =
      add_database_query_detailed rt query duration connection slow model file line now stack
  apply_call (Call.adds_cache_query cache_type key duration now) =
      add_cache_query rt cache_type key duration now
  apply_call (Call.adds_log_entry level message fields trace now stack) =
      add_log_entry_with_trace rt level message fields trace now stack
  apply_call (Call.adds_timeline_event name description start end color) =
      add_timeline_event rt name description start end color

  -- A sequence of calls, first one first.
  unfoldable pub run_calls : List (Call F O) → Collector F O → Collector F O
  run_calls [] c = c
  run_calls (call ∷ calls) c = run_calls calls (apply_call call c)

-- How many events a call offers for recording: one for each recording method, none for a setter.
abbrev pub events_of : {F O : Type 0} → Call F O → ℕ
events_of (Call.sets_headers headers) = 0
events_of (Call.sets_url url) = 0
events_of (Call.sets_controller controller) = 0
events_of (Call.sets_trace trace_id span_id) = 0
events_of (Call.sets_user_data key value) = 0
events_of (Call.sets_response_data status duration now alloc) = 1
events_of (Call.adds_database_query query duration connection slow model file line now stack) = 1
events_of (Call.adds_cache_query cache_type key duration now) = 1
events_of (Call.adds_log_entry level message fields trace now stack) = 1
events_of (Call.adds_timeline_event name description start end color) = 1

abbrev pub event_count : {F O : Type 0} → List (Call F O) → ℕ
event_count [] = 0
event_count (call ∷ calls) = events_of call + event_count calls
