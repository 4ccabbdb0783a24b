-- ===== src/Collector/Methods.antt =====
-- collector.go: the methods that record what a request does. `now` is what `time.Now` gives, `stack`
-- the frames of the running program.
use go_clockwork.Prelude.{
  ℕ, ◌+◌, ◌*◌, Bool, List, [], ◌∷◌, ◌++◌, if◌then◌else◌, length, Text, codes, is_empty, Map, insert,
  ℤ, pos, State, pure, ◌>>=◌,
}
use go_clockwork.Metadata.{Value, LogTraceFrame, DatabaseQuery, CacheQuery, LogEntry}
use go_clockwork.Runtime.{Runtime, duration_ms, unix_from_time}
use go_clockwork.Frames.{Frame, caller_outside_package}
use go_clockwork.TableName.{extract_table_name}
use go_clockwork.Collector.{
  Collector, truncate, reserve, append_timeline, database_bucket, cache_bucket, logs_bucket,
  timeline_bucket,
}
use go_clockwork.Collector.Sanitize.{sanitize_context, sanitize_trace, capture_current_stack_trace}

-- `colorForSlow`
unfoldable pub color_for_slow : Bool → Text
color_for_slow slow = if slow then codes "red" else codes "blue"

module _ {F O : Type 0} where
  -- `SetHeaders`
  unfoldable pub set_headers : Map Text → Collector F O → Collector F O
  set_headers headers c = record c { headers = headers }

  -- `SetURL`
  unfoldable pub set_url : Text → Collector F O → Collector F O
  set_url url c = let r = truncate url c in record r.1 { url = r.0 }

  -- `SetController`
  unfoldable pub set_controller : Text → Collector F O → Collector F O
  set_controller controller c = let r = truncate controller c in record r.1 { controller = r.0 }

  -- `SetTrace`
  unfoldable pub set_trace : Text → Text → Collector F O → Collector F O
  set_trace trace_id span_id c =
      let t = truncate trace_id c in
      let s = truncate span_id (record t.1 { trace_id = t.0 }) in record s.1 { span_id = s.0 }

  -- `SetUserData`; an empty key is ignored.
  unfoldable pub set_user_data : Text → Value F O → Collector F O → Collector F O
  set_user_data key value c =
      if is_empty key then c else record c { user_data = insert key value c.user_data }

  unfoldable pub push_database_query : DatabaseQuery F → Collector F O → Collector F O
  push_database_query q c = record c { database_queries = c.database_queries ++ q ∷ [] }

  unfoldable pub push_cache_query : CacheQuery F → Collector F O → Collector F O
  push_cache_query q c = record c { cache_queries = c.cache_queries ++ q ∷ [] }

  unfoldable pub push_log_entry : LogEntry F O → Collector F O → Collector F O
  push_log_entry e c = record c { log_entries = c.log_entries ++ e ∷ [] }

  -- The stack of a log entry: the frames that are given, or those of the running program.
  unfoldable pub log_trace :
      List LogTraceFrame → List Frame → State (Collector F O) (List LogTraceFrame)
  log_trace trace stack = do
    given ← sanitize_trace trace
    if is_empty given then capture_current_stack_trace stack else pure given

module _ {F O : Type 0} (rt : Runtime F O) where
  -- `SetResponseData`; `alloc` is what `runtime.ReadMemStats` gives.
  unfoldable pub set_response_data : ℤ → ℤ → ℤ → ℕ → Collector F O → Collector F O
  set_response_data status duration now alloc c =
      let d : Collector F O = record c {
        response_status = status;
        response_time = now;
        response_duration = duration;
        memory_usage_end = alloc;
      } in
      append_timeline rt (codes "request") (c.method ++ codes " " ++ c.uri)
        (unix_from_time rt c.start_time) (unix_from_time rt now) (codes "green") d

  -- The query that `AddDatabaseQueryDetailed` records, once there is room for it.
  unfoldable pub new_database_query :
      Text
      → ℤ
      → Text
      → Bool
      → Text
      → Text
      → ℤ
      → ℤ
      → List Frame
      → State (Collector F O) (DatabaseQuery F)
  new_database_query query duration connection slow model file line now stack =
      let caller = caller_outside_package stack in
      do
        short_query ← truncate query
        short_connection ← truncate connection
        short_model ← truncate (if is_empty model then extract_table_name query else model)
        short_file ← truncate (if is_empty file then caller.0 else file)
        pure (record {
          query = short_query;
          duration = duration_ms rt duration;
          connection = short_connection;
          model = short_model;
          file = short_file;
          line = if is_empty file then caller.1 else line;
          slow = slow;
          timestamp = unix_from_time rt now;
        })

  -- `AddDatabaseQueryDetailed`
  unfoldable pub add_database_query_detailed :
      Text → ℤ → Text → Bool → Text → Text → ℤ → ℤ → List Frame → Collector F O → Collector F O
  add_database_query_detailed query duration connection slow model file line now stack c =
      let place =
        reserve database_bucket c.limits.max_db_queries (length c.database_queries)
          (length query + 64) c in
      let made =
        new_database_query query duration connection slow model file line now stack place.1 in
      let q = made.0 in
      if place.0
      then append_timeline rt (codes "db") q.query (rt.sub q.timestamp (duration_ms rt duration))
          q.timestamp (color_for_slow slow) (push_database_query q made.1)
      else place.1

  -- `AddDatabaseQuery`
  unfoldable pub add_database_query :
      Text → ℤ → Text → Bool → ℤ → List Frame → Collector F O → Collector F O
  add_database_query query duration connection slow =
      add_database_query_detailed query duration connection slow [] [] (pos 0)

  unfoldable pub new_cache_query : Text → Text → ℤ → ℤ → State (Collector F O) (CacheQuery F)
  new_cache_query cache_type key duration now = do
    short_type ← truncate cache_type
    short_key ← truncate key
    pure (record {
      type = short_type;
      key = short_key;
      duration = duration_ms rt duration;
      timestamp = unix_from_time rt now;
    })

  -- `AddCacheQuery`
  unfoldable pub add_cache_query : Text → Text → ℤ → ℤ → Collector F O → Collector F O
  add_cache_query cache_type key duration now c =
      let place =
        reserve cache_bucket c.limits.max_cache_queries (length c.cache_queries) (length key + 48)
          c in
      let made = new_cache_query cache_type key duration now place.1 in
      let q = made.0 in
      if place.0
      then append_timeline rt (codes "cache") (q.type ++ codes ": " ++ q.key)
          (rt.sub q.timestamp (duration_ms rt duration)) q.timestamp (codes "purple")
          (push_cache_query q made.1)
      else place.1

  unfoldable pub new_log_entry :
      Text
      → Text
      → Map (Value F O)
      → List LogTraceFrame
      → ℤ
      → List Frame
      → State (Collector F O) (LogEntry F O)
  new_log_entry level message fields trace now stack = do
    frames ← log_trace trace stack
    short_level ← truncate level
    short_message ← truncate message
    context ← sanitize_context rt fields
    pure (record {
      level = short_level;
      message = short_message;
      context = context;
      timestamp = unix_from_time rt now;
      trace = frames;
    })

  -- `AddLogEntryWithTrace`
  unfoldable pub add_log_entry_with_trace :
      Text
      → Text
      → Map (Value F O)
      → List LogTraceFrame
      → ℤ
      → List Frame
      → Collector F O
      → Collector F O
  add_log_entry_with_trace level message fields trace now stack c =
      let place =
        reserve logs_bucket c.limits.max_logs (length c.log_entries)
          (length message + 96 + length trace * 64) c in
      let made = new_log_entry level message fields trace now stack place.1 in
      if place.0 then push_log_entry made.0 made.1 else place.1

  -- `AddLogEntry`
  unfoldable pub add_log_entry :
      Text → Text → Map (Value F O) → ℤ → List Frame → Collector F O → Collector F O
  add_log_entry level message fields = add_log_entry_with_trace level message fields []

  -- `AddTimelineEvent`
  unfoldable pub add_timeline_event : Text → Text → ℤ → ℤ → Text → Collector F O → Collector F O
  add_timeline_event name description start end color c =
      let place =
        reserve timeline_bucket c.limits.max_timeline_event (length c.timeline_events)
          (length name + length description + 32) c in
      if place.0
      then append_timeline rt name description (unix_from_time rt start) (unix_from_time rt end)
          color place.1
      else place.1
