-- ===== src/Collector.antt =====
-- collector.go: the record of one request, and what every recording method works with: the limits, the
-- truncation of texts, the reservation of space and the timeline. A method on a nil collector does
-- nothing; that test stands with the callers. The mutex makes each method one step.
pub mod Sanitize
pub mod Methods
pub mod Quiet
pub mod Truncates
pub mod Entries
pub mod Calls
pub mod Sound
pub mod Pushes
pub mod Recording
pub mod Invariant
pub mod Names
pub mod Snapshot
pub mod Results
use go_clockwork.Prelude.{
  ℕ, zero, suc, ◌+◌, Bool, true, false, ◌&&◌, not, ◌||◌, List, [], ◌∷◌, ◌++◌, if◌then◌else◌, leb,
  length, take, Text, codes, Map, increment, ℤ, pos, negsuc, is_pos, pos_part, ltb_ℤ, add_int,
  State, pure, ◌>>=◌,
}
use go_clockwork.Config.{Config}
use go_clockwork.Metadata.{DatabaseQuery, CacheQuery, LogEntry, TimelineEvent, Value}
use go_clockwork.Runtime.{Runtime}

-- `collectorLimits`
pub record CollectorLimits : Type 0 where
  pub max_request_bytes : ℤ
  pub max_string_len : ℤ
  pub max_db_queries : ℤ
  pub max_cache_queries : ℤ
  pub max_logs : ℤ
  pub max_timeline_event : ℤ

-- `limitsFromConfig`
unfoldable pub limits_from_config : Config → CollectorLimits
limits_from_config cfg = record {
  max_request_bytes = cfg.max_request_payload_bytes;
  max_string_len = cfg.max_string_length;
  max_db_queries = cfg.max_database_queries;
  max_cache_queries = cfg.max_cache_queries;
  max_logs = cfg.max_log_entries;
  max_timeline_event = cfg.max_timeline_events;
}

-- `Collector`
pub record Collector (F O : Type 0) : Type 0 where
  pub id : Text
  pub start_time : ℤ
  pub method : Text
  pub uri : Text
  pub url : Text
  pub controller : Text
  pub headers : Map Text
  pub trace_id : Text
  pub span_id : Text
  pub response_status : ℤ
  pub response_time : ℤ
  pub response_duration : ℤ
  pub memory_usage_start : ℕ
  pub memory_usage_end : ℕ
  pub database_queries : List (DatabaseQuery F)
  pub cache_queries : List (CacheQuery F)
  pub log_entries : List (LogEntry F O)
  pub timeline_events : List (TimelineEvent F)
  pub user_data : Map (Value F O)
  pub dropped : Map ℕ
  pub truncated : Bool
  pub limits : CollectorLimits
  pub used_bytes : ℤ

-- The buckets of `dropped`.
abbrev pub strings_bucket : Text
strings_bucket = codes "strings"

abbrev pub payload_bucket : Text
payload_bucket = codes "payload"

abbrev pub database_bucket : Text
database_bucket = codes "database"

abbrev pub cache_bucket : Text
cache_bucket = codes "cache"

abbrev pub logs_bucket : Text
logs_bucket = codes "logs"

abbrev pub timeline_bucket : Text
timeline_bucket = codes "timeline"

abbrev pub log_context_bucket : Text
log_context_bucket = codes "log_context"

-- The zero value of `time.Time`, in nanoseconds since 1970.
abbrev pub zero_time : ℤ
zero_time = negsuc 62135596799999999999

-- The condition under which `truncate` leaves a text alone.
abbrev pub within_limit : Text → ℤ → Bool
within_limit v limit = not (is_pos limit) || not (ltb_ℤ limit (pos (length v)))

-- A bucket is full when its limit is set and reached.
abbrev pub is_full : ℤ → ℕ → Bool
is_full max current = is_pos max && not (ltb_ℤ (pos current) max)

module _ {F O : Type 0} where
  -- `NewCollector`; the id, the clock and the memory statistics are arguments.
  unfoldable pub new_collector : Text → ℤ → ℕ → Text → Text → CollectorLimits → Collector F O
  new_collector id now alloc method uri limits = record {
    id = id;
    start_time = now;
    method = method;
    uri = uri;
    url = [];
    controller = [];
    headers = [];
    trace_id = [];
    span_id = [];
    response_status = pos 0;
    response_time = zero_time;
    response_duration = pos 0;
    memory_usage_start = alloc;
    memory_usage_end = 0;
    database_queries = [];
    cache_queries = [];
    log_entries = [];
    timeline_events = [];
    user_data = [];
    dropped = [];
    truncated = false;
    limits =
        if is_pos limits.max_string_len
        then limits
        else record limits { max_string_len = pos 2048 };
    used_bytes = pos 0;
  }

  -- `c.dropped[bucket]++; c.truncated = true`
  unfoldable pub drop_event : Text → Collector F O → Collector F O
  drop_event bucket c = record c { dropped = increment bucket c.dropped; truncated = true }

  -- `truncate`
  unfoldable pub truncate : Text → State (Collector F O) Text
  truncate v c =
      let limit = c.limits.max_string_len in
      if within_limit v limit
      then (v, c)
      else (take (pos_part limit) v, drop_event strings_bucket c)

  -- The second half of `reserveLocked`: the payload.
  unfoldable pub reserve_bytes : ℕ → State (Collector F O) Bool
  reserve_bytes estimate c =
      let needed : ℕ = if leb estimate 0 then 1 else estimate in
      let used = add_int c.used_bytes (pos needed) in
      if is_pos c.limits.max_request_bytes
      then (if ltb_ℤ c.limits.max_request_bytes used
          then (false, drop_event payload_bucket c)
          else (true, record c { used_bytes = used }))
      else (true, c)

  -- `reserveLocked`
  unfoldable pub reserve : Text → ℤ → ℕ → ℕ → State (Collector F O) Bool
  reserve bucket max current estimate c =
      if is_full max current then (false, drop_event bucket c) else reserve_bytes estimate c

  -- The end of `appendTimelineLocked`.
  unfoldable pub push_timeline : TimelineEvent F → Collector F O → Collector F O
  push_timeline event c = record c { timeline_events = c.timeline_events ++ event ∷ [] }

module _ {F O : Type 0} (rt : Runtime F O) where
  -- The times of a timeline event: an event that does not end after its start has no end.
  unfoldable pub timeline_event : Text → Text → F → F → Text → TimelineEvent F
  timeline_event name description start end color = record {
    name = name;
    description = description;
    start = start;
    end = if rt.ltf start end then end else rt.of_int (pos 0);
    duration = if rt.ltf start end then rt.sub end start else rt.of_int (pos 0);
    color = color;
  }

  -- What `appendTimelineLocked` does with an event that has a place.
  unfoldable pub record_event : Text → Text → F → F → Text → State (Collector F O) (Unit {0})
  record_event name description start end color = do
    short_name ← truncate name
    short_description ← truncate description
    λ c. (tt, push_timeline (timeline_event short_name short_description start end color) c)

  -- `appendTimelineLocked`
  unfoldable pub append_timeline : Text → Text → F → F → Text → Collector F O → Collector F O
  append_timeline name description start end color c =
      if is_full c.limits.max_timeline_event (length c.timeline_events)
      then drop_event timeline_bucket c
      else (record_event name description start end color c).1
