-- ===== src/Collector/Snapshot.antt =====
-- collector.go: GetMetadata, the snapshot of a collector that is stored. The copies of the lists and
-- maps are the values themselves here.
use go_clockwork.Prelude.{◌-◌, ltb, if◌then◌else◌, List, [], ◌∷◌, length, codes, pos}
use go_clockwork.Metadata.{Metadata, DatabaseQuery}
use go_clockwork.Runtime.{Runtime, duration_ms, unix_from_time}
use go_clockwork.Collector.{Collector}

module _ {F O : Type 0} (rt : Runtime F O) where
  -- The loop over the queries that adds up their durations.
  unfoldable pub total_duration : F → List (DatabaseQuery F) → F
  total_duration total [] = total
  total_duration total (q ∷ queries) = total_duration (rt.add total q.duration) queries

  -- `GetMetadata`
  unfoldable pub get_metadata : Collector F O → Metadata F O
  get_metadata c = record {
    id = c.id;
    version = 1;
    type = codes "request";
    time = unix_from_time rt c.start_time;
    response_time = unix_from_time rt c.response_time;
    response_status = c.response_status;
    response_duration = duration_ms rt c.response_duration;
    method = c.method;
    uri = c.uri;
    url = c.url;
    controller = c.controller;
    headers = c.headers;
    trace_id = c.trace_id;
    span_id = c.span_id;
    database_queries = c.database_queries;
    database_queries_count = length c.database_queries;
    database_duration = total_duration (rt.of_int (pos 0)) c.database_queries;
    cache_queries = c.cache_queries;
    log_entries = c.log_entries;
    timeline_events = c.timeline_events;
    memory_usage =
        if ltb c.memory_usage_start c.memory_usage_end
        then c.memory_usage_end - c.memory_usage_start
        else 0;
    truncated = c.truncated;
    dropped = c.dropped;
    user_data = c.user_data;
  }
