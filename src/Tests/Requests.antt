-- ===== src/Tests/Requests.antt =====
-- collector.go on small inputs.
use go_clockwork.Prelude.{
  ◌+◌, ◌≡◌, ◌≢◌, ◌↔◌, refl, inl, true, false, List, [], ◌∷◌, arith, length, Text, codes, ℤ, pos,
  ◌≤ℤ◌, Grows, ◌>>=◌, pure, text_eq, insert, lookup, count_of, increment, add_int, quot, signed,
  wrap64, trim_left, trim_right, trim_space, contains, has_prefix,
}
use go_clockwork.Config.{Config, default_config, normalize}
use go_clockwork.Metadata.{Value, NumberKind}
use go_clockwork.TableName.First.{extract_table_name_first, keywords, IsAmong, is_keyword-true}
use go_clockwork.TableName.{
  extract_table_name, table_loop, fields, fields_loop, after_last_dot, clean_table_name, is_keyword,
}
use go_clockwork.Frames.{is_vendor_path, caller_outside_package}
use go_clockwork.Collector.{
  Collector, CollectorLimits, limits_from_config, new_collector, truncate, drop_event, reserve,
  reserve_bytes, append_timeline, record_event, push_timeline, timeline_event,
}
use go_clockwork.Collector.Sanitize.{
  as_text, capture_current_stack_trace, capture_loop, captured_frame, context_loop,
  sanitize_context, sanitize_frame, sanitize_number, sanitize_trace, sanitize_value, stop_context,
  trace_loop,
}
use go_clockwork.Collector.Methods.{
  add_cache_query, add_database_query, add_database_query_detailed, add_log_entry,
  add_log_entry_with_trace, add_timeline_event, color_for_slow, log_trace, new_cache_query,
  new_database_query, new_log_entry, push_cache_query, push_database_query, push_log_entry,
  set_controller, set_headers, set_response_data, set_trace, set_url, set_user_data,
}
use go_clockwork.Collector.Quiet.{dropped_events}
use go_clockwork.Collector.Sound.{AreShort}
use go_clockwork.Collector.Calls.{Call, run_calls, apply_call}
use go_clockwork.Collector.Snapshot.{get_metadata}
use go_clockwork.Collector.Results.{
  collected, collected-within_limits, collected_counted, collected-AreShort,
  get_metadata-truncated_iff, run_calls-Grows,
}
use go_clockwork.Tests.Sample.{machine}

program : Unit {0}
unfolding append_timeline drop_event limits_from_config new_collector push_timeline record_event
    reserve reserve_bytes timeline_event truncate apply_call run_calls add_cache_query
    add_database_query add_database_query_detailed add_log_entry add_log_entry_with_trace
    add_timeline_event color_for_slow log_trace new_cache_query new_database_query new_log_entry
    push_cache_query push_database_query push_log_entry set_controller set_headers set_response_data
    set_trace set_url set_user_data collected as_text capture_current_stack_trace capture_loop
    captured_frame context_loop sanitize_context sanitize_frame sanitize_number sanitize_trace
    sanitize_value stop_context trace_loop get_metadata caller_outside_package is_vendor_path
    add_int quot count_of increment insert lookup pure ◌>>=◌ contains has_prefix text_eq trim_left
    trim_right trim_space clean_table_name extract_table_name fields fields_loop after_last_dot
    is_keyword table_loop signed wrap64 normalize default_config
program = tt

-- Room for one query, one cache operation, one log entry, two events and texts of six bytes.
abbrev small : Config
small = record default_config {
  max_database_queries = pos 1;
  max_cache_queries = pos 1;
  max_log_entries = pos 1;
  max_timeline_events = pos 2;
  max_string_length = pos 6;
}

abbrev log : Text → Call ℤ (Unit {0})
log message =
    Call.adds_log_entry (codes "info") message
      ((codes "user", Value.number NumberKind.int (pos 7)) ∷ []) [] (pos 9) []

abbrev query : Text → Call ℤ (Unit {0})
query text = Call.adds_database_query text (pos 5) (codes "main") true [] [] (pos 0) (pos 9) []

abbrev calls : List (Call ℤ (Unit {0}))
calls =
    query (codes "select * from users")
    ∷ query (codes "begin")
    ∷ log (codes "hello")
    ∷ log (codes "bye")
    ∷ Call.adds_cache_query (codes "hit") (codes "k") (pos 1) (pos 9)
    ∷ Call.sets_response_data (pos 200) (pos 3) (pos 12) 0
    ∷ []

abbrev limits : CollectorLimits
limits = limits_from_config small

abbrev request : Collector ℤ (Unit {0})
request = collected machine (codes "id") (pos 1) 0 (codes "GET") (codes "/") limits calls

-- One query and one log entry too many, and the event of the response has no place.
run_request :
    (length request.database_queries ≡ 1)
    × (length request.log_entries ≡ 1)
    × (length request.timeline_events ≡ 2)
    × (dropped_events request.dropped ≡ 3)
    × (count_of (codes "database") request.dropped ≡ 1)
    × (count_of (codes "logs") request.dropped ≡ 1)
    × (count_of (codes "timeline") request.dropped ≡ 1)
unfolding program
run_request = (refl, refl, refl, refl, refl, refl, refl)

collected-within_limits_example :
    let n = normalize small in
    let c =
      collected machine
        (codes "id")
        (pos 1)
        0
        (codes "GET")
        (codes "/")
        (limits_from_config n)
        calls in
    (pos (length c.database_queries) ≤ℤ n.max_database_queries)
    × (pos (length c.cache_queries) ≤ℤ n.max_cache_queries)
    × (pos (length c.log_entries) ≤ℤ n.max_log_entries)
    × (pos (length c.timeline_events) ≤ℤ n.max_timeline_events)
    × (c.used_bytes ≤ℤ n.max_request_payload_bytes)
collected-within_limits_example =
    collected-within_limits machine (codes "id") (pos 1) 0 (codes "GET") (codes "/") small calls

collected_counted_example :
    length request.log_entries + length request.timeline_events + dropped_events request.dropped ≡ 6
collected_counted_example =
    collected_counted machine (codes "id") (pos 1) 0 (codes "GET") (codes "/") limits calls

collected-AreShort_example : AreShort 6 request
unfolding limits_from_config
collected-AreShort_example =
    collected-AreShort machine (codes "id") (pos 1) 0 (codes "GET") (codes "/") limits calls

get_metadata-truncated_iff_example :
    ((get_metadata machine request).truncated ≡ true)
    ↔ ((get_metadata machine request).dropped ≢ [])
get_metadata-truncated_iff_example =
    get_metadata-truncated_iff machine (codes "id") (pos 1) 0 (codes "GET") (codes "/") limits calls

request_limit : request.limits.max_string_len ≡ pos 6
unfolding program
request_limit = refl

run_calls-Grows_example :
    Grows request.database_queries (run_calls machine calls request).database_queries
    × Grows request.cache_queries (run_calls machine calls request).cache_queries
    × Grows request.log_entries (run_calls machine calls request).log_entries
    × Grows request.timeline_events (run_calls machine calls request).timeline_events
run_calls-Grows_example = run_calls-Grows 6 machine calls request (omega arith) request_limit

-- The cases of `TestExtractTableName`.
table_names :
    (extract_table_name (codes "SELECT * FROM users WHERE id = ?") ≡ codes "users")
    × (extract_table_name (codes "select id, name from `products` where active = 1")
        ≡ codes "products")
    × (extract_table_name (codes "INSERT INTO orders (user_id, total) VALUES (?, ?)")
        ≡ codes "orders")
    × (extract_table_name (codes "UPDATE categories SET name = ? WHERE id = ?")
        ≡ codes "categories")
    × (extract_table_name (codes "DELETE FROM sessions WHERE expired_at < ?") ≡ codes "sessions")
    × (extract_table_name
          (codes "SELECT u.id FROM schema.users u JOIN orders o ON u.id = o.user_id")
        ≡ codes "users")
    × (extract_table_name [] ≡ [])
    × (extract_table_name (codes "SHOW TABLES") ≡ [])
unfolding program
table_names = (refl, refl, refl, refl, refl, refl, refl, refl)

vendor_paths :
    (is_vendor_path (codes "/go/pkg/mod/x.go") ≡ true)
    × (is_vendor_path (codes "/app/Vendor/x.go") ≡ true)
    × (is_vendor_path (codes "/app/x.go") ≡ false)
unfolding program
vendor_paths = (refl, refl, refl)

-- A quote in front of a closing mark or behind a qualifier is not removed.
quoted_names :
    (clean_table_name (codes "`users`") ≡ codes "users")
    × (clean_table_name (codes "`users`;") ≡ codes "users`")
    × (clean_table_name (codes "`shop`.`users`") ≡ codes "`users")
unfolding program
quoted_names = (refl, refl, refl)

no_keyword : (word : Text) → is_keyword word ≡ false → IsAmong word keywords → ⊥
no_keyword word h among = ground (arith, h, is_keyword-true word among)

extract_table_name_first_example :
    extract_table_name (codes "select * From a.`users`; now")
    ≡ clean_table_name (codes "a.`users`;")
unfolding program
extract_table_name_first_example =
    extract_table_name_first (codes "select * From a.`users`; now") (codes "From")
      (codes "a.`users`;") (codes "select" ∷ codes "*" ∷ []) (codes "now" ∷ []) refl
      (no_keyword (codes "SELECT") refl, (no_keyword (codes "*") refl, tt)) (inl refl)
