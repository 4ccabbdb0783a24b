-- ===== src/Config.antt =====
-- config.go: the configuration and its defaults. Durations are nanoseconds.
pub mod Normalize
pub mod Environment
pub mod Load
use go_clockwork.Prelude.{ℕ, ◌*◌, Bool, true, if◌then◌else◌, Text, codes, is_empty, ℤ, pos, is_pos}

-- `Config`
pub record Config : Type 0 where
  pub enabled : Bool
  pub header_name : Text
  pub id_header : Text
  pub max_requests : ℤ
  pub max_storage_bytes : ℤ
  pub max_request_payload_bytes : ℤ
  pub max_database_queries : ℤ
  pub max_cache_queries : ℤ
  pub max_log_entries : ℤ
  pub max_timeline_events : ℤ
  pub max_string_length : ℤ
  pub slow_query_threshold : ℤ
  pub cleanup_interval : ℤ
  pub request_retention_time : ℤ

abbrev pub millisecond : ℕ
millisecond = 1_000_000

abbrev pub second : ℕ
second = 1000 * millisecond

-- `DefaultConfig`
unfoldable pub default_config : Config
default_config = record {
  enabled = true;
  header_name = codes "X-Clockwork";
  id_header = codes "X-Clockwork-Id";
  max_requests = pos 200;
  max_storage_bytes = pos (64 * 1024 * 1024);
  max_request_payload_bytes = pos (256 * 1024);
  max_database_queries = pos 100;
  max_cache_queries = pos 200;
  max_log_entries = pos 150;
  max_timeline_events = pos 200;
  max_string_length = pos 2048;
  slow_query_threshold = pos (100 * millisecond);
  cleanup_interval = pos (5 * 60 * second);
  request_retention_time = pos (3600 * second);
}

-- `if s == "" { s = d }`
abbrev pub or_text : Text → Text → Text
or_text s d = if is_empty s then d else s

-- `if n <= 0 { n = d }`
abbrev pub or_positive : ℤ → ℤ → ℤ
or_positive n d = if is_pos n then n else d

-- `Normalize`
unfoldable pub normalize : Config → Config
unfolding default_config
normalize c = record c {
  header_name = or_text c.header_name default_config.header_name;
  id_header = or_text c.id_header default_config.id_header;
  max_requests = or_positive c.max_requests default_config.max_requests;
  max_storage_bytes = or_positive c.max_storage_bytes default_config.max_storage_bytes;
  max_request_payload_bytes =
      or_positive c.max_request_payload_bytes default_config.max_request_payload_bytes;
  max_database_queries = or_positive c.max_database_queries default_config.max_database_queries;
  max_cache_queries = or_positive c.max_cache_queries default_config.max_cache_queries;
  max_log_entries = or_positive c.max_log_entries default_config.max_log_entries;
  max_timeline_events = or_positive c.max_timeline_events default_config.max_timeline_events;
  max_string_length = or_positive c.max_string_length default_config.max_string_length;
  slow_query_threshold = or_positive c.slow_query_threshold default_config.slow_query_threshold;
  cleanup_interval = or_positive c.cleanup_interval default_config.cleanup_interval;
  request_retention_time =
      or_positive c.request_retention_time default_config.request_retention_time;
}
