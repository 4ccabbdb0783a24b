-- ===== src/Config/Normalize.antt =====
-- config.go: what Normalize makes of a configuration.
use go_clockwork.Prelude.{
  ◌≡◌, refl, true, false, Text, [], ◌∷◌, is_empty, ℤ, is_pos, Bool-cases, inl, inr,
}
use go_clockwork.Config.{Config, normalize, default_config, or_positive, or_text}

-- Names are not empty, and every limit and duration is positive.
pub record IsNormal (c : Config) : Type 0 where
  pub header_name : is_empty c.header_name ≡ false
  pub id_header : is_empty c.id_header ≡ false
  pub max_requests : is_pos c.max_requests ≡ true
  pub max_storage_bytes : is_pos c.max_storage_bytes ≡ true
  pub max_request_payload_bytes : is_pos c.max_request_payload_bytes ≡ true
  pub max_database_queries : is_pos c.max_database_queries ≡ true
  pub max_cache_queries : is_pos c.max_cache_queries ≡ true
  pub max_log_entries : is_pos c.max_log_entries ≡ true
  pub max_timeline_events : is_pos c.max_timeline_events ≡ true
  pub max_string_length : is_pos c.max_string_length ≡ true
  pub slow_query_threshold : is_pos c.slow_query_threshold ≡ true
  pub cleanup_interval : is_pos c.cleanup_interval ≡ true
  pub request_retention_time : is_pos c.request_retention_time ≡ true

or_positive-pos : (n d : ℤ) → is_pos d ≡ true → is_pos (or_positive n d) ≡ true
or_positive-pos n d h = elim (Bool-cases (is_pos n)) [ inl p ↦ rw p p | inr p ↦ rw p h ]

or_positive_of_pos : (n d : ℤ) → is_pos n ≡ true → or_positive n d ≡ n
or_positive_of_pos n d h = rw h

or_text-named : (s d : Text) → is_empty d ≡ false → is_empty (or_text s d) ≡ false
or_text-named [] d h = h
or_text-named (c ∷ s) d h = refl

or_text_of_named : (s d : Text) → is_empty s ≡ false → or_text s d ≡ s
or_text_of_named s d h = rw h

-- Whatever the configuration is, the normalised one has names and positive limits.
pub normalize-IsNormal : (c : Config) → IsNormal (normalize c)
unfolding normalize
normalize-IsNormal c = record {
  header_name = or_text-named c.header_name _ refl;
  id_header = or_text-named c.id_header _ refl;
  max_requests = or_positive-pos c.max_requests _ refl;
  max_storage_bytes = or_positive-pos c.max_storage_bytes _ refl;
  max_request_payload_bytes = or_positive-pos c.max_request_payload_bytes _ refl;
  max_database_queries = or_positive-pos c.max_database_queries _ refl;
  max_cache_queries = or_positive-pos c.max_cache_queries _ refl;
  max_log_entries = or_positive-pos c.max_log_entries _ refl;
  max_timeline_events = or_positive-pos c.max_timeline_events _ refl;
  max_string_length = or_positive-pos c.max_string_length _ refl;
  slow_query_threshold = or_positive-pos c.slow_query_threshold _ refl;
  cleanup_interval = or_positive-pos c.cleanup_interval _ refl;
  request_retention_time = or_positive-pos c.request_retention_time _ refl;
}

-- A configuration that needs no default is left as it is.
pub normalize_of_normal : (c : Config) → IsNormal c → normalize c ≡ c
unfolding normalize
normalize_of_normal c h = λ i. record {
  enabled = c.enabled;
  header_name = or_text_of_named c.header_name default_config.header_name h.header_name i;
  id_header = or_text_of_named c.id_header default_config.id_header h.id_header i;
  max_requests = or_positive_of_pos c.max_requests default_config.max_requests h.max_requests i;
  max_storage_bytes =
      or_positive_of_pos c.max_storage_bytes default_config.max_storage_bytes h.max_storage_bytes i;
  max_request_payload_bytes =
      or_positive_of_pos c.max_request_payload_bytes default_config.max_request_payload_bytes
        h.max_request_payload_bytes i;
  max_database_queries =
      or_positive_of_pos c.max_database_queries default_config.max_database_queries
        h.max_database_queries i;
  max_cache_queries =
      or_positive_of_pos c.max_cache_queries default_config.max_cache_queries h.max_cache_queries i;
  max_log_entries =
      or_positive_of_pos c.max_log_entries default_config.max_log_entries h.max_log_entries i;
  max_timeline_events =
      or_positive_of_pos c.max_timeline_events default_config.max_timeline_events
        h.max_timeline_events i;
  max_string_length =
      or_positive_of_pos c.max_string_length default_config.max_string_length h.max_string_length i;
  slow_query_threshold =
      or_positive_of_pos c.slow_query_threshold default_config.slow_query_threshold
        h.slow_query_threshold i;
  cleanup_interval =
      or_positive_of_pos c.cleanup_interval default_config.cleanup_interval h.cleanup_interval i;
  request_retention_time =
      or_positive_of_pos c.request_retention_time default_config.request_retention_time
        h.request_retention_time i;
}

-- Normalising twice is normalising once, and a configuration without defaults to fill in stays.
pub normalize-normalize : (c : Config) → normalize (normalize c) ≡ normalize c
normalize-normalize c = normalize_of_normal (normalize c) (normalize-IsNormal c)
