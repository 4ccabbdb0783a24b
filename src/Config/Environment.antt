-- ===== src/Config/Environment.antt =====
-- config/load.go: the variables of the environment that override the configuration. The parser of
-- durations is a parameter.
use go_clockwork.Prelude.{
  Bool, true, false, ◌||◌, Option, none, some, List, [], ◌∷◌, ◌++◌, if◌then◌else◌, Text, codes,
  text_eq, is_empty, trim_space, ℤ, atoi,
}
use go_clockwork.Config.{Config}

-- os.LookupEnv, as a function of the name.
abbrev pub Env : Type 0
Env = Text → Option Text

-- `lookupEnv`
unfoldable pub lookup_env : Env → Text → Option Text
unfolding trim_space
lookup_env env key = elim (env key) [
  | none ↦ none
  | some value ↦ let trimmed = trim_space value in if is_empty trimmed then none else some trimmed
]

-- The texts that strconv.ParseBool reads as true, and as false.
abbrev truths : List Text
truths = codes "1" ∷ codes "t" ∷ codes "T" ∷ codes "TRUE" ∷ codes "true" ∷ codes "True" ∷ []

abbrev falsehoods : List Text
falsehoods = codes "0" ∷ codes "f" ∷ codes "F" ∷ codes "FALSE" ∷ codes "false" ∷ codes "False" ∷ []

unfoldable pub stands_in : List Text → Text → Bool
unfolding text_eq
stands_in [] value = false
stands_in (t ∷ texts) value = text_eq t value || stands_in texts value

unfoldable pub parse_bool : Text → Option Bool
unfolding stands_in
parse_bool value =
    if stands_in truths value
    then some true
    else if stands_in falsehoods value
    then some false
    else none

-- A field after its override: a variable that is not set, or cannot be parsed, changes nothing.
abbrev pub overridden : {A : Type 0} → (Text → Option A) → Option Text → A → A
overridden parse none before = before
overridden parse (some value) before = elim (parse value) [ none ↦ before | some a ↦ a ]

-- `key`
abbrev pub env_key : Text → Text → Text
env_key prefix name = prefix ++ (codes "_" ++ name)

-- The `if` statements of `applyEnvOverrides`, in three groups.
module _ (value : Text → Option Text) where
  unfoldable pub override_names : Config → Config
  unfolding parse_bool
  override_names c =
      let enabled = record c {
        enabled = overridden parse_bool (value (codes "ENABLED")) c.enabled;
      } in
      let named = record enabled {
        header_name = overridden (λ v. some v) (value (codes "HEADER_NAME")) enabled.header_name;
      } in
      record named {
        id_header = overridden (λ v. some v) (value (codes "ID_HEADER_NAME")) named.id_header;
      }

  -- strconv.ParseInt of a decimal number of 64 bits reads what strconv.Atoi reads.
  unfoldable pub override_limits : Config → Config
  unfolding atoi
  override_limits c =
      let c = record c {
        max_requests = overridden atoi (value (codes "MAX_REQUESTS")) c.max_requests;
      } in
      let c = record c {
        max_storage_bytes = overridden atoi (value (codes "MAX_STORAGE_BYTES")) c.max_storage_bytes;
      } in
      let c = record c {
        max_request_payload_bytes =
            overridden atoi (value (codes "MAX_REQUEST_PAYLOAD_BYTES")) c.max_request_payload_bytes;
      } in
      let c = record c {
        max_database_queries =
            overridden atoi (value (codes "MAX_DATABASE_QUERIES")) c.max_database_queries;
      } in
      let c = record c {
        max_cache_queries = overridden atoi (value (codes "MAX_CACHE_QUERIES")) c.max_cache_queries;
      } in
      let c = record c {
        max_log_entries = overridden atoi (value (codes "MAX_LOG_ENTRIES")) c.max_log_entries;
      } in
      let c = record c {
        max_timeline_events =
            overridden atoi (value (codes "MAX_TIMELINE_EVENTS")) c.max_timeline_events;
      } in
      record c {
        max_string_length = overridden atoi (value (codes "MAX_STRING_LENGTH")) c.max_string_length;
      }

  unfoldable pub override_durations : (Text → Option ℤ) → Config → Config
  override_durations parse c =
      let c = record c {
        slow_query_threshold =
            overridden parse (value (codes "SLOW_QUERY_THRESHOLD")) c.slow_query_threshold;
      } in
      let c = record c {
        cleanup_interval = overridden parse (value (codes "CLEANUP_INTERVAL")) c.cleanup_interval;
      } in
      record c {
        request_retention_time =
            overridden parse (value (codes "REQUEST_RETENTION_TIME")) c.request_retention_time;
      }

-- `applyEnvOverrides`, of a configuration that is not nil.
unfoldable pub apply_env_overrides : (Text → Option ℤ) → Env → Text → Config → Config
unfolding override_names override_limits override_durations lookup_env trim_space
apply_env_overrides parse_duration env prefix c =
    let value = λ (name : Text). lookup_env env (env_key prefix name) in
    if is_empty (trim_space prefix)
    then c
    else override_durations value parse_duration (override_limits value (override_names value c))
