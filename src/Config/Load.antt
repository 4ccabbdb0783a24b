-- ===== src/Config/Load.antt =====
-- config/load.go: the configuration from a file and the environment. The file system, viper, gotenv and
-- the parser of durations are parameters.
pub mod Overrides
use go_clockwork.Prelude.{
  ℕ, Bool, true, false, not, ◌||◌, ◌&&◌, Option, none, some, List, [], ◌∷◌, ◌++◌, map, keep,
  if◌then◌else◌, Text, codes, text_eq, is_empty, trim_space, ℤ, atoi,
}
use go_clockwork.Config.Environment.{Env, apply_env_overrides, env_key}
use go_clockwork.Config.{Config, default_config, normalize, or_text}

-- `LoadOptions`
pub record LoadOptions : Type 0 where
  pub config_path : Text
  pub config_name : Text
  pub config_type : Text
  pub env_prefix : Text
  pub env_files : List Text

-- What is said to a new viper before the file is read.
pub record Setup : Type 0 where
  pub config_name : Text
  pub config_type : Text
  pub config_path : Text
  pub env_prefix : Text
  pub bindings : List (Text × Text)

-- What `ReadInConfig` says.
pub data Reading : Type 0 where
  read not_found : Reading
  broken : Text → Reading

-- The libraries: os.Stat finds a file, gotenv.Load gives an error or none and the environment after it,
-- and time.ParseDuration; viper with its state.
pub record Libraries (V : Type 0) : Type 0 where
  pub exists : Text → Bool
  pub load_env : List Text → Env → Option Text × Env
  pub parse_duration : Text → Option ℤ
  pub open_viper : Setup → Env → V
  pub read_in_config : V → Reading × V
  pub is_set : Text → V → Bool
  pub unmarshal_key : Text → Config → V → Option Text × Config
  pub unmarshal : Config → V → Option Text × Config

-- The error of `Load`, with the text of the error that it wraps.
pub data LoadError : Type 0 where
  load_env_files read_config unmarshal_section unmarshal_root : Text → LoadError

pub data Loaded : Type 0 where
  loaded : Config → Loaded
  load_failed : LoadError → Loaded

-- The names in `bindClockworkEnv`: of a setting, and of its variable behind the prefix.
abbrev pub bound_keys : List (Text × Text)
bound_keys =
    (codes "enabled", codes "ENABLED")
    ∷ (codes "header_name", codes "HEADER_NAME")
    ∷ (codes "id_header_name", codes "ID_HEADER_NAME")
    ∷ (codes "max_requests", codes "MAX_REQUESTS")
    ∷ (codes "max_storage_bytes", codes "MAX_STORAGE_BYTES")
    ∷ (codes "max_request_payload_bytes", codes "MAX_REQUEST_PAYLOAD_BYTES")
    ∷ (codes "max_database_queries", codes "MAX_DATABASE_QUERIES")
    ∷ (codes "max_cache_queries", codes "MAX_CACHE_QUERIES")
    ∷ (codes "max_log_entries", codes "MAX_LOG_ENTRIES")
    ∷ (codes "max_timeline_events", codes "MAX_TIMELINE_EVENTS")
    ∷ (codes "max_string_length", codes "MAX_STRING_LENGTH")
    ∷ (codes "slow_query_threshold", codes "SLOW_QUERY_THRESHOLD")
    ∷ (codes "cleanup_interval", codes "CLEANUP_INTERVAL")
    ∷ (codes "request_retention_time", codes "REQUEST_RETENTION_TIME")
    ∷ []

-- The bindings that `bindClockworkEnv` makes for a viper that is not nil, in one of the orders in which a
-- map can be ranged over.
unfoldable pub bind_clockwork_env : Text → List (Text × Text) → List (Text × Text)
bind_clockwork_env prefix [] = []
bind_clockwork_env prefix ((key, suffix) ∷ keys) =
    (key, env_key prefix suffix)
    ∷ (codes "clockwork." ++ key, env_key prefix suffix)
    ∷ bind_clockwork_env prefix keys

-- The loop of `loadDotEnv`: files without a name, and those that do not exist, are passed over.
unfoldable pub resolve_files : (Text → Bool) → List Text → List Text
unfolding trim_space
resolve_files exists [] = []
resolve_files exists (file ∷ files) =
    let trimmed = trim_space file in
    let rest = resolve_files exists files in
    if is_empty trimmed then rest else if exists trimmed then trimmed ∷ rest else rest

-- The prefix of the variables that `Load` uses.
unfoldable pub env_prefix_of : LoadOptions → Text
unfolding trim_space
env_prefix_of opts = or_text (trim_space opts.env_prefix) (codes "CLOCKWORK")

-- What `Load` says to its viper.
unfoldable pub setup_of : LoadOptions → Setup
unfolding trim_space env_prefix_of bind_clockwork_env
setup_of opts = record {
  config_name = or_text (trim_space opts.config_name) (codes "clockwork");
  config_type = or_text (trim_space opts.config_type) (codes "yml");
  config_path = or_text (trim_space opts.config_path) (codes ".");
  env_prefix = env_prefix_of opts;
  bindings = bind_clockwork_env (env_prefix_of opts) bound_keys;
}

module _ {V : Type 0} (lib : Libraries V) where
  -- `loadDotEnv`
  unfoldable pub load_dot_env : List Text → Env → Option Text × Env
  unfolding resolve_files
  load_dot_env files env =
      let resolved = resolve_files lib.exists files in
      if is_empty resolved then (none, env) else lib.load_env resolved env

  -- `Load` from its last steps on: the overrides, and the normal form.
  unfoldable pub load_env_values : LoadOptions → Env → Config → Config
  unfolding apply_env_overrides env_prefix_of normalize
  load_env_values opts env c =
      normalize (apply_env_overrides lib.parse_duration env (env_prefix_of opts) c)

  -- `Load` after an unmarshalling.
  unfoldable pub load_decoded :
      LoadOptions → Env → (Text → LoadError) → Option Text × Config → Loaded
  unfolding load_env_values
  load_decoded opts env failure (none, c) = loaded (load_env_values opts env c)
  load_decoded opts env failure (some error, c) = load_failed (failure error)

  -- `Load` after `ReadInConfig`.
  unfoldable pub load_read : LoadOptions → Env → Reading → V → Loaded
  unfolding load_decoded default_config
  load_read opts env (Reading.broken error) v = load_failed (read_config error)
  load_read opts env _ v =
      if lib.is_set (codes "clockwork") v
      then load_decoded opts env unmarshal_section
          (lib.unmarshal_key (codes "clockwork") default_config v)
      else load_decoded opts env unmarshal_root (lib.unmarshal default_config v)

  unfoldable pub load_after : LoadOptions → Option Text → Env → Loaded
  unfolding load_read setup_of
  load_after opts (some error) env = load_failed (load_env_files error)
  load_after opts none env =
      let r = lib.read_in_config (lib.open_viper (setup_of opts) env) in load_read opts env r.0 r.1

  -- `Load`
  unfoldable pub load : LoadOptions → Env → Loaded
  unfolding load_dot_env load_after
  load opts env = let r = load_dot_env opts.env_files env in load_after opts r.0 r.1
