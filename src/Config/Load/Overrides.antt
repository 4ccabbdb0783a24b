-- ===== src/Config/Load/Overrides.antt =====
-- config/load.go: the configuration that Load gives is normal, and a variable of the environment comes
-- before the file.
use go_clockwork.Prelude.{
  ℕ, suc, ◌≡◌, refl, ap, subst, ◌∙◌, Bool, false, Option, none, some, [], ◌∷◌, arith, if_false,
  both_branches, Text, codes, is_empty, is_space, trim_left, trim_right, trim_space, ℤ, pos, atoi,
}
use go_clockwork.Config.{Config, normalize, default_config, or_positive, or_text}
use go_clockwork.Config.Normalize.{IsNormal, normalize-IsNormal}
use go_clockwork.Config.Environment.{
  Env, lookup_env, overridden, env_key, override_names, override_limits, override_durations,
  apply_env_overrides,
}
use go_clockwork.Config.Load.{
  LoadOptions, Libraries, Loaded, LoadError, loaded, load_failed, Reading, env_prefix_of,
  load_dot_env, load_env_values, load_decoded, load_read, load_after, load,
}

-- The settings that are numbers.
pub data Setting : Type 0 where
  requests storage_bytes request_payload_bytes database_queries cache_queries log_entries
        timeline_events string_length :
      Setting
  slow_query cleanup_every retention_time : Setting

abbrev pub setting : Setting → Config → ℤ
setting Setting.requests c = c.max_requests
setting Setting.storage_bytes c = c.max_storage_bytes
setting Setting.request_payload_bytes c = c.max_request_payload_bytes
setting Setting.database_queries c = c.max_database_queries
setting Setting.cache_queries c = c.max_cache_queries
setting Setting.log_entries c = c.max_log_entries
setting Setting.timeline_events c = c.max_timeline_events
setting Setting.string_length c = c.max_string_length
setting Setting.slow_query c = c.slow_query_threshold
setting Setting.cleanup_every c = c.cleanup_interval
setting Setting.retention_time c = c.request_retention_time

-- The variable of a setting behind the prefix, and how its text is read.
abbrev pub variable : Setting → Text
variable Setting.requests = codes "MAX_REQUESTS"
variable Setting.storage_bytes = codes "MAX_STORAGE_BYTES"
variable Setting.request_payload_bytes = codes "MAX_REQUEST_PAYLOAD_BYTES"
variable Setting.database_queries = codes "MAX_DATABASE_QUERIES"
variable Setting.cache_queries = codes "MAX_CACHE_QUERIES"
variable Setting.log_entries = codes "MAX_LOG_ENTRIES"
variable Setting.timeline_events = codes "MAX_TIMELINE_EVENTS"
variable Setting.string_length = codes "MAX_STRING_LENGTH"
variable Setting.slow_query = codes "SLOW_QUERY_THRESHOLD"
variable Setting.cleanup_every = codes "CLEANUP_INTERVAL"
variable Setting.retention_time = codes "REQUEST_RETENTION_TIME"

abbrev pub reader : (Text → Option ℤ) → Setting → Text → Option ℤ
reader parse_duration Setting.slow_query = parse_duration
reader parse_duration Setting.cleanup_every = parse_duration
reader parse_duration Setting.retention_time = parse_duration
reader parse_duration _ = atoi

setting-overrides :
    (value : Text → Option Text) (parse : Text → Option ℤ) (s : Setting) (c : Config)
    → setting s (override_durations value parse (override_limits value (override_names value c)))
      ≡ overridden (reader parse s) (value (variable s)) (setting s c)
unfolding override_durations override_limits override_names
setting-overrides value parse Setting.requests c = refl
setting-overrides value parse Setting.storage_bytes c = refl
setting-overrides value parse Setting.request_payload_bytes c = refl
setting-overrides value parse Setting.database_queries c = refl
setting-overrides value parse Setting.cache_queries c = refl
setting-overrides value parse Setting.log_entries c = refl
setting-overrides value parse Setting.timeline_events c = refl
setting-overrides value parse Setting.string_length c = refl
setting-overrides value parse Setting.slow_query c = refl
setting-overrides value parse Setting.cleanup_every c = refl
setting-overrides value parse Setting.retention_time c = refl

setting-normalize :
    (s : Setting) (c : Config)
    → setting s (normalize c) ≡ or_positive (setting s c) (setting s default_config)
unfolding normalize
setting-normalize Setting.requests c = refl
setting-normalize Setting.storage_bytes c = refl
setting-normalize Setting.request_payload_bytes c = refl
setting-normalize Setting.database_queries c = refl
setting-normalize Setting.cache_queries c = refl
setting-normalize Setting.log_entries c = refl
setting-normalize Setting.timeline_events c = refl
setting-normalize Setting.string_length c = refl
setting-normalize Setting.slow_query c = refl
setting-normalize Setting.cleanup_every c = refl
setting-normalize Setting.retention_time c = refl

-- To trim twice is to trim once.
trim_right-trim_right : (p : ℕ → Bool) (s : Text) → trim_right p (trim_right p s) ≡ trim_right p s
unfolding trim_right
trim_right-trim_right p [] = refl
trim_right-trim_right p (c ∷ s) = ground (arith, trim_right-trim_right p s)

trim_left-trim_left :
    (p : ℕ → Bool) (s : Text)
    → trim_left p (trim_right p (trim_left p s)) ≡ trim_right p (trim_left p s)
unfolding trim_left trim_right
trim_left-trim_left p [] = refl
trim_left-trim_left p (c ∷ s) = ground (arith, trim_left-trim_left p s)

trim_space-trim_space : (s : Text) → trim_space (trim_space s) ≡ trim_space s
unfolding trim_space
trim_space-trim_space s =
    ap (trim_right is_space) (trim_left-trim_left is_space s)
    ∙ trim_right-trim_right is_space (trim_left is_space s)

or_text_trimmed :
    (t d : Text)
    → trim_space t ≡ t
    → is_empty (trim_space d) ≡ false
    → is_empty (trim_space (or_text t d)) ≡ false
or_text_trimmed [] d h filled = filled
or_text_trimmed (c ∷ t) d h filled = rw h refl

env_prefix_filled : (opts : LoadOptions) → is_empty (trim_space (env_prefix_of opts)) ≡ false
unfolding env_prefix_of trim_space trim_left trim_right
env_prefix_filled opts =
    or_text_trimmed (trim_space opts.env_prefix) (codes "CLOCKWORK")
      (trim_space-trim_space opts.env_prefix) refl

overridden_set :
    (parse : Text → Option ℤ) (given : Option Text) (text : Text) (before a : ℤ)
    → given ≡ some text
    → parse text ≡ some a
    → overridden parse given before ≡ a
overridden_set parse given text before a h parsed =
    ap (λ g. overridden parse g before) h
    ∙ ap (λ (r : Option ℤ). elim r as (λ x. ℤ) [ none ↦ before | some b ↦ b ]) parsed

or_positive_pos : (n : ℕ) (d : ℤ) → or_positive (pos (suc n)) d ≡ pos (suc n)
or_positive_pos n d = ground arith

setting-apply_env_overrides :
    (parse : Text → Option ℤ) (env : Env) (prefix : Text) (s : Setting) (c : Config)
    → is_empty (trim_space prefix) ≡ false
    → setting s (apply_env_overrides parse env prefix c)
      ≡ overridden (reader parse s) (lookup_env env (env_key prefix (variable s))) (setting s c)
unfolding apply_env_overrides
setting-apply_env_overrides parse env prefix s c filled =
    let value = λ (name : Text). lookup_env env (env_key prefix name) in
    let changed = override_durations value parse (override_limits value (override_names value c)) in
    ap (setting s) (if_false (is_empty (trim_space prefix)) c changed filled)
    ∙ setting-overrides value parse s c

-- What holds of a configuration, if one was loaded.
abbrev Holds : (Config → Type 0) → Loaded → Type 0
Holds P (loaded c) = P c
Holds P (load_failed error) = Unit {0}

module _ {V : Type 0} (lib : Libraries V) (opts : LoadOptions) where
  load_decoded-Holds :
      (P : Config → Type 0) (env : Env) (failure : Text → LoadError) (r : Option Text × Config)
      → ((c : Config) → P (load_env_values lib opts env c))
      → Holds P (load_decoded lib opts env failure r)
  unfolding load_decoded
  load_decoded-Holds P env failure (none, c) h = h c
  load_decoded-Holds P env failure (some error, c) h = tt

  load_read-Holds :
      (P : Config → Type 0) (env : Env) (reading : Reading) (v : V)
      → ((c : Config) → P (load_env_values lib opts env c))
      → Holds P (load_read lib opts env reading v)
  unfolding load_read
  load_read-Holds P env (Reading.broken error) v h = tt
  load_read-Holds P env Reading.read v h =
      both_branches (Holds P) (lib.is_set (codes "clockwork") v) (load_decoded-Holds P env _ _ h)
        (load_decoded-Holds P env _ _ h)
  load_read-Holds P env Reading.not_found v h =
      both_branches (Holds P) (lib.is_set (codes "clockwork") v) (load_decoded-Holds P env _ _ h)
        (load_decoded-Holds P env _ _ h)

  load_after-Holds :
      (P : Config → Type 0) (error : Option Text) (env : Env)
      → ((c : Config) → P (load_env_values lib opts env c))
      → Holds P (load_after lib opts error env)
  unfolding load_after
  load_after-Holds P (some error) env h = tt
  load_after-Holds P none env h = load_read-Holds P env _ _ h

  setting-load_env_values :
      (env : Env) (s : Setting) (c : Config) (text : Text) (n : ℕ)
      → lookup_env env (env_key (env_prefix_of opts) (variable s)) ≡ some text
      → reader lib.parse_duration s text ≡ some (pos (suc n))
      → setting s (load_env_values lib opts env c) ≡ pos (suc n)
  unfolding load_env_values
  setting-load_env_values env s c text n given parsed =
      let prefix = env_prefix_of opts in
      setting-normalize s (apply_env_overrides lib.parse_duration env prefix c)
      ∙ ap (λ x. or_positive x (setting s default_config))
          (setting-apply_env_overrides lib.parse_duration env prefix s c (env_prefix_filled opts)
            ∙ overridden_set (reader lib.parse_duration s)
                (lookup_env env (env_key prefix (variable s))) text (setting s c) (pos (suc n))
                given parsed)
      ∙ or_positive_pos n (setting s default_config)

  load-Holds :
      (P : Config → Type 0) (env : Env) (cfg : Config)
      → load lib opts env ≡ loaded cfg
      → (let after = (load_dot_env lib opts.env_files env).1 in
          (c : Config) → P (load_env_values lib opts after c))
      → P cfg
  unfolding load
  load-Holds P env cfg h each = subst (Holds P) h (load_after-Holds P _ _ each)

  -- Whatever the files and the environment hold, a configuration that is loaded is normal.
  pub load-IsNormal : (env : Env) (cfg : Config) → load lib opts env ≡ loaded cfg → IsNormal cfg
  unfolding load_env_values
  load-IsNormal env cfg h = load-Holds IsNormal env cfg h (λ c. normalize-IsNormal (
      apply_env_overrides lib.parse_duration (load_dot_env lib opts.env_files env).1
        (env_prefix_of opts) c))

  -- If a configuration is loaded, each of its numbers whose variable is set to a text that reads as a
  -- positive number is that number: the environment, with the `.env` files read into it, comes before the
  -- file and the defaults.
  pub setting-load :
      (env : Env) (cfg : Config) (s : Setting) (text : Text) (n : ℕ)
      → load lib opts env ≡ loaded cfg
      → let after = (load_dot_env lib opts.env_files env).1 in
        lookup_env after (env_key (env_prefix_of opts) (variable s)) ≡ some text
        → reader lib.parse_duration s text ≡ some (pos (suc n))
        → setting s cfg ≡ pos (suc n)
  setting-load env cfg s text n h given parsed =
      load-Holds (λ c. setting s c ≡ pos (suc n)) env cfg h
        (λ c. setting-load_env_values _ s c text n given parsed)
