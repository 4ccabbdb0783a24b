-- ===== src/Tests/Loading.antt =====
-- config/load.go on a small environment.
use go_clockwork.Prelude.{
  ◌≡◌, refl, true, false, none, some, [], ◌∷◌, if◌then◌else◌, text_eq, codes, lookup, trim_space,
  trim_left, trim_right, pos, atoi, unsigned,
}
use go_clockwork.Config.{Config, default_config, normalize}
use go_clockwork.Config.Normalize.{IsNormal}
use go_clockwork.Config.Environment.{
  Env, lookup_env, parse_bool, stands_in, override_names, override_limits, override_durations,
  apply_env_overrides,
}
use go_clockwork.Config.Load.{
  LoadOptions, Libraries, loaded, load_failed, read_config, Reading, bind_clockwork_env,
  resolve_files, env_prefix_of, setup_of, load_dot_env, load_env_values, load_decoded, load_read,
  load_after, load,
}
use go_clockwork.Config.Load.Overrides.{Setting, load-IsNormal, setting-load}

program : Unit {0}
unfolding text_eq lookup trim_space trim_left trim_right atoi unsigned normalize default_config
    lookup_env parse_bool stands_in override_names override_limits override_durations
    apply_env_overrides bind_clockwork_env resolve_files env_prefix_of setup_of load_dot_env
    load_env_values load_decoded load_read load_after load
program = tt

-- The file sets the number of requests and the header; gotenv adds one variable; no duration is read.
abbrev libraries : Reading → Libraries (Unit {0})
libraries reading = record {
  exists = λ file. true;
  load_env = λ files env. (
    none,
    λ name. if text_eq name (codes "APP_MAX_REQUESTS") then some (codes " 12 ") else env name,
  );
  parse_duration = λ text. none;
  open_viper = λ setup env. tt;
  read_in_config = λ v. (reading, v);
  is_set = λ key v. true;
  unmarshal_key = λ key c v. (none, record c { max_requests = pos 3; header_name = codes "X" });
  unmarshal = λ c v. (none, c);
}

abbrev options : LoadOptions
options = record {
  config_path = [];
  config_name = [];
  config_type = [];
  env_prefix = codes " APP";
  env_files = codes ".env" ∷ [];
}

abbrev environment : Env
environment name =
    lookup name ((codes "APP_ENABLED", codes "F") ∷ (codes "APP_MAX_LOG_ENTRIES", codes "x") ∷ [])

abbrev result : Config
result = record default_config { enabled = false; max_requests = pos 12; header_name = codes "X" }

loads : load (libraries Reading.read) options environment ≡ loaded result
unfolding program
loads = refl

broken_file :
    load (libraries (Reading.broken (codes "bad"))) options environment
    ≡ load_failed (read_config (codes "bad"))
unfolding program
broken_file = refl

load-IsNormal_example : IsNormal result
load-IsNormal_example = load-IsNormal (libraries Reading.read) options environment result loads

setting-load_example : result.max_requests ≡ pos 12
unfolding program
setting-load_example =
    setting-load (libraries Reading.read) options environment result Setting.requests (codes "12")
      11 loads refl refl
