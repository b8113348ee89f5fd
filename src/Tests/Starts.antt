-- ===== src/Tests/Starts.antt =====
-- Starts of the process.
use axhost.Common.{Text, codes, true, false, ◌≡◌, refl, [], none, ◌++◌}
use axhost.Registry.Table.{table, table_laws, Table}
use axhost.RegistryHelper.{register_surrogate, write_logging_settings, set_if_given}
use axhost.Com.Table.{objects, no_objects}
use axhost.Startup.{
  ParsedResult, settings_of, dispatch, returns, register_entries, register_if_given,
  register_function,
}
use axhost.Logging.{initialize_logging, Host, info, debug, parse_log_level, get_log_filename}
use axhost.Logging.Registered.{initialize_logging-dispatch}

-- axhost --register {C} --register-logging with a level and a directory.
abbrev pub blank : ParsedResult
blank = record {
  class_id = 0;
  process_id = [];
  embedding = false;
  automation = false;
  specs = [];
  timeout = 60000;
  ready_event = [];
  regcls = 0;
  enable_logging = false;
  log_level = [];
  log_file = [];
  log_dir = [];
  register_class_id = [];
  register_app_id = [];
  unregister_class_id = [];
  register_logging = true;
  register_log_level = codes "debug";
  register_log_dir = codes "C:\\logs";
  code = 0;
  msg = [];
}

abbrev pub registering : ParsedResult
registering = record blank { register_class_id = codes "{C}"; register_app_id = codes "{C}" }

-- Without `--register-appid` the AppID is the class.
app_id_of_class : register_function (codes "{C}") blank ≡ registering
unfolding register_function
app_id_of_class = refl

abbrev pub exe : Text
exe = codes "axhost.exe"

abbrev pub empty : Table
empty = λ p n. none

abbrev pub after : Table
after =
    (write_logging_settings table true (codes "{C}") (settings_of registering)
      (register_surrogate table true exe (codes "{C}") (codes "{C}") empty).2).2

pub dispatch_returns : dispatch table objects true exe registering empty no_objects ≡ returns after
unfolding dispatch register_entries register_if_given register_surrogate write_logging_settings
    set_if_given
dispatch_returns = refl

abbrev pub host : Host
host = record {
  application_name = codes "axhost";
  process_id = codes "42";
  temp_location = codes "C:/temp";
  to_lower = λ s. s;
  clean_path = λ s. s;
  exists = λ s. false;
  file_path = λ dir name. dir ++ codes "/" ++ name;
}

level_debug : parse_log_level host (codes "debug") info ≡ debug
unfolding parse_log_level
level_debug = refl

-- The surrogate that COM starts for it; Qt prints its class in small letters.
abbrev surrogate_start : ParsedResult
surrogate_start = record blank { class_id = 7; embedding = true }

initialize_logging-dispatch_example :
    initialize_logging host table (λ id. codes "{c}") surrogate_start after ≡ record {
      file = (get_log_filename host (codes "C:\\logs")).0;
      level = parse_log_level host (codes "debug") info;
      made = (get_log_filename host (codes "C:\\logs")).1;
    }
initialize_logging-dispatch_example =
    initialize_logging-dispatch host table table_laws objects true exe registering empty after
      no_objects (λ id. codes "{c}") surrogate_start refl refl refl refl refl dispatch_returns refl
      refl refl
