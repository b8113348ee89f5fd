-- ===== src/Logging/Registered.antt =====
-- What a surrogate logs after its class was registered with logging.
use axhost.Common.{ℕ, Text, codes, ◌++◌, ◌==◌, Bool, true, false, ◌≡◌, refl, ap, ◌∙◌, is_empty}
use axhost.Registry.{Registry, Laws, read}
use axhost.RegistryHelper.{clsid_path, app_id, read_logging_settings}
use axhost.Com.{Com}
use axhost.Startup.{ParsedResult, settings_of, dispatch, returns}
use axhost.Startup.Registering.{read_logging_settings-dispatch}
use axhost.Logging.{
  Host, info, get_log_filename, parse_log_level, surrogate_logger, initialize_logging_surrogate,
  initialize_logging,
}

surrogate_logger-settings_of :
    (host : Host) (parsed : ParsedResult)
    → parsed.register_logging ≡ true
    → is_empty parsed.register_log_level ≡ false
    → is_empty parsed.register_log_dir ≡ false
    → surrogate_logger host (settings_of parsed) ≡ record {
      file = (get_log_filename host parsed.register_log_dir).0;
      level = parse_log_level host parsed.register_log_level info;
      made = (get_log_filename host parsed.register_log_dir).1;
    }
unfolding surrogate_logger
surrogate_logger-settings_of host parsed a b c = rw a rw b rw c refl

-- Settings are read for a class by any text that is the same without regard to case.
read_logging_settings-same :
    (rg : Registry) (laws : Laws rg) (a b : Text) (s : rg.Reg)
    → laws.same_name a b ≡ true
    → read_logging_settings rg a s ≡ read_logging_settings rg b s
unfolding read_logging_settings clsid_path
read_logging_settings-same rg laws a b s h =
    let path = laws.same_name-append (codes "CLSID\\") a b h in
    let opens = laws.open-same (codes "CLSID\\" ++ a) (codes "CLSID\\" ++ b) read s path in
    let names = laws.get_string-same (codes "CLSID\\" ++ a) (codes "CLSID\\" ++ b) app_id s path in
    rw (opens, names) refl

-- A start that registers a class and an AppID with logging, a level and a directory, and that
-- returns without an exception, makes every later start of a surrogate of the class, by -Embedding
-- and a class whose text differs from the registered one in case only, log at that level, to the
-- file that is named for the process in that directory, as long as the registry stays.
pub initialize_logging-dispatch :
    (host : Host) (rg : Registry) (laws : Laws rg) (ole : Com) (admin : Bool) (exe : Text)
    (parsed : ParsedResult) (s s' : rg.Reg) (w : ole.World) (text : ℕ → Text) (later : ParsedResult)
    → is_empty parsed.register_class_id ≡ false
    → is_empty parsed.register_app_id ≡ false
    → parsed.register_logging ≡ true
    → is_empty parsed.register_log_level ≡ false
    → is_empty parsed.register_log_dir ≡ false
    → dispatch rg ole admin exe parsed s w ≡ returns s'
    → (later.class_id == 0) ≡ false
    → later.embedding ≡ true
    → laws.same_name (text later.class_id) parsed.register_class_id ≡ true
    → initialize_logging host rg text later s' ≡ record {
      file = (get_log_filename host parsed.register_log_dir).0;
      level = parse_log_level host parsed.register_log_level info;
      made = (get_log_filename host parsed.register_log_dir).1;
    }
unfolding initialize_logging initialize_logging_surrogate
initialize_logging-dispatch host rg laws ole admin exe parsed s s' w text later a b on c d h there e
      same =
    rw (there, e)
      (ap (surrogate_logger host) (
          read_logging_settings-same rg laws (text later.class_id) parsed.register_class_id s' same
          ∙ read_logging_settings-dispatch rg laws ole admin exe parsed s s' w a b c d h)
        ∙ surrogate_logger-settings_of host parsed on c d)
