-- ===== src/Startup.antt =====
-- main of src/main.cc, and ParsedResult with the callbacks of src/command_line_parser.cc: what a
-- start of the process does once its command line is parsed.
pub mod Registering
use axhost.Common.{
  ℕ, Text, Bool, true, false, not, ◌&&◌, ◌==◌, if◌then◌else◌, List, [], ◌∷◌, Option, none, some,
  is_empty,
}
use axhost.Common.Hresult.{failed, s_ok}
use axhost.Common.Flags.{regcls_singleuse, regcls_multipleuse}
use axhost.Registry.{Registry}
use axhost.RegistryHelper.{
  Notice, LoggingSettings, register_surrogate, unregister_surrogate, write_logging_settings,
}
use axhost.ClassSpec.{ClassSpec, Uuid}
use axhost.Com.{Com}
use axhost.Runtime.{Runtime, run_as_surrogate, run_as_standalone}

-- ParsedResult; an `int` that is read is never negative here.
pub record ParsedResult : Type 0 where
  pub class_id : Uuid
  pub process_id : Text
  pub embedding : Bool
  pub automation : Bool
  pub specs : List ClassSpec
  pub timeout : ℕ
  pub ready_event : Text
  pub regcls : ℕ
  pub enable_logging : Bool
  pub log_level : Text
  pub log_file : Text
  pub log_dir : Text
  pub register_class_id : Text
  pub register_app_id : Text
  pub unregister_class_id : Text
  pub register_logging : Bool
  pub register_log_level : Text
  pub register_log_dir : Text
  pub code : ℕ
  pub msg : Text

-- The callback of `--register`.
unfoldable pub register_function : Text → ParsedResult → ParsedResult
register_function value result = record result {
  register_class_id = value;
  register_app_id = if is_empty result.register_app_id then value else result.register_app_id;
}

-- The callbacks of `--single-use` and `--multiple-use`.
pub single_use_callback : ParsedResult → ParsedResult
single_use_callback result = record result { regcls = regcls_singleuse }

pub multiple_use_callback : ParsedResult → ParsedResult
multiple_use_callback result = record result { regcls = regcls_multipleuse }

abbrev pub settings_of : ParsedResult → LoggingSettings
settings_of parsed = record {
  enabled = parsed.register_logging;
  level = parsed.register_log_level;
  directory = parsed.register_log_dir;
  file = [];
}

module _ (rg : Registry) (ole : Com) where
  open rg use {Reg}
  open ole use {World}

  -- How a start ends: the process returns 0, an exception with an HRESULT leaves main, or the
  -- event loop starts with a runtime; none, if its constructor throws.
  pub data Outcome : Type 0 where
    returns : Reg → Outcome
    throws : ℕ → Reg → Outcome
    serves : Option (Runtime ole) → Outcome

  unfoldable pub register_if_given : Bool → Text → ParsedResult → Reg → ℕ × Option Notice × Reg
  register_if_given admin exe parsed s =
      if is_empty parsed.register_class_id
      then (s_ok, none, s)
      else register_surrogate rg admin exe parsed.register_class_id parsed.register_app_id s

  -- The branch of main for an AppID to register.
  unfoldable pub register_entries : Bool → Text → ParsedResult → Reg → Outcome
  register_entries admin exe parsed s =
      let (hr, n, s1) = register_if_given admin exe parsed s in
      if failed hr
      then throws hr s1
      else let (hr1, n1, s2) =
          write_logging_settings rg admin parsed.register_app_id (settings_of parsed) s1 in
        if failed hr1 then throws hr1 s2 else returns s2

  -- The branch for a class to unregister.
  unfoldable pub unregister_entries : Bool → Text → Reg → Outcome
  unregister_entries admin clsid s =
      let (hr, n, s1) = unregister_surrogate rg admin clsid s in
      if failed hr then throws hr s1 else returns s1

  -- main after the second parse; `admin`: IsRunningAsAdmin, `exe`: the program's path.
  unfoldable pub dispatch : Bool → Text → ParsedResult → Reg → World → Outcome
  dispatch admin exe parsed s w =
      if not (is_empty parsed.register_app_id)
      then register_entries admin exe parsed s
      else if not (is_empty parsed.unregister_class_id)
      then unregister_entries admin parsed.unregister_class_id s
      else if not (parsed.class_id == 0) && parsed.embedding
      then serves (run_as_surrogate ole parsed.class_id w)
      else if not (is_empty parsed.specs)
      then serves (some (run_as_standalone ole parsed.specs parsed.regcls w))
      else returns s
