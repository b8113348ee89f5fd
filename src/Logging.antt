-- ===== src/Logging.antt =====
-- Where and how much a process logs: src/logging.cc.
pub mod Registered
use axhost.Common.{
  ◌==◌, ℕ, Text, codes, Bool, not, ◌&&◌, ◌||◌, if◌then◌else◌, List, [], ◌∷◌, ◌++◌, is_empty,
  text_eq,
}
use axhost.Registry.{Registry}
use axhost.RegistryHelper.{LoggingSettings, read_logging_settings}
use axhost.Startup.{ParsedResult}

-- spdlog::level::level_enum.
pub data Level : Type 0 where
  trace debug info warn err critical : Level

-- QtMsgType.
pub data MessageType : Type 0 where
  debug_msg info_msg warning_msg critical_msg fatal_msg : MessageType

-- What the process is given: its name and number, the temporary directory, and Qt's texts and paths.
pub record Host : Type 0 where
  pub application_name : Text
  pub process_id : Text
  pub temp_location : Text
  pub to_lower : Text → Text
  pub clean_path : Text → Text
  pub exists : Text → Bool
  -- QDir::filePath of a directory and a name.
  pub file_path : Text → Text → Text

-- What the logger is made with: a file, or standard error for the empty text, the level, and the
-- directories that are made.
pub record Logger : Type 0 where
  pub file : Text
  pub level : Level
  pub made : List Text

unfoldable pub level_from_type : MessageType → Level
level_from_type debug_msg = debug
level_from_type info_msg = info
level_from_type warning_msg = warn
level_from_type critical_msg = err
level_from_type fatal_msg = critical

module _ (host : Host) where
  open host use {
    application_name, process_id, temp_location, to_lower, clean_path, exists, file_path,
  }

  unfoldable pub get_logger_name : Text
  get_logger_name = if is_empty application_name then codes "axhost" else application_name

  unfoldable pub get_log_directory : Text
  get_log_directory = clean_path (temp_location ++ codes "/" ++ get_logger_name)

  unfoldable pub log_dir : Text → Text
  log_dir directory = if is_empty directory then get_log_directory else directory

  -- GetLogFilename: the path, and the directory that is made.
  unfoldable pub get_log_filename : Text → Text × List Text
  get_log_filename directory =
      let dir = log_dir directory in
      (
        file_path dir (get_logger_name ++ codes "-" ++ process_id ++ codes ".log"),
        if exists dir then [] else dir ∷ [],
      )

  unfoldable pub parse_log_level : Text → Level → Level
  parse_log_level level default_level =
      let lower = to_lower level in
      if text_eq lower (codes "trace")
      then trace
      else if text_eq lower (codes "debug")
      then debug
      else if text_eq lower (codes "info")
      then info
      else if text_eq lower (codes "warn") || text_eq lower (codes "warning")
      then warn
      else if text_eq lower (codes "error") || text_eq lower (codes "err")
      then err
      else default_level

  -- The file that InitializeLoggingStandalone chooses.
  unfoldable pub standalone_file : ParsedResult → Text × List Text
  standalone_file parsed =
      let enabled =
        parsed.enable_logging || not (is_empty parsed.log_file) || not (is_empty parsed.log_dir) in
      if not (is_empty parsed.log_file)
      then (parsed.log_file, [])
      else if not (is_empty parsed.log_dir)
      then get_log_filename parsed.log_dir
      else if enabled
      then get_log_filename []
      else ([], [])

  unfoldable pub initialize_logging_standalone : ParsedResult → Logger
  initialize_logging_standalone parsed =
      let (file, made) = standalone_file parsed in
      record {
        file = file;
        level = if is_empty parsed.log_level then info else parse_log_level parsed.log_level info;
        made = made;
      }

  unfoldable pub surrogate_logger : LoggingSettings → Logger
  surrogate_logger settings =
      if not settings.enabled
      then record { file = []; level = info; made = [] }
      else let (file, made) =
          if is_empty settings.directory
          then get_log_filename []
          else get_log_filename settings.directory in
        record {
          file = file;
          level = if is_empty settings.level then info else parse_log_level settings.level info;
          made = made;
        }

  module _ (rg : Registry) where
    unfoldable pub initialize_logging_surrogate : Text → rg.Reg → Logger
    initialize_logging_surrogate clsid s = surrogate_logger (read_logging_settings rg clsid s)

    -- The choice that main makes after the first parse; `text`: QUuid::toString.
    unfoldable pub initialize_logging : (ℕ → Text) → ParsedResult → rg.Reg → Logger
    initialize_logging text parsed s =
        if not (parsed.class_id == 0) && parsed.embedding
        then initialize_logging_surrogate (text parsed.class_id) s
        else initialize_logging_standalone parsed
