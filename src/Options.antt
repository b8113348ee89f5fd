-- ===== src/Options.antt =====
-- The table of options that CommandLineParser::CommandLineParser, src/command_line_parser.cc, gives
-- CLI11.
pub mod Names
pub mod Aliases
use axhost.Common.{ℕ, Text, codes, Bool, true, false, List, [], ◌∷◌, ◌++◌}

-- The members of ParsedResult that options are bound to.
pub data Field : Type 0 where
  class_id process_id specs timeout ready_event log_level log_file log_dir : Field
  register_app_id unregister_class_id register_log_level register_log_dir : Field

pub data Flag : Type 0 where
  embedding automation enable_logging register_logging : Flag

-- add_option with a member, add_flag with a member, and the callbacks.
pub data Action : Type 0 where
  stores : Field → Action
  sets : Flag → Action
  calls_register calls_single_use calls_multiple_use : Action
  calls_for_help calls_for_version : Action

-- type_name: none, a text, or the description of AsDuration.
pub data TypeName : Type 0 where
  untyped : TypeName
  named : Text → TypeName
  duration_type : TypeName

pub data Transform : Type 0 where
  unchanged as_class_id as_duration : Transform

-- One option. `shown` is false for an option of the group "", which the help leaves out; `many`:
-- `expected(-1)`.
pub record Entry : Type 0 where
  pub names : List Text
  pub action : Action
  pub description : Text
  pub type_name : TypeName
  pub transform : Transform
  pub many : Bool
  pub shown : Bool

abbrev entry : List Text → Action → Text → TypeName → Transform → Bool → Entry
entry names action description type_name transform many = record {
  names = names;
  action = action;
  description = description;
  type_name = type_name;
  transform = transform;
  many = many;
  shown = true;
}

abbrev hidden : List Text → Action → TypeName → Transform → Bool → Entry
hidden names action type_name transform many = record {
  names = names;
  action = action;
  description = [];
  type_name = type_name;
  transform = transform;
  many = many;
  shown = false;
}

-- The options of the program itself.
abbrev pub app_options : List Entry
app_options =
    entry (codes "--help" ∷ []) calls_for_help (codes "Print this help message and exit.") untyped
      unchanged false
    ∷ entry (codes "--version" ∷ []) calls_for_version (codes "Print app version and exit.") untyped
        unchanged false
    ∷ hidden (codes "-h" ∷ codes "-?" ∷ codes "-Help" ∷ []) calls_for_help untyped unchanged false
    ∷ hidden (codes "-V" ∷ codes "-Version" ∷ []) calls_for_version untyped unchanged false
    ∷ []

-- The group "Surrogate".
abbrev pub surrogate_options : List Entry
surrogate_options =
    entry (codes "CLSID" ∷ []) (stores class_id)
      (codes
        "CLSID of the COM class to be activated by the surrogate. Supplied automatically by the COM runtime.")
      (named []) as_class_id false
    ∷ entry (codes "-Embedding" ∷ []) (sets embedding)
        (codes "Indicates that the process was launched by SCM as a COM server") untyped unchanged
        false
    ∷ entry (codes "-Automation" ∷ []) (sets automation)
        (codes
          "Indicates activation via OLE Automation. (reserved for compatibility; normally unused)")
        untyped unchanged false
    ∷ entry (codes "-Processid" ∷ []) (stores process_id)
        (codes
          "Process identifier supplied by SCM during surrogate activation. (reserved for compatibility; normally unused)")
        (named (codes "<id>")) unchanged false
    ∷ []

-- The group "Standalone".
abbrev pub standalone_options : List Entry
standalone_options =
    entry (codes "--clsid" ∷ []) (stores specs)
      (codes
        "Register a COM class (repeatable).\n            Format: c[/a[/cc[/cr[/r]]]] where\n            - c  = CLSID\n            - a  = alias CLSID\n            - cc = CLSCTX for Create (DWORD)\n            - cr = CLSCTX for Register (DWORD)\n            - r  = REGCLS (DWORD)\n            Use decimal or 0x-prefixed hex for DWORD values.\n            Omit a field (\"//\") to keep its default:\n            - a=c,\n            - cc=CLSCTX_INPROC_SERVER,\n            - cr=CLSCTX_LOCAL_SERVER,\n            - r=REGCLS_MULTI_SEPARATE|REGCLS_SINGLEUSE (or |REGCLS_MULTIPLEUSE with --multiple-use).\n            Notes:\n            - REGCLS_SUSPENDED is added automatically during registration when applicable.\n            - Explicitly specifying 'r' bypasses all defaults and global flags; your value is used exactly as provided.\n            - Multiple-use mode avoids self-instantiation by re-registering the original InProc when available. Explicit alias recommended.\n            Examples:\n            - {CLSID}/{ALIAS}\n            - {CLSID}/{ALIAS}/0x1/0x4/0x2\n            - {CLSID}//0x1//0x2")
      (named (codes "<item>")) unchanged true
    ∷ hidden (codes "-ClassId" ∷ []) (stores specs) (named (codes "<item>")) unchanged true
    ∷ entry (codes "--timeout" ∷ []) (stores timeout)
        (codes
          "Exit automatically if no COM activation occurs for the given time (in milliseconds if no unit is specified, default=60000).")
        duration_type as_duration false
    ∷ hidden (codes "-Timeout" ∷ []) (stores timeout) duration_type as_duration false
    ∷ entry (codes "--ready-event" ∷ []) (stores ready_event)
        (codes
          "Signal the specified named event after all class factories have been registered. (default=Local\\AxHost_Ready_{PID}).")
        (named (codes "<name>")) unchanged false
    ∷ hidden (codes "-ReadyEvent" ∷ []) (stores ready_event) (named (codes "<name>")) unchanged
        false
    ∷ entry (codes "--single-use" ∷ []) calls_single_use
        (codes
          "Use single-use mode: class factory serves one instance then unregisters (REGCLS_SINGLEUSE). This is the default behavior.")
        untyped unchanged false
    ∷ hidden (codes "-SingleUse" ∷ []) calls_single_use untyped unchanged false
    ∷ entry (codes "--multiple-use" ∷ []) calls_multiple_use
        (codes
          "Use multiple-use mode: class factory can serve multiple instances (REGCLS_MULTIPLEUSE). Process waits for timeout period after instances are released to allow subsequent connections.")
        untyped unchanged false
    ∷ hidden (codes "-MultipleUse" ∷ []) calls_multiple_use untyped unchanged false
    ∷ entry (codes "--enable-logging" ∷ []) (sets enable_logging)
        (codes "Enable logging for this process.") untyped unchanged false
    ∷ hidden (codes "-EnableLogging" ∷ []) (sets enable_logging) untyped unchanged false
    ∷ entry (codes "--log-level" ∷ []) (stores log_level)
        (codes "Minimum logging level (trace, debug, info, warn, error).") (named (codes "<level>"))
        unchanged false
    ∷ hidden (codes "-LogLevel" ∷ []) (stores log_level) (named (codes "<level>")) unchanged false
    ∷ entry (codes "--log-file" ∷ []) (stores log_file)
        (codes "Write logs to the specified file (implies --enable-logging).")
        (named (codes "<file>")) unchanged false
    ∷ hidden (codes "-LogFile" ∷ []) (stores log_file) (named (codes "<file>")) unchanged false
    ∷ entry (codes "--log-dir" ∷ []) (stores log_dir)
        (codes
          "Directory for log output; filename is chosen automatically (implies --enable-logging).")
        (named (codes "<dir>")) unchanged false
    ∷ hidden (codes "-LogDirectory" ∷ []) (stores log_dir) (named (codes "<dir>")) unchanged false
    ∷ []

-- The group "Registry".
abbrev pub registry_options : List Entry
registry_options =
    entry (codes "--register" ∷ []) calls_register
      (codes "Register axhost as DllSurrogate for the specified CLSID.") (named (codes "<clsid>"))
      unchanged false
    ∷ hidden (codes "-Register" ∷ []) calls_register (named (codes "<clsid>")) unchanged false
    ∷ entry (codes "--register-appid" ∷ []) (stores register_app_id)
        (codes "Specify AppID for surrogate registration (defaults to CLSID if not specified).")
        (named (codes "<appid>")) unchanged false
    ∷ hidden (codes "-RegisterAppId" ∷ []) (stores register_app_id) (named (codes "<appid>"))
        unchanged false
    ∷ entry (codes "--register-logging" ∷ []) (sets register_logging)
        (codes
          "Enable logging for the CLSID/AppID being registered (used by surrogate mode). Requires --register.")
        untyped unchanged false
    ∷ hidden (codes "-RegisterLogging" ∷ []) (sets register_logging) untyped unchanged false
    ∷ entry (codes "--register-log-level" ∷ []) (stores register_log_level)
        (codes
          "Default logging level for surrogate instances (trace, debug, info, warn, error). Requires --register.")
        (named (codes "<level>")) unchanged false
    ∷ hidden (codes "-RegisterLogLevel" ∷ []) (stores register_log_level) (named (codes "<level>"))
        unchanged false
    ∷ entry (codes "--register-log-dir" ∷ []) (stores register_log_dir)
        (codes
          "Default log directory for surrogate instances. Log filenames are chosen automatically. Requires --register.")
        (named (codes "<dir>")) unchanged false
    ∷ hidden (codes "-RegisterLogDirectory" ∷ []) (stores register_log_dir) (named (codes "<dir>"))
        unchanged false
    ∷ entry (codes "--unregister" ∷ []) (stores unregister_class_id)
        (codes "Unregister axhost as DllSurrogate for the specified CLSID.")
        (named (codes "<clsid>")) unchanged false
    ∷ hidden (codes "-Unregister" ∷ []) (stores unregister_class_id) (named (codes "<clsid>"))
        unchanged false
    ∷ []

-- All options, in the order in which they are added.
abbrev pub options : List Entry
options = app_options ++ (surrogate_options ++ (standalone_options ++ registry_options))
