-- ===== src/Main.antt =====
-- CommandLineParser::tryParse and parse of src/command_line_parser.cc, and main of src/main.cc as
-- a whole: two parses of one command line, the log between them, and what the second leads to.
use axhost.Common.{ℕ, Text, Bool, false, not, ◌&&◌, if◌then◌else◌, List, [], Option, none, some}
use axhost.Common.Hresult.{failed, hresult_from_win32}
use axhost.Registry.{Registry}
use axhost.Com.{Com}
use axhost.Startup.{ParsedResult, Outcome, dispatch}
use axhost.Logging.{Host, Logger, initialize_logging}

-- What CLI::App::parse throws. The first four are kinds of CLI::ParseError.
pub data Thrown : Type 0 where
  call_for_help call_for_all_help call_for_version parse_error : Thrown
  unrelated : Thrown

-- CLI11, whose code is not in the repository.
pub record Cli : Type 1 where
  -- What an App keeps from one parse to the next, and what the constructor leaves it with.
  pub State : Type 0
  pub initial : State
  pub ensure_utf8 : List Text → List Text
  -- App::parse writes what it reads into the result that the options are bound to, also where it
  -- throws later.
  pub parse : List Text → State → ParsedResult → State × ParsedResult × Option Thrown
  -- get_exit_code, and the code of App::exit, which also prints.
  pub exit_code : Thrown → ℕ
  pub exit : Thrown → ℕ
  pub what : Thrown → Text

-- The dialogs before an exit.
pub data Dialog : Type 0 where
  help all_help version : Dialog
  error : Text → Dialog

-- `ParsedResult{}`.
abbrev pub no_result : ParsedResult
no_result = record {
  class_id = 0;
  process_id = [];
  embedding = false;
  automation = false;
  specs = [];
  timeout = 60000;
  ready_event = [];
  regcls = 0;
  enable_logging = false;
  log_level = [];
  log_file = [];
  log_dir = [];
  register_class_id = [];
  register_app_id = [];
  unregister_class_id = [];
  register_logging = false;
  register_log_level = [];
  register_log_dir = [];
  code = 0;
  msg = [];
}

-- How `parse` ends: with a result, with std::exit behind a dialog, or with an exception.
pub data Parsed : Type 0 where
  result : ParsedResult → Parsed
  exits : ℕ → Dialog → Parsed
  escapes : Parsed

module _ (cli : Cli) where
  -- The handlers of tryParse.
  unfoldable pub caught : ParsedResult → Option Thrown → ParsedResult
  caught r none = r
  caught r (some unrelated) = r
  caught r (some call_for_help) = record r {
    code = cli.exit_code call_for_help;
    msg = cli.what call_for_help;
  }
  caught r (some call_for_all_help) = record r {
    code = cli.exit_code call_for_all_help;
    msg = cli.what call_for_all_help;
  }
  caught r (some call_for_version) = record r {
    code = cli.exit_code call_for_version;
    msg = cli.what call_for_version;
  }
  caught r (some parse_error) = record r {
    code = cli.exit_code parse_error;
    msg = cli.what parse_error;
  }

  -- tryParse: the App, and the new m_result, which is also what it returns.
  unfoldable pub try_parse : List Text → cli.State → ParsedResult → cli.State × ParsedResult
  try_parse argv app m_result =
      let (app1, r, thrown) = cli.parse (cli.ensure_utf8 argv) app no_result in
      (app1, caught r thrown)

  -- The handlers of parse.
  unfoldable pub ended : ParsedResult → Option Thrown → Parsed
  ended r none = result r
  ended r (some call_for_help) = exits (cli.exit call_for_help) help
  ended r (some call_for_all_help) = exits (cli.exit call_for_all_help) all_help
  ended r (some call_for_version) = exits (cli.exit call_for_version) version
  ended r (some parse_error) = exits (cli.exit parse_error) (error (cli.what parse_error))
  ended r (some unrelated) = escapes

  unfoldable pub parse : List Text → cli.State → ParsedResult → cli.State × Parsed
  parse argv app m_result =
      let (app1, r, thrown) = cli.parse (cli.ensure_utf8 argv) app no_result in
      (app1, ended r thrown)

-- What main asks of Windows and Qt before the second parse.
pub record Platform : Type 0 where
  pub set_preferred_languages : Bool
  pub is_debugger_present : Bool
  pub last_error : ℕ
  pub co_initialize : ℕ
  pub co_initialize_security : ℕ
  -- QApplication, which takes the options of Qt out of the arguments.
  pub application_arguments : List Text → List Text

-- SetPreferredLanguages, InitializeCom and InitializeComSecurity: the HRESULT of the exception, if
-- one is thrown.
unfoldable pub initialize_platform : Platform → Option ℕ
initialize_platform p =
    if not p.set_preferred_languages && p.is_debugger_present
    then some (hresult_from_win32 p.last_error)
    else if failed p.co_initialize
    then some p.co_initialize
    else if failed p.co_initialize_security
    then some p.co_initialize_security
    else none

module _ (cli : Cli) (host : Host) (rg : Registry) (ole : Com) where
  -- How main ends: before the dispatch, or with what the dispatch leads to.
  pub data Ending : Type 0 where
    initialization_throws : ℕ → Ending
    exits_with : ℕ → Dialog → Ending
    parse_throws : Ending
    runs : Outcome rg ole → Ending

  -- main from the second parse on.
  unfoldable pub run_parsed : Bool → Text → Parsed → rg.Reg → ole.World → Ending
  run_parsed admin exe (result parsed) s w = runs (dispatch rg ole admin exe parsed s w)
  run_parsed admin exe (exits code dialog) s w = exits_with code dialog
  run_parsed admin exe escapes s w = parse_throws

  unfoldable pub unless_thrown : Option ℕ → Ending → Ending
  unless_thrown none ending = ending
  unless_thrown (some hr) ending = initialization_throws hr

  -- main: the logger, and how it ends. `text`: QUuid::toString.
  unfoldable pub main :
      Platform → (ℕ → Text) → Bool → Text → List Text → rg.Reg → ole.World → Logger × Ending
  main platform text admin exe argv s w =
      let (app, parsed) = try_parse cli argv cli.initial no_result in
      let logger = initialize_logging host rg text parsed s in
      let (app2, again) = parse cli (platform.application_arguments argv) app parsed in
      (logger, unless_thrown (initialize_platform platform) (run_parsed admin exe again s w))
