-- ===== src/Tests/Runs.antt =====
-- Runs of the process from its command line on.
use axhost.Common.{
  text_eq, if◌then◌else◌, ℕ, ◌+◌, Text, codes, true, false, ◌≡◌, refl, [], ◌∷◌, List, Option, none,
  some,
}
use axhost.Registry.Table.{table}
use axhost.Com.Table.{objects, no_objects}
use axhost.RegistryHelper.{register_surrogate, write_logging_settings, set_if_given}
use axhost.Startup.{register_entries, register_if_given, ParsedResult, dispatch, returns}
use axhost.Main.{
  Cli, Thrown, parse_error, call_for_help, runs, initialization_throws, try_parse, caught, parse,
  ended, Platform, initialize_platform, run_parsed, unless_thrown, main,
}
use axhost.Tests.Starts.{registering, exe, empty, host, after}

-- A parser that knows `r`, and `h` for help.
abbrev read : List Text → ParsedResult → ParsedResult × Option Thrown
read [] r = (r, none)
read (a ∷ rest) r =
    if text_eq a (codes "r")
    then (registering, none)
    else (r, if text_eq a (codes "h") then some call_for_help else some parse_error)

abbrev cli : Cli
cli = record {
  ensure_utf8 = λ argv. argv;
  State = ℕ;
  initial = 0;
  parse = λ argv n r. let (q, thrown) = read argv r in (n + 1, q, thrown);
  exit_code = λ thrown. 1;
  exit = λ thrown. 0;
  what = λ thrown. codes "see --help";
}

abbrev args : List Text
args = codes "r" ∷ []

abbrev platform : Platform
platform = record {
  set_preferred_languages = true;
  is_debugger_present = false;
  last_error = 0;
  co_initialize = 0;
  co_initialize_security = 0;
  application_arguments = λ argv. argv;
}

main_registers :
    (main cli host table objects platform (λ u. []) true exe args empty no_objects).1
    ≡ runs (returns after)
unfolding main run_parsed unless_thrown initialize_platform parse ended try_parse caught dispatch
    register_entries register_if_given register_surrogate write_logging_settings set_if_given
main_registers = refl

-- Without COM nothing is dispatched.
main_without_com :
    (main cli host table objects
      (record platform { co_initialize = 0x80004005 })
      (λ u. [])
      true
      exe
      args
      empty
      no_objects).1
    ≡ initialization_throws 0x80004005
unfolding main unless_thrown initialize_platform
main_without_com = refl
