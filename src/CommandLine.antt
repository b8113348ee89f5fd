-- ===== src/CommandLine.antt =====
-- Command lines, as src/command_line.cc builds them for the log.
pub mod Argv
pub mod Emitted
pub mod RoundTrip
use axhost.Common.{
  ℕ, zero, suc, ◌+◌, ◌*◌, List, [], ◌∷◌, ◌++◌, map, Text, codes, Bool, true, false, ◌==◌, ltb, ◌||◌,
  if◌then◌else◌, is_empty, replicate, Option, none, some,
}
use axhost.Common.Qt.{Qt}

abbrev pub backslash : ℕ
backslash = b'\\'

abbrev pub quote : ℕ
quote = b'"'

abbrev pub space : ℕ
space = b' '

-- The characters that make an argument need quotes.
abbrev pub specials : Text
specials = codes "\t \"&'(){}*<>\\`^|\n"

contains : Text → ℕ → Bool
contains [] c = false
contains (d ∷ s) c = c == d || contains s c

any_special : Text → Bool
unfolding contains
any_special [] = false
any_special (c ∷ s) = contains specials c || any_special s

unfoldable pub arg_needs_quotes : Text → Bool
unfolding any_special
arg_needs_quotes arg = if is_empty arg then true else any_special arg

-- The variables of the loop in QuoteSingleArg.
pub record Quoting : Type 0 where
  pub result : Text
  pub backslashes : ℕ

-- Appends `count` backslashes if any are pending.
flush : Quoting → ℕ → Text
flush q count = if ltb 0 q.backslashes then q.result ++ replicate count backslash else q.result

-- One round of the loop.
quote_step : ℕ → Quoting → Quoting
quote_step ch q =
    if ch == backslash
    then record q { backslashes = q.backslashes + 1 }
    else if ch == quote
    then record {
      result = flush q (q.backslashes * 2) ++ backslash ∷ quote ∷ [];
      backslashes = if ltb 0 q.backslashes then 0 else q.backslashes;
    }
    else record {
      result = flush q q.backslashes ++ ch ∷ [];
      backslashes = if ltb 0 q.backslashes then 0 else q.backslashes;
    }

quote_loop : Text → Quoting → Quoting
quote_loop [] q = q
quote_loop (ch ∷ arg) q = quote_loop arg (quote_step ch q)

quote_end : Quoting → Text
quote_end q = flush q (q.backslashes * 2) ++ quote ∷ []

unfoldable pub quote_single_arg : Text → Text
unfolding flush quote_step quote_loop quote_end
quote_single_arg arg = quote_end (quote_loop arg (record { result = quote ∷ []; backslashes = 0 }))

-- One round of the loop over the arguments.
unfoldable pub quoted_arg : Text → Text
quoted_arg arg = if arg_needs_quotes arg then quote_single_arg arg else arg

module _ (qt : Qt) where
  open qt use {join, replace}

  program_args : Text → List Text
  program_args program =
      if is_empty program then [] else quote_single_arg (replace program b'/' backslash) ∷ []

  -- CreateCommandLine(program, arguments, nativeArguments).
  unfoldable pub create_command_line : Text → List Text → Text → Text
  unfolding program_args
  create_command_line program arguments native_arguments =
      let cmd_line = join (program_args program ++ map quoted_arg arguments) space in
      if is_empty native_arguments
      then cmd_line
      else (if is_empty cmd_line then cmd_line else cmd_line ++ space ∷ []) ++ native_arguments

  -- CreateCommandLine(arguments): `at(0)` of an empty list is a fault.
  unfoldable pub create_command_line_list : List Text → Option Text
  create_command_line_list [] = none
  create_command_line_list (program ∷ arguments) = some (create_command_line program arguments [])

  -- CreateCommandLine(argc, argv); the decoding is QString::fromLocal8Bit.
  pub create_command_line_argv : (List ℕ → Text) → List (List ℕ) → Option Text
  create_command_line_argv from_local8bit argv = create_command_line_list (map from_local8bit argv)
