-- ===== src/CommandLine/Argv.antt =====
-- How a process reads its command line back: the rules documented for CommandLineToArgvW, as a
-- machine that is independent of src/command_line.cc.
use axhost.Common.{
  ℕ, ◌+◌, ◌/◌, ◌%◌, List, [], ◌∷◌, ◌++◌, Text, Bool, true, false, not, ◌==◌, ◌||◌, ◌&&◌,
  if◌then◌else◌, replicate,
}

-- `current` is the argument that is being read, if `started`; `backslashes` are not yet in it.
pub record Reading : Type 0 where
  pub quoted : Bool
  pub backslashes : ℕ
  pub started : Bool
  pub current : Text
  pub args : List Text

-- A quote after 2n backslashes opens or closes a quoted part, after 2n + 1 it stands for itself,
-- and n backslashes stay. Other backslashes stand for themselves. Blanks separate outside quotes.
unfoldable pub read_step : ℕ → Reading → Reading
read_step c r =
    if c == b'\\'
    then record r { backslashes = r.backslashes + 1; started = true }
    else if c == b'"'
    then (if r.backslashes % 2 == 0
        then record r {
          quoted = not r.quoted;
          backslashes = 0;
          started = true;
          current = r.current ++ replicate (r.backslashes / 2) b'\\';
        }
        else record r {
          backslashes = 0;
          started = true;
          current = r.current ++ replicate (r.backslashes / 2) b'\\' ++ b'"' ∷ [];
        })
    else if (c == b' ' || c == b'\t') && not r.quoted
    then (if r.started
        then record {
          quoted = false;
          backslashes = 0;
          started = false;
          current = [];
          args = r.args ++ (r.current ++ replicate r.backslashes b'\\') ∷ [];
        }
        else r)
    else record r {
      backslashes = 0;
      started = true;
      current = r.current ++ replicate r.backslashes b'\\' ++ c ∷ [];
    }

unfoldable pub read : Text → Reading → Reading
unfolding read_step
read [] r = r
read (c ∷ s) r = read s (read_step c r)

abbrev pub read_end : Reading → List Text
read_end r =
    if r.started then r.args ++ (r.current ++ replicate r.backslashes b'\\') ∷ [] else r.args

-- Between two arguments, with `args` read.
abbrev pub between : List Text → Reading
between args = record {
  quoted = false;
  backslashes = 0;
  started = false;
  current = [];
  args = args;
}

-- At the end of an argument.
abbrev pub holding : Text → List Text → Reading
holding arg args = record {
  quoted = false;
  backslashes = 0;
  started = true;
  current = arg;
  args = args;
}

unfoldable pub to_argv : Text → List Text
unfolding read
to_argv s = read_end (read s (between []))
