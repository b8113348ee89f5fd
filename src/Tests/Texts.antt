-- ===== src/Tests/Texts.antt =====
-- Command lines and class specifications.
use axhost.Common.{ℕ, Text, codes, [], ◌∷◌, ◌++◌, ◌≡◌, refl, true, false, none, arith}
use axhost.CommandLine.{
  create_command_line, create_command_line_list, quote_single_arg, arg_needs_quotes, quoted_arg,
}
use axhost.CommandLine.Argv.{to_argv}
use axhost.CommandLine.RoundTrip.{to_argv-create_command_line}
use axhost.ClassSpec.{ClassSpec, Uuid, empty_spec, from_string, print, sanitize}
use axhost.ClassSpec.Print.{from_string-print}
use axhost.Tests.PlainQt.{plain}

trailing_backslashes : quote_single_arg (codes "a b\\\\") ≡ codes "\"a b\\\\\\\\\""
unfolding quote_single_arg
trailing_backslashes = refl

needs_quotes :
    (arg_needs_quotes [] ≡ true)
    × (arg_needs_quotes (codes "a\\b") ≡ true)
    × (arg_needs_quotes (codes "--clsid") ≡ false)
unfolding arg_needs_quotes
needs_quotes = (refl, refl, refl)

host_line :
    create_command_line plain (codes "c:/axhost.exe") (codes "--clsid" ∷ [] ∷ []) (codes "-x")
    ≡ codes "\"c:\\axhost.exe\" --clsid \"\" -x"
unfolding create_command_line quoted_arg arg_needs_quotes quote_single_arg
host_line = refl

no_arguments : create_command_line_list plain [] ≡ none
unfolding create_command_line_list
no_arguments = refl

to_argv-create_command_line_example :
    to_argv (create_command_line plain (codes "a/b") (codes "c \"d\\" ∷ [] ∷ []) (codes "e f"))
    ≡ (codes "a\\b" ∷ codes "c \"d\\" ∷ [] ∷ []) ++ to_argv (codes "e f")
to_argv-create_command_line_example =
    to_argv-create_command_line plain (codes "a/b") (codes "c \"d\\" ∷ [] ∷ []) (codes "e f")
      (λ e. cc)

abbrev identify : Text → ℕ × Uuid
identify [] = (0x800401F3, 0)
identify (c ∷ s) = (0, c)

abbrev sample : ClassSpec
sample = record {
  clsid = 0;
  alias = 0;
  clsid_input = codes "{C}";
  alias_input = codes "{A}";
  clsctx_create = 1;
  clsctx_register = 4;
  regcls = 2;
  regcls_explicit = false;
  result = 0;
  error = 7;
}

skipped_fields : (from_string plain identify (codes "{C}//1//2")).0 ≡ record empty_spec {
  clsid = b'{';
  clsid_input = codes "{C}";
  clsctx_create = 1;
  regcls = 2;
  regcls_explicit = true;
}
unfolding from_string
skipped_fields = refl

default_contexts :
    sanitize 0 (record empty_spec { clsid = 9 })
    ≡ record empty_spec { clsid = 9; alias = 9; clsctx_create = 1; clsctx_register = 4; regcls = 2 }
unfolding sanitize
default_contexts = refl

from_string-print_example :
    (from_string plain identify (print plain sample)).0
    ≡ record sample { clsid = b'{'; alias = b'{'; regcls_explicit = true; error = 0 }
from_string-print_example = from_string-print plain identify sample (record {
  clsid_field = record { no_slash = omega arith; not_empty = refl; trimmed_same = refl };
  alias_field = record { no_slash = omega arith; not_empty = refl; trimmed_same = refl };
  create_back = record { no_slash = omega arith; not_empty = refl; read_back = refl };
  register_back = record { no_slash = omega arith; not_empty = refl; read_back = refl };
  regcls_back = record { no_slash = omega arith; not_empty = refl; read_back = refl };
})

abbrev explicit : ClassSpec
explicit = record sample { clsid = 3; alias = 5; regcls = 1; regcls_explicit = true }
