-- ===== src/Tests/Parts.antt =====
-- The smaller parts of the program.
use axhost.Common.{
  zero, suc, length-replicate, ℕ, ◌+◌, ◌-◌, ◌==◌, ◌≡◌, refl, codes, false, ltb, if◌then◌else◌, List,
  [], ◌∷◌, ◌++◌, none, some, length, replicate, arith, text_eq,
}
use axhost.Common.Hresult.{s_ok, e_fail}
use axhost.Instance.{Life, constructed, destroyed}
use axhost.Help.{
  Layout, left_of_names, describe, make_option, set_width, long_text, names_with, finds_dashes,
}
use axhost.Failure.{
  Platform, FailureInfo, return_failure, std_exception, summary, custom_result_message_callback,
  with_message, error_text, error_code, current_exception_repr, type_text,
}
use axhost.OptionValues.{Identifiers}
use axhost.OptionValues.Normal.{ReadsBack}
use axhost.ComContext.{Threading}
use axhost.ComContext.Balance.{Laws}

-- A second runtime comes and goes, and a third comes.
abbrev lives : List Life
lives = constructed 2 ∷ destroyed 2 ∷ constructed 3 ∷ []

-- A column of twelve, two for short names.
abbrev layout : Layout
layout = record {
  column_width = 12;
  right_column_width = 40;
  short_names_column_width = 2;
  short_le = refl;
  split = λ s. s ∷ [];
  join = λ names. elim names [ [] ↦ [] | n ∷ ns ↦ n ];
  paragraph = λ text width prefix first. text;
}

one_line :
    make_option layout false (codes "--help") [] (codes "Help.") ≡ codes "  --help    Help.\n"
unfolding make_option left_of_names set_width long_text names_with finds_dashes describe
one_line = refl

two_lines :
    make_option layout false (codes "--multiple-use") [] (codes "Use.")
    ≡ codes "  --multiple-use \nUse.\n"
unfolding make_option left_of_names set_width long_text names_with finds_dashes describe
two_lines = refl

-- A printer that writes a piece if it fits, and nothing else.
abbrev platform : Platform
platform = record {
  format_nt_status = none;
  format_message = λ hr. codes "Access is denied. ";
  trimmed = λ s. s;
  hex8 = λ n. codes "8007023E";
  decimal = λ n. codes "1";
  print =
      λ size buffer piece. if ltb (length (buffer ++ piece)) size then buffer ++ piece else buffer;
  failure_log_string = λ failure size. (s_ok, []);
}

-- An exception that reached the boundary of WIL.
abbrev failure : FailureInfo
failure = record {
  type = return_failure;
  nt_status = false;
  status = 0;
  hr = 0x8007023E;
  failure_count = 1;
  message = some (codes "main");
}

reported :
    custom_result_message_callback platform (std_exception (codes "E") (codes "no")) failure 100
    ≡ codes "E(no) (0x8007023E) ReturnHr(1) << main"
unfolding custom_result_message_callback with_message summary error_text error_code
    current_exception_repr type_text
reported = refl

-- Class 3 has the name C; every class is printed as a row of that many letters.
abbrev identifiers : Identifiers
identifiers = record {
  clsid_from_string = λ s. if text_eq s (codes "C") then (s_ok, 3) else (s_ok, length s);
  upper_text = λ u. replicate u b'x';
  invalid_clsid = λ hr s. s;
}

x_row : (u : ℕ) → text_eq (replicate u b'x') (codes "C") ≡ false
x_row zero = refl
x_row (suc u) = refl

identifiers-ReadsBack : ReadsBack identifiers
identifiers-ReadsBack u =
    let own = x_row u in (ground (arith, own), ground (arith, own, length-replicate {A = ℕ} u b'x'))

-- A thread that counts; mode 9 is refused.
abbrev threading : Threading
threading = record {
  World = ℕ;
  co_initialize = λ mode w. if mode == 9 then (w, e_fail) else (w + 1, s_ok);
  co_uninitialize = λ w. w - 1;
}

threading-Laws : Laws threading
threading-Laws = record {
  count = λ w. w;
  count-co_initialize = λ mode w. ground arith;
  count-co_uninitialize = λ w. refl;
}
