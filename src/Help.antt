-- ===== src/Help.antt =====
-- The help text of one option: Formatter of src/command_line_formatter.h.
pub mod Columns
use axhost.Common.{
  ◌≡◌, ℕ, zero, suc, ◌+◌, ◌-◌, leb, ltb, Bool, true, false, not, ◌&&◌, ◌||◌, ◌==◌, if◌then◌else◌,
  List, [], ◌∷◌, ◌++◌, Text, codes, is_empty, length, replicate,
}

-- What the class takes from CLI11: its widths, and its helpers.
pub record Layout : Type 0 where
  pub column_width : ℕ
  pub right_column_width : ℕ
  -- column_width times the ratio of short names, cut to an integer.
  pub short_names_column_width : ℕ
  pub short_le : leb short_names_column_width column_width ≡ true
  -- detail::split at commas, and detail::join with ", ".
  pub split : Text → List Text
  pub join : List Text → Text
  -- detail::streamOutAsParagraph: text, width, prefix of lines, and whether the first has none.
  pub paragraph : Text → ℕ → Text → Bool → Text

-- std::setw with std::left.
unfoldable pub set_width : ℕ → Text → Text
set_width n text = text ++ replicate (n - length text) b' '

-- Whether two dashes stand one behind the other.
unfoldable pub finds_dashes : Text → Bool
finds_dashes [] = false
finds_dashes (c ∷ []) = false
finds_dashes (c ∷ d ∷ text) = (c == b'-' && d == b'-') || finds_dashes (d ∷ text)

-- The long names, and the short ones.
unfoldable pub names_with : Bool → List Text → List Text
names_with long [] = []
names_with long (name ∷ names) =
    let rest = names_with long names in
    if (if finds_dashes name then long else not long) then name ∷ rest else rest

-- The short names as they are printed: indented, and followed by what belongs behind them.
unfoldable pub short_text : ℕ → Text → Text → Text → Text
short_text width short long opts =
    let indented =
      codes "  "
      ++ (short
          ++ ((if is_empty long && not (is_empty opts) then opts else [])
              ++ (if not (is_empty long) then codes "," else []))) in
    if leb width (length indented) then indented ++ codes " " else indented

unfoldable pub long_text : ℕ → Text → Text → Text
long_text width long opts =
    let named = long ++ opts in if leb width (length named) then named ++ codes " " else named

module _ (layout : Layout) where
  open layout use {
    column_width, right_column_width, short_names_column_width, split, join, paragraph,
  }

  -- How far the short names reach into the column of the long ones.
  unfoldable pub over_size : Text → ℕ
  over_size printed =
      let over = length printed - short_names_column_width in
      let rest = column_width - short_names_column_width in if ltb over rest then over else rest

  -- The names of an option that is not positional.
  unfoldable pub left_of_names : Text → Text → Text → Text
  left_of_names short long opts =
      let printed =
        if is_empty short
        then codes "  "
        else short_text short_names_column_width short long opts in
      let width =
        column_width
        - short_names_column_width
        - (if is_empty short then 0 else over_size printed) in
      set_width short_names_column_width printed
      ++ set_width width (if is_empty long then [] else long_text width long opts)

  -- The description behind its left column.
  unfoldable pub describe : Bool → Text → Text → Text
  describe breaks left desc =
      if is_empty desc
      then left
      else left
        ++ ((if breaks then codes "\n" else [])
            ++ paragraph desc right_column_width (replicate column_width b' ') (not breaks))

  -- make_option, of what make_option_name, make_option_opts and make_option_desc give.
  unfoldable pub make_option : Bool → Text → Text → Text → Text
  make_option is_positional name opts desc =
      (if is_positional
        then (let left = codes "  " ++ (name ++ opts) in
            describe (leb column_width (length left)) (set_width column_width left) desc)
        else (let names = split name in
            let left =
              left_of_names (join (names_with false names)) (join (names_with true names)) opts in
            describe (ltb column_width (length left)) left desc))
      ++ codes "\n"

-- The text without the line ends at its end.
unfoldable pub without_ends : Text → Text
without_ends [] = []
without_ends (c ∷ text) =
    let rest = without_ends text in if is_empty rest && (c == 10 || c == 13) then [] else c ∷ rest

-- make_description and make_expanded, of what the base class gives.
unfoldable pub make_description : Text → Text
make_description desc =
    let cut = without_ends desc in if is_empty cut then cut else cut ++ codes "\n"

pub make_expanded : Text → Text
make_expanded expanded = if is_empty expanded then expanded else codes "\n\n" ++ expanded
