-- ===== src/Help/Columns.antt =====
-- The widths of the columns of the help text.
use axhost.Common.{
  ℕ, ◌+◌, ◌-◌, ◌≤◌, ◌≡◌, ap, ◌∙◌, if◌then◌else◌, [], ◌++◌, Text, codes, is_empty, length, replicate,
  length-append, length-replicate, arith,
}
use axhost.Help.{Layout, set_width, short_text, long_text, over_size, left_of_names}

length-set_width :
    (n : ℕ) (text : Text) → length (set_width n text) ≡ length text + (n - length text)
unfolding set_width
length-set_width n text =
    length-append text (replicate (n - length text) b' ')
    ∙ ap (λ k. length text + k) (length-replicate (n - length text) b' ')

module _ (layout : Layout) where
  open layout use {column_width, short_names_column_width}

  over_size_bound :
      (printed : Text)
      → (over_size layout printed ≤ length printed - short_names_column_width)
        × (over_size layout printed ≤ column_width - short_names_column_width)
  unfolding over_size
  over_size_bound printed = ground arith

  short_le : short_names_column_width ≤ column_width
  short_le = ground (arith, layout.short_le)

  columns :
      (printed long : Text) (over : ℕ)
      → over ≤ length printed - short_names_column_width
      → column_width
        ≤ length (
            set_width short_names_column_width printed
            ++ set_width (column_width - short_names_column_width - over) long)
  columns printed long over h =
      let width = column_width - short_names_column_width - over in
      omega (
        arith,
        short_le,
        length-append (set_width short_names_column_width printed) (set_width width long),
        length-set_width short_names_column_width printed,
        length-set_width width long,
      )

  -- The names of an option fill its column at least: with their indentation, their commas and the
  -- option's value they are as wide as the column or wider, however long the short names are.
  pub left_of_names-width :
      (short long opts : Text) → column_width ≤ length (left_of_names layout short long opts)
  unfolding left_of_names
  left_of_names-width short long opts =
      let printed : Text =
        if is_empty short
        then codes "  "
        else short_text short_names_column_width short long opts in
      let over : ℕ = if is_empty short then 0 else over_size layout printed in
      let width = column_width - short_names_column_width - over in
      columns printed (if is_empty long then [] else long_text width long opts) over
        (ground (arith, (over_size_bound printed).0))
