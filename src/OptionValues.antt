-- ===== src/OptionValues.antt =====
-- The values of options: AsClassId of src/as_classid.cc and AsDuration of src/as_duration.cc.
pub mod Normal
use axhost.Common.{ℕ, Text, codes, Bool, not, ◌*◌, if◌then◌else◌, List, [], ◌∷◌, ◌++◌}
use axhost.Common.Flags.{has}
use axhost.Common.Hresult.{failed}
use axhost.Common.Qt.{Qt}
use axhost.ClassSpec.{Uuid}

-- Class identifiers as texts, by Windows and Qt.
pub record Identifiers : Type 0 where
  -- CLSIDFromString, which also knows names of classes: the HRESULT and the identifier.
  pub clsid_from_string : Text → ℕ × Uuid
  -- QUuid::toString with braces, in capital letters.
  pub upper_text : Uuid → Text
  -- The message for an HRESULT and an input.
  pub invalid_clsid : ℕ → Text → Text

-- AsClassId: the input after it, and the message, which is empty if the input is valid.
unfoldable pub as_class_id : Identifiers → Text → Text × Text
as_class_id ids input =
    let (hr, u) = ids.clsid_from_string input in
    if failed hr then (input, ids.invalid_clsid hr input) else (ids.upper_text u, [])

-- m_mapping: milliseconds of each unit.
pub mapping : List (Text × ℕ)
mapping =
    (codes "ms", 1) ∷ (codes "s", 1000) ∷ (codes "m", 60 * 1000) ∷ (codes "h", 60 * 60 * 1000) ∷ []

-- m_units.
abbrev pub units : List Text
units = codes "ms" ∷ codes "s" ∷ codes "m" ∷ codes "h" ∷ []

-- CLI::AsNumberWithUnit::UNIT_REQUIRED and DEFAULT.
abbrev pub unit_required : ℕ
unit_required = 4

abbrev pub default_options : ℕ
default_options = 3

unfoldable pub generate_description : Text → Text → ℕ → Text
generate_description type_name unit_name opts =
    type_name
    ++ (if has opts unit_required
        then codes "(" ++ (unit_name ++ codes ")")
        else codes "[" ++ (unit_name ++ codes "]"))

-- The description that AsDuration sets.
unfoldable pub duration_description : Qt → Text
duration_description qt =
    generate_description (codes "<duration>") (qt.join units b'|') default_options
