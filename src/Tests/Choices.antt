-- ===== src/Tests/Choices.antt =====
-- The options at a hidden one.
use axhost.Common.{ℕ, codes, true, false, [], ◌∷◌, ◌≡◌, refl, some, get_elem?}
use axhost.Options.{Entry, specs, stores, named, unchanged, options}
use axhost.Options.Aliases.{effect, options-shown}

-- `-ClassId`.
abbrev class_id_option : Entry
class_id_option = record {
  names = codes "-ClassId" ∷ [];
  action = stores specs;
  description = [];
  type_name = named (codes "<item>");
  transform = unchanged;
  many = true;
  shown = false;
}

options-shown_example :
    (j : ℕ) × (d : Entry) × (get_elem? options j ≡ some d)
    × (d.shown ≡ true)
    × (effect d ≡ effect class_id_option)
options-shown_example = options-shown 9 class_id_option refl

abbrev the_position : ℕ
the_position = 9
