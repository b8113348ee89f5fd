-- ===== src/Tests/Libraries.antt =====
-- A type library in the registry.
use axhost.Common.{
  ℕ, zero, suc, Text, codes, true, ◌≡◌, refl, [], ◌∷◌, Option, none, some, arith, text_eq,
  if◌then◌else◌,
}
use axhost.Common.Hresult.{s_ok}
use axhost.TypeInfo.{
  TypeSource, ImplType, find_latest_type_lib_version, version_loop, later_version,
  find_default_source_iid, source_loop, source_of, get_guid,
}
use axhost.TypeInfo.Versions.{Latest, find_latest_type_lib_version-Latest}
use axhost.TypeInfo.Ending.{Ends, Returns, get_guid-Returns}

-- A type library with the versions 1.2 and 1.10 and a subkey that is no version.
abbrev scan : Text → Option (ℕ × ℕ)
scan name =
    if text_eq name (codes "1.2")
    then some (1, 2)
    else if text_eq name (codes "1.10")
    then some (1, 10)
    else none

abbrev names : ℕ → ℕ × Text
names zero = (0, codes "1.10")
names (suc zero) = (0, codes "help")
names (suc (suc zero)) = (0, codes "1.2")
names _ = (259, [])

-- Its classes have a default interface, and a default source interface with the GUID 77.
abbrev types : ℕ → Option ImplType
types zero =
    some (record { flags = 1; ref_type = 0; type_info = (0, 5); attributes = (0, true, 66) })
types (suc zero) =
    some (record { flags = 3; ref_type = 0; type_info = (0, 5); attributes = (0, true, 77) })
types _ = none

abbrev pub library : TypeSource
library = record {
  string_from_clsid = λ g. (s_ok, codes "{L}");
  clsid_from_string = λ s. (s_ok, 5);
  open_key = λ s. (s_ok, 1);
  default_value = λ k. (0, codes "{L}");
  enum_key = λ k. names;
  sub_key_count = λ k. 3;
  impl_count = λ t. 2;
  scan_version = scan;
  load_reg_type_lib = λ g major minor. (s_ok, 2);
  get_type_info_of_guid = λ l g. (s_ok, 3);
  impl_type = λ t. types;
}

pub library-Ends : Ends library
library-Ends = record {
  few_keys = λ k. omega arith;
  keys_end = λ k. refl;
  few_types = λ t. omega arith;
  types_end = λ t. refl;
}

-- Ten is later than two, although its text comes before.
latest_version : find_latest_type_lib_version library 5 ≡ some (s_ok, 1, 10)
unfolding find_latest_type_lib_version version_loop later_version
latest_version = refl

find_latest_type_lib_version-Latest_example :
    (out : ℕ × ℕ × ℕ) × (find_latest_type_lib_version library 5 ≡ some out)
    × Latest scan (codes "1.10" ∷ codes "help" ∷ codes "1.2" ∷ []) out
find_latest_type_lib_version-Latest_example =
    find_latest_type_lib_version-Latest library 5 library-Ends refl refl
      ((omega arith, omega arith), (tt, ((omega arith, omega arith), tt)))

default_source : find_default_source_iid library true 3 ≡ some (s_ok, 77)
unfolding find_default_source_iid source_loop source_of
default_source = refl

-- The control has neither interface.
get_guid-Returns_example : Returns (get_guid library none none true 7 1)
get_guid-Returns_example = get_guid-Returns library library-Ends none none true 7 1
