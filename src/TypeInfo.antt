-- ===== src/TypeInfo.antt =====
-- HostProvideClassInfo, src/provide_class_info.cc: the class information of a control, from the
-- control itself or from its type library.
pub mod Versions
pub mod Ending
use axhost.Common.{
  ◌>>=◌, zero, suc, ◌+◌, ◌^◌, ℕ, ltb, Bool, true, false, not, ◌&&◌, ◌||◌, ◌==◌, ◌%◌, if◌then◌else◌,
  List, [], ◌∷◌, ◌++◌, Option, none, some, Text, codes,
}
use axhost.Common.Flags.{has}
use axhost.Common.Hresult.{
  failed, succeeded, s_ok, e_pointer, e_unexpected, e_invalidarg, type_e_libnotregistered,
  type_e_elementnotfound, hresult_from_win32,
}
use axhost.Com.{Pointer}

-- One index of a type information: GetImplTypeFlags, and the results of GetRefTypeOfImplType,
-- GetRefTypeInfo and GetTypeAttr that follow it.
pub record ImplType : Type 0 where
  pub flags : ℕ
  pub ref_type : ℕ
  pub type_info : ℕ × Pointer
  -- The HRESULT, whether attributes are given, and their GUID.
  pub attributes : ℕ × Bool × ℕ

-- The registry's classes and the type libraries, which are only read.
pub record TypeSource : Type 0 where
  -- StringFromCLSID and CLSIDFromString.
  pub string_from_clsid : ℕ → ℕ × Text
  pub clsid_from_string : Text → ℕ × ℕ
  -- Opening a key below HKEY_CLASSES_ROOT for reading.
  pub open_key : Text → ℕ × Pointer
  -- RegQueryValueExW of the default value into 64 characters: the status and the text.
  pub default_value : Pointer → ℕ × Text
  -- RegEnumKeyExW of an index into 64 characters: the status and the name.
  pub enum_key : Pointer → ℕ → ℕ × Text
  -- How many subkeys a key has, and how many types a type information implements. The program
  -- does not ask for these: they bound its loops.
  pub sub_key_count : Pointer → ℕ
  pub impl_count : Pointer → ℕ
  -- `swscanf_s(name, "%u.%u")`, if it reads both numbers.
  pub scan_version : Text → Option (ℕ × ℕ)
  pub load_reg_type_lib : ℕ → ℕ → ℕ → ℕ × Pointer
  pub get_type_info_of_guid : Pointer → ℕ → ℕ × Pointer
  -- An index of a type information; none, if GetImplTypeFlags fails there.
  pub impl_type : Pointer → ℕ → Option ImplType

-- IMPLTYPEFLAG_FDEFAULT and IMPLTYPEFLAG_FSOURCE.
abbrev pub impltypeflag_fdefault : ℕ
impltypeflag_fdefault = 1

abbrev pub impltypeflag_fsource : ℕ
impltypeflag_fsource = 2

abbrev pub guidkind_default_source_disp_iid : ℕ
guidkind_default_source_disp_iid = 1

-- One version of the loop: the version so far is replaced by a later one, each number of which
-- is cut to a USHORT.
unfoldable pub later_version : Option (ℕ × ℕ) → ℕ × ℕ → ℕ × ℕ
later_version none (major, minor) = (major, minor)
later_version (some (x, y)) (major, minor) =
    if ltb major x || (x == major && ltb minor y) then (x % 65536, y % 65536) else (major, minor)

-- The loop of FindLatestTypeLibVersion from an index on, on fuel; the index is a DWORD.
unfoldable pub version_loop :
    ℕ → (ℕ → ℕ × Text) → (Text → Option (ℕ × ℕ)) → ℕ → ℕ × ℕ → Option (ℕ × ℕ)
version_loop zero enum scan index best = none
version_loop (suc fuel) enum scan index best =
    let rest =
      version_loop fuel enum scan ((index + 1) % 2 ^ 32)
        (later_version (scan (enum index).1) best) in
    if (enum index).0 == 0 then rest else some best

-- What the loop of FindDefaultSourceIID finds at one index.
unfoldable pub source_of : ImplType → Option ℕ
source_of entry =
    if not (has entry.flags impltypeflag_fdefault)
    then none
    else if not (has entry.flags impltypeflag_fsource)
    then none
    else if failed entry.ref_type
    then none
    else if failed entry.type_info.0 || entry.type_info.1 == 0
    then none
    else if failed entry.attributes.0 || not entry.attributes.1
    then none
    else some entry.attributes.2

-- The loop of FindDefaultSourceIID from an index on, on fuel; the index is a UINT.
unfoldable pub source_loop : ℕ → (ℕ → Option ImplType) → ℕ → Option (ℕ × ℕ)
source_loop zero impl index = none
source_loop (suc fuel) impl index =
    let rest = source_loop fuel impl ((index + 1) % 2 ^ 32) in
    elim (impl index) [
      | none ↦ some (type_e_elementnotfound, 0)
      | some entry ↦ elim (source_of entry) [ none ↦ rest | some guid ↦ some (s_ok, guid) ]
    ]

module _ (source : TypeSource) where
  open source use {string_from_clsid, clsid_from_string, open_key, default_value}

  -- ReadTypeLibIdFromCLSID: the HRESULT and the GUID.
  pub read_type_lib_id : ℕ → ℕ × ℕ
  read_type_lib_id clsid =
      let (hr, clsid_text) = string_from_clsid clsid in
      if failed hr
      then (hr, 0)
      else let (hr1, key) = open_key (codes "CLSID\\" ++ clsid_text ++ codes "\\TypeLib") in
        if failed hr1
        then (hr1, 0)
        else let (rc, value) = default_value key in
          if not (rc == 0) then (hresult_from_win32 rc, 0) else clsid_from_string value

  -- FindLatestTypeLibVersion: the HRESULT, the major and the minor version; none, if the fuel
  -- runs out, one round more than there are subkeys.
  unfoldable pub find_latest_type_lib_version : ℕ → Option (ℕ × ℕ × ℕ)
  find_latest_type_lib_version libid =
      let (hr, lib_text) = string_from_clsid libid in
      if failed hr
      then some (hr, 0, 0)
      else let (hr1, key) = open_key (codes "TypeLib\\" ++ lib_text) in
        if failed hr1 then some (type_e_libnotregistered, 0, 0) else (do
          (major, minor) ←
              version_loop (source.sub_key_count key + 1) (source.enum_key key) source.scan_version
                0 (0, 0)
          some (
            if not (major == 0) || not (minor == 0) then s_ok else type_e_libnotregistered,
            major,
            minor,
          ))

  unfoldable pub get_type_lib_from_clsid : ℕ → Option (ℕ × Pointer)
  get_type_lib_from_clsid clsid =
      let (hr, libid) = read_type_lib_id clsid in
      if failed hr then some (hr, 0) else (do
        (hr1, major, minor) ← find_latest_type_lib_version libid
        some (if failed hr1 then (hr1, 0) else source.load_reg_type_lib libid major minor))

  -- FindDefaultSourceIID; `wanted`: the result's address is not null. The fuel is one round more
  -- than there are implemented types.
  unfoldable pub find_default_source_iid : Bool → Pointer → Option (ℕ × ℕ)
  find_default_source_iid wanted type_info =
      if type_info == 0 || not wanted
      then some (e_pointer, 0)
      else source_loop (source.impl_count type_info + 1) (source.impl_type type_info) 0

  -- The part of GetClassInfo that does not ask the control.
  unfoldable pub class_info_of_library : Bool → ℕ → Option (ℕ × Pointer)
  class_info_of_library wanted clsid = if not wanted then some (e_pointer, 0) else (do
    (hr, library) ← get_type_lib_from_clsid clsid
    some (
        if failed hr
        then (hr, 0)
        else if library == 0
        then (e_unexpected, 0)
        else source.get_type_info_of_guid library clsid))

  -- GetClassInfo; `underlying`: what the control's GetClassInfo answers, if it has one.
  unfoldable pub get_class_info : Option (ℕ × Pointer) → Bool → ℕ → Option (ℕ × Pointer)
  get_class_info none wanted clsid = class_info_of_library wanted clsid
  get_class_info (some (hr, type_info)) wanted clsid =
      if succeeded hr then some (hr, type_info) else class_info_of_library wanted clsid

  -- The part of GetGUID that does not ask the control's GetGUID.
  unfoldable pub source_of_class_info : Option (ℕ × Pointer) → Bool → ℕ → ℕ → Option (ℕ × ℕ)
  source_of_class_info underlying wanted clsid kind =
      if not wanted
      then some (e_pointer, 0)
      else if not (kind == guidkind_default_source_disp_iid)
      then some (e_invalidarg, 0)
      else (do
        (hr, type_info) ← get_class_info underlying true clsid
        (if failed hr
            then some (hr, 0)
            else if type_info == 0
            then some (e_unexpected, 0)
            else find_default_source_iid true type_info))

  -- GetGUID; `underlying2`: what the control's GetGUID answers, if it has one.
  unfoldable pub get_guid : Option (ℕ × Pointer) → Option (ℕ × ℕ) → Bool → ℕ → ℕ → Option (ℕ × ℕ)
  get_guid underlying none wanted clsid kind = source_of_class_info underlying wanted clsid kind
  get_guid underlying (some (hr, guid)) wanted clsid kind =
      if succeeded hr then some (hr, guid) else source_of_class_info underlying wanted clsid kind
