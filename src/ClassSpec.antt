-- ===== src/ClassSpec.antt =====
-- src/class_spec.h and src/class_spec.cc: what is known of a class to register.
pub mod Sanitize
pub mod Print
use axhost.Common.{
  ℕ, suc, Text, Bool, true, false, not, ◌&&◌, ◌==◌, if◌then◌else◌, ◌++◌, is_empty, Option, none,
  some, List, [], ◌∷◌, get_elem?,
}
use axhost.Common.Hresult.{failed}
use axhost.Common.Qt.{Qt}
use axhost.Common.Flags.{
  bit_or, clsctx_inproc_server, clsctx_local_server, regcls_singleuse, regcls_multi_separate,
}

-- A QUuid: its 128 bits as a number. The null identifier is 0.
abbrev pub Uuid : Type 0
Uuid = ℕ

pub record ClassSpec : Type 0 where
  pub clsid : Uuid
  pub alias : Uuid
  pub clsid_input : Text
  pub alias_input : Text
  pub clsctx_create : ℕ
  pub clsctx_register : ℕ
  pub regcls : ℕ
  pub regcls_explicit : Bool
  pub result : ℕ
  pub error : ℕ

abbrev pub empty_spec : ClassSpec
empty_spec = record {
  clsid = 0;
  alias = 0;
  clsid_input = [];
  alias_input = [];
  clsctx_create = 0;
  clsctx_register = 0;
  regcls = 0;
  regcls_explicit = false;
  result = 0;
  error = 0;
}

-- `parts[k]` where there are more than k parts, and the empty text elsewhere.
abbrev pub part : List Text → ℕ → Text
part parts k = elim (get_elem? parts k) [ none ↦ [] | some s ↦ s ]

-- What CLSIDFromString returns and writes for a text.
module _ (qt : Qt) (clsid_from_string : Text → ℕ × Uuid) where
  open qt use {split, trimmed, to_uint, number}

  -- ClassSpec::fromString, and the texts that it warns about.
  set_clsid : Text → ClassSpec × List Text → ClassSpec × List Text
  set_clsid text (spec, warned) =
      if is_empty text
      then (spec, warned)
      else let input : Text = trimmed text in
        let (hr, id) = clsid_from_string input in
        (
          record spec { clsid_input = input; clsid = id },
          (if failed hr then warned ++ input ∷ [] else warned),
        )

  set_alias : Text → ClassSpec × List Text → ClassSpec × List Text
  set_alias text (spec, warned) =
      if is_empty text
      then (spec, warned)
      else let input : Text = trimmed text in
        let (hr, id) = clsid_from_string input in
        (
          record spec { alias_input = input; alias = id },
          (if failed hr then warned ++ input ∷ [] else warned),
        )

  set_clsctx_create : Text → ClassSpec → ClassSpec
  set_clsctx_create text spec =
      if is_empty text
      then spec
      else let (value, ok) = to_uint text in
        if ok then record spec { clsctx_create = value } else spec

  set_clsctx_register : Text → ClassSpec → ClassSpec
  set_clsctx_register text spec =
      if is_empty text
      then spec
      else let (value, ok) = to_uint text in
        if ok then record spec { clsctx_register = value } else spec

  set_regcls : Text → ClassSpec → ClassSpec
  set_regcls text spec =
      if is_empty text
      then spec
      else let (value, ok) = to_uint text in
        if ok then record spec { regcls = value; regcls_explicit = true } else spec

  unfoldable pub from_string : Text → ClassSpec × List Text
  unfolding set_clsid set_alias set_clsctx_create set_clsctx_register set_regcls
  from_string item =
      let parts : List Text = split item b'/' in
      let (spec, warned) = set_alias (part parts 1) (set_clsid (part parts 0) (empty_spec, [])) in
      (
        set_regcls (part parts 4)
            (set_clsctx_register (part parts 3) (set_clsctx_create (part parts 2) spec)),
        warned,
      )

  -- The operator that reads a specification: `token`, the word that the stream yields, if it does;
  -- and the texts that are warned about.
  pub read_spec : Option Text → ClassSpec → ClassSpec × List Text
  read_spec none out = (out, [])
  read_spec (some token) out = from_string token

-- The operator that prints a specification; `number` writes a DWORD in decimal digits.
pub print : Qt → ClassSpec → Text
print qt s =
    s.clsid_input
    ++ b'/'
      ∷ (s.alias_input
          ++ b'/'
            ∷ (qt.number s.clsctx_create
                ++ b'/' ∷ (qt.number s.clsctx_register ++ b'/' ∷ qt.number s.regcls)))

unfoldable pub sanitize : ℕ → ClassSpec → ClassSpec
sanitize regcls s = record s {
  alias_input = if is_empty s.alias_input then s.clsid_input else s.alias_input;
  alias = if s.alias == 0 then s.clsid else s.alias;
  clsctx_create = if s.clsctx_create == 0 then clsctx_inproc_server else s.clsctx_create;
  clsctx_register = if s.clsctx_register == 0 then clsctx_local_server else s.clsctx_register;
  regcls =
      if not s.regcls_explicit
      then (if regcls == 0 then bit_or regcls_singleuse regcls_multi_separate else regcls)
      else s.regcls;
}
