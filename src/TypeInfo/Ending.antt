-- ===== src/TypeInfo/Ending.antt =====
-- The loops over a registry key and over a type information end.
use axhost.Common.{
  ◌>>=◌, zero, suc, ◌+◌, ◌%◌, ◌^◌, ◌<◌, ◌==◌, ℕ, Bool, true, false, not, ◌||◌, ◌≡◌, refl,
  if◌then◌else◌, List, [], ◌∷◌, ◌++◌, codes, Option, none, some, Text, arith, Bool-cases,
  Option-cases, subst, sym, add_zero, zero_add, inl, inr,
}
use axhost.Common.Hresult.{failed, succeeded}
use axhost.Com.{Pointer}
use axhost.TypeInfo.{
  TypeSource, ImplType, later_version, version_loop, source_of, source_loop,
  find_latest_type_lib_version, get_type_lib_from_clsid, find_default_source_iid,
  class_info_of_library, get_class_info, source_of_class_info, get_guid, read_type_lib_id,
  guidkind_default_source_disp_iid,
}

-- The names at the first `n` indices from one on, up to the first status that is not success.
abbrev pub names_from : ℕ → (ℕ → ℕ × Text) → ℕ → List Text
names_from zero enum index = []
names_from (suc n) enum index =
    let rest = names_from n enum (index + 1) in
    if (enum index).0 == 0 then (enum index).1 ∷ rest else []

-- The last version, of a list of names, that is later than all before it.
abbrev pub latest_of : (Text → Option (ℕ × ℕ)) → List Text → ℕ × ℕ → ℕ × ℕ
latest_of scan [] best = best
latest_of scan (name ∷ names) best = latest_of scan names (later_version (scan name) best)

index_shift : (index n : ℕ) → index + suc n ≡ index + 1 + n
index_shift index n = omega arith

next_index : (index n : ℕ) → index + suc n < 2 ^ 32 → (index + 1) % 2 ^ 32 ≡ index + 1
next_index index n h = omega arith

version_loop-latest_of :
    (n fuel : ℕ) (enum : ℕ → ℕ × Text) (scan : Text → Option (ℕ × ℕ)) (index : ℕ) (best : ℕ × ℕ)
    → n < fuel
    → index + n < 2 ^ 32
    → ((enum (index + n)).0 == 0) ≡ false
    → version_loop fuel enum scan index best ≡ some (latest_of scan (names_from n enum index) best)
unfolding version_loop
version_loop-latest_of n zero enum scan index best f i e = absurd (omega arith)
version_loop-latest_of zero (suc fuel) enum scan index best f i e =
    rw (subst (λ k. ((enum k).0 == 0) ≡ false) (add_zero index) e)
version_loop-latest_of (suc n) (suc fuel) enum scan index best f i e =
    elim (Bool-cases ((enum index).0 == 0)) [
      | inl go ↦ rw go rw (next_index index n i) (
          version_loop-latest_of n fuel enum scan (index + 1)
            (later_version (scan (enum index).1) best) (omega arith) (omega arith)
            (subst (λ k. ((enum k).0 == 0) ≡ false) (index_shift index n) e))
      | inr stop ↦ rw stop
    ]

-- A value is returned.
abbrev pub Returns {ℓ} : {A : Type ℓ} → Option A → Type ℓ
Returns {A} o = (a : A) × (o ≡ some a)

Returns-bind {ℓ κ} :
    {A : Type ℓ} {B : Type κ} (o : Option A) (f : A → Option B)
    → Returns o
    → ((a : A) → Returns (f a))
    → Returns (o >>= f)
Returns-bind o f r h = subst (λ p. Returns (p >>= f)) (sym r.1) (h r.0)

Returns-if {ℓ} :
    {A : Type ℓ} (b : Bool) (x y : Option A) → Returns x → Returns y → Returns (if b then x else y)
Returns-if true x y p q = p
Returns-if false x y p q = q

source_loop-Returns :
    (n fuel : ℕ) (impl : ℕ → Option ImplType) (index : ℕ)
    → n < fuel
    → index + n < 2 ^ 32
    → impl (index + n) ≡ none
    → Returns (source_loop fuel impl index)
unfolding source_loop
source_loop-Returns n zero impl index f i e = absurd (omega arith)
source_loop-Returns zero (suc fuel) impl index f i e =
    let last : impl index ≡ none = subst (λ k. impl k ≡ none) (add_zero index) e in
    rw (last, source_loop) (_, refl)
source_loop-Returns (suc n) (suc fuel) impl index f i e =
    let rest : Returns (source_loop fuel impl ((index + 1) % 2 ^ 32)) = rw (next_index index n i) (
      source_loop-Returns n fuel impl (index + 1) (omega arith) (omega arith)
        (subst (λ k. impl k ≡ none) (index_shift index n) e)) in
    elim (Option-cases (impl index)) [
      | inl last ↦ rw (last, source_loop) (_, refl)
      | inr there ↦
          rw (there.1, source_loop)
            (elim (Option-cases (source_of there.0)) [
              | inl next ↦ rw (next, source_loop) rest
              | inr found ↦ rw (found.1, source_loop) (_, refl)
            ])
    ]

-- What the program relies on: below HKEY_CLASSES_ROOT and in a type information there are fewer
-- than 2^32 entries, and nothing stands behind the last.
pub record Ends (source : TypeSource) : Type 0 where
  pub few_keys : (k : Pointer) → source.sub_key_count k < 2 ^ 32
  pub keys_end : (k : Pointer) → ((source.enum_key k (source.sub_key_count k)).0 == 0) ≡ false
  pub few_types : (t : Pointer) → source.impl_count t < 2 ^ 32
  pub types_end : (t : Pointer) → source.impl_type t (source.impl_count t) ≡ none

module _ (source : TypeSource) (ends : Ends source) where
  pub version_loop_keys :
      (key : Pointer)
      → version_loop
          (source.sub_key_count key + 1)
          (source.enum_key key)
          source.scan_version
          0
          (0, 0)
        ≡ some (
            latest_of source.scan_version
              (names_from (source.sub_key_count key) (source.enum_key key) 0)
              (0, 0))
  version_loop_keys key =
      version_loop-latest_of (source.sub_key_count key) (source.sub_key_count key + 1)
        (source.enum_key key) source.scan_version 0 (0, 0) (omega arith)
        (omega (arith, ends.few_keys key))
        (subst (λ k. ((source.enum_key key k).0 == 0) ≡ false)
          (sym (zero_add (source.sub_key_count key))) (ends.keys_end key))

  find_latest-Returns : (libid : ℕ) → Returns (find_latest_type_lib_version source libid)
  unfolding find_latest_type_lib_version
  find_latest-Returns libid =
      let lib_text = source.string_from_clsid libid in
      let opened = source.open_key (codes "TypeLib\\" ++ lib_text.1) in
      Returns-if (failed lib_text.0) _ _ (_, refl)
        (Returns-if (failed opened.0) _ _ (_, refl) (rw (version_loop_keys opened.1) (_, refl)))

  type_lib-Returns : (clsid : ℕ) → Returns (get_type_lib_from_clsid source clsid)
  unfolding get_type_lib_from_clsid
  type_lib-Returns clsid =
      let lib = read_type_lib_id source clsid in
      Returns-if (failed lib.0) _ _ (_, refl)
        (Returns-bind _ _ (find_latest-Returns lib.1) (λ v. (_, refl)))

  source_iid-Returns :
      (wanted : Bool) (type_info : Pointer)
      → Returns (find_default_source_iid source wanted type_info)
  unfolding find_default_source_iid
  source_iid-Returns wanted type_info =
      Returns-if (type_info == 0 || not wanted) _ _ (_, refl)
        (source_loop-Returns (source.impl_count type_info) _ (source.impl_type type_info) 0
          (omega arith) (omega (arith, ends.few_types type_info))
          (subst (λ k. source.impl_type type_info k ≡ none)
            (sym (zero_add (source.impl_count type_info))) (ends.types_end type_info)))

  library-Returns :
      (wanted : Bool) (clsid : ℕ) → Returns (class_info_of_library source wanted clsid)
  unfolding class_info_of_library
  library-Returns wanted clsid =
      Returns-if (not wanted) _ _ (_, refl)
        (Returns-bind _ _ (type_lib-Returns clsid) (λ v. (_, refl)))

  -- GetClassInfo returns, whatever the control answers: with the control's answer where it
  -- succeeds, and else after a search for the type library that ends.
  pub get_class_info-Returns :
      (underlying : Option (ℕ × Pointer)) (wanted : Bool) (clsid : ℕ)
      → Returns (get_class_info source underlying wanted clsid)
  unfolding get_class_info
  get_class_info-Returns none wanted clsid = library-Returns wanted clsid
  get_class_info-Returns (some (hr, type_info)) wanted clsid =
      Returns-if (succeeded hr) _ _ (_, refl) (library-Returns wanted clsid)

  source_of_class-Returns :
      (underlying : Option (ℕ × Pointer)) (wanted : Bool) (clsid kind : ℕ)
      → Returns (source_of_class_info source underlying wanted clsid kind)
  unfolding source_of_class_info
  source_of_class-Returns underlying wanted clsid kind =
      Returns-if (not wanted) _ _ (_, refl)
        (Returns-if (not (kind == guidkind_default_source_disp_iid)) _ _ (_, refl)
          (Returns-bind _ _ (get_class_info-Returns underlying true clsid) (λ v.
            Returns-if (failed v.0) _ _ (_, refl)
              (Returns-if (v.1 == 0) _ _ (_, refl) (source_iid-Returns true v.1)))))

  -- GetGUID returns, whatever the control answers, if the subkeys of a type library and the types
  -- of a type information end before 2^32: neither the enumeration of the versions of the type
  -- library nor the search for a default source interface goes on for ever.
  pub get_guid-Returns :
      (underlying : Option (ℕ × Pointer)) (underlying2 : Option (ℕ × ℕ)) (wanted : Bool)
      (clsid kind : ℕ)
      → Returns (get_guid source underlying underlying2 wanted clsid kind)
  unfolding get_guid
  get_guid-Returns underlying none wanted clsid kind =
      source_of_class-Returns underlying wanted clsid kind
  get_guid-Returns underlying (some (hr, guid)) wanted clsid kind =
      Returns-if (succeeded hr) _ _ (_, refl) (source_of_class-Returns underlying wanted clsid kind)
