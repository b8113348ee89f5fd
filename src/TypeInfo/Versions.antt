-- ===== src/TypeInfo/Versions.antt =====
-- Which version of a type library is found.
use axhost.Common.{
  Bool-cases, subst, ◌++◌, codes, ℕ, false, not, ◌||◌, ◌==◌, ◌≡◌, ◌≤◌, ◌<◌, ◌⊎◌, inl, inr,
  if◌then◌else◌, List, [], ◌∷◌, Option, none, some, arith, refl, Text, All, sym, ap, ◌∙◌,
}
use axhost.Common.Hresult.{failed, s_ok, type_e_libnotregistered}
use axhost.TypeInfo.{TypeSource, later_version, find_latest_type_lib_version}
use axhost.TypeInfo.Ending.{latest_of, names_from, Ends, version_loop_keys}

-- Lexicographic.
abbrev pub NotAfter : ℕ × ℕ → ℕ × ℕ → Type 0
NotAfter (x, y) (major, minor) = (x < major) ⊎ ((x ≡ major) × (y ≤ minor))

-- Both numbers fit a USHORT.
abbrev pub Fits : Option (ℕ × ℕ) → Type 0
Fits none = Unit
Fits (some (x, y)) = (x < 65536) × (y < 65536)

abbrev pub AtMost : ℕ × ℕ → Option (ℕ × ℕ) → Type 0
AtMost best none = Unit
AtMost best (some v) = NotAfter v best

-- Some name is scanned as the version.
abbrev pub Names : (Text → Option (ℕ × ℕ)) → List Text → ℕ × ℕ → Type 0
Names scan [] v = ⊥
Names scan (name ∷ names) v = (scan name ≡ some v) ⊎ Names scan names v

NotAfter-trans : (a b c : ℕ × ℕ) → NotAfter a b → NotAfter b c → NotAfter a c
NotAfter-trans a b c h i = ground arith

AtMost-trans : (o : Option (ℕ × ℕ)) (a b : ℕ × ℕ) → AtMost a o → NotAfter a b → AtMost b o
AtMost-trans none a b h i = tt
AtMost-trans (some v) a b h i = NotAfter-trans v a b h i

later_version-after :
    (o : Option (ℕ × ℕ)) (best : ℕ × ℕ)
    → Fits o
    → NotAfter best (later_version o best) × AtMost (later_version o best) o
unfolding later_version
later_version-after none best h = ground arith
later_version-after (some v) best h = ground arith

later_version-either :
    (o : Option (ℕ × ℕ)) (best : ℕ × ℕ)
    → Fits o
    → (later_version o best ≡ best) ⊎ (o ≡ some (later_version o best))
unfolding later_version
later_version-either none best h = inl refl
later_version-either (some v) best h = ground arith

Names-cons :
    (scan : Text → Option (ℕ × ℕ)) (name : Text) (names : List Text) (best best1 v : ℕ × ℕ)
    → (best1 ≡ best) ⊎ (scan name ≡ some best1)
    → (v ≡ best1) ⊎ Names scan names v
    → (v ≡ best) ⊎ Names scan (name ∷ names) v
Names-cons scan name names best best1 v (inl h) (inl i) = inl (i ∙ h)
Names-cons scan name names best best1 v (inr h) (inl i) = inr (inl (h ∙ ap some (sym i)))
Names-cons scan name names best best1 v h (inr i) = inr (inr i)

latest_of-after :
    (scan : Text → Option (ℕ × ℕ)) (names : List Text) (best : ℕ × ℕ)
    → All (λ name. Fits (scan name)) names
    → let found = latest_of scan names best in
      NotAfter best found
      × All (λ name. AtMost found (scan name)) names
      × ((found ≡ best) ⊎ Names scan names found)
latest_of-after scan [] best h = (ground arith, tt, inl refl)
latest_of-after scan (name ∷ names) best h =
    let best1 = later_version (scan name) best in
    let one = later_version-after (scan name) best h.0 in
    let rest = latest_of-after scan names best1 h.1 in
    (
      NotAfter-trans best best1 (latest_of scan names best1) one.0 rest.0,
      (AtMost-trans (scan name) best1 (latest_of scan names best1) one.1 rest.0, rest.1),
      Names-cons scan name names best best1 (latest_of scan names best1)
          (later_version-either (scan name) best h.0) rest.2,
    )

-- Success and a version that a name gives, none of which gives a later one; or the library is not
-- registered and no name gives a version after 0.0.
abbrev pub Latest : (Text → Option (ℕ × ℕ)) → List Text → ℕ × ℕ × ℕ → Type 0
Latest scan names (hr, major, minor) =
    ((hr ≡ s_ok)
      × Names scan names (major, minor)
      × All (λ name. AtMost (major, minor) (scan name)) names)
    ⊎ ((hr ≡ type_e_libnotregistered) × All (λ name. AtMost (0, 0) (scan name)) names)

found-Latest :
    (scan : Text → Option (ℕ × ℕ)) (names : List Text) (found : ℕ × ℕ)
    → All (λ name. AtMost found (scan name)) names
    → (found ≡ (0, 0)) ⊎ Names scan names found
    → Latest scan names (
      if not (found.0 == 0) || not (found.1 == 0) then s_ok else type_e_libnotregistered,
      found.0,
      found.1,
    )
found-Latest scan names found h (inl i) = inr (
  ground (arith, ap (λ v. v.0) i, ap (λ v. v.1) i),
  subst (λ v. All (λ name. AtMost v (scan name)) names) i h,
)
found-Latest scan names found h (inr i) =
    elim (Bool-cases (not (found.0 == 0) || not (found.1 == 0))) [
      | inl t ↦ inl (ground (arith, t), i, h)
      | inr f ↦ inr (
        ground (arith, f),
        subst (λ v. All (λ name. AtMost v (scan name)) names) (ground (arith, f)) h,
      )
    ]

-- FindLatestTypeLibVersion of a type library whose key opens and has fewer than 2^32 subkeys, if
-- all versions below the key fit 16 bits: it returns, and succeeds with the latest version,
-- lexicographically, that the name of a subkey gives, up to the first that cannot be read; or
-- it reports an unregistered library, and then no such name gives a version after 0.0.
pub find_latest_type_lib_version-Latest :
    (source : TypeSource) (libid : ℕ)
    → Ends source
    → failed (source.string_from_clsid libid).0 ≡ false
    → let opened = source.open_key (codes "TypeLib\\" ++ (source.string_from_clsid libid).1) in
      failed opened.0 ≡ false
      → let names = names_from (source.sub_key_count opened.1) (source.enum_key opened.1) 0 in
        All (λ name. Fits (source.scan_version name)) names
        → (out : ℕ × ℕ × ℕ) × (find_latest_type_lib_version source libid ≡ some out)
          × Latest source.scan_version names out
unfolding find_latest_type_lib_version
find_latest_type_lib_version-Latest source libid ends ok ok1 h =
    let key = (source.open_key (codes "TypeLib\\" ++ (source.string_from_clsid libid).1)).1 in
    let names = names_from (source.sub_key_count key) (source.enum_key key) 0 in
    let latest = latest_of source.scan_version names (0, 0) in
    let found = latest_of-after source.scan_version names (0, 0) h in
    (
      (
        if not (latest.0 == 0) || not (latest.1 == 0) then s_ok else type_e_libnotregistered,
        latest.0,
        latest.1,
      ),
      rw ok rw ok1 rw (version_loop_keys source ends key) refl,
      found-Latest source.scan_version names latest found.1 found.2,
    )
