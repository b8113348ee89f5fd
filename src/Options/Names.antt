-- ===== src/Options/Names.antt =====
-- The names of the options.
use axhost.Common.{
  ℕ, zero, suc, Text, Bool, true, false, not, ◌&&◌, ◌||◌, ◌≡◌, refl, ap, ◌∙◌, List, [], ◌∷◌, some,
  get_elem?, Bool-cases, inl, inr, text_eq, eq_of_text_eq, arith,
}
use mathlib.Core.Option.{some-injective}
use axhost.Options.{Entry, options}

-- Whether a text is one of the names.
abbrev pub is_one_of : Text → List Text → Bool
is_one_of n [] = false
is_one_of n (m ∷ names) = text_eq n m || is_one_of n names

share : List Text → List Text → Bool
share [] names = false
share (n ∷ rest) names = is_one_of n names || share rest names

shares_any : List Text → List Entry → Bool
unfolding share
shares_any names [] = false
shares_any names (e ∷ es) = share names e.names || shares_any names es

distinct : List Entry → Bool
unfolding shares_any
distinct [] = true
distinct (e ∷ es) = not (shares_any e.names es) && distinct es

share_lem :
    (n : Text) (names names' : List Text)
    → is_one_of n names ≡ true
    → is_one_of n names' ≡ true
    → share names names' ≡ true
unfolding share
share_lem n [] names' h h' = cc
share_lem n (m ∷ names) names' h h' = elim (Bool-cases (text_eq n m)) [
  | inl e ↦ let same = eq_of_text_eq n m e in ground (arith, h', ap (λ t. is_one_of t names') same)
  | inr e ↦ ground (arith, h, e, share_lem n names names')
]

shares_any_lem :
    (n : Text) (names : List Text) (es : List Entry) (j : ℕ) (e : Entry)
    → is_one_of n names ≡ true
    → get_elem? es j ≡ some e
    → is_one_of n e.names ≡ true
    → shares_any names es ≡ true
unfolding shares_any
shares_any_lem n names [] j e h at h' = cc
shares_any_lem n names (d ∷ es) zero e h at h' = ground (
  arith,
  at,
  share_lem n names d.names h,
  ap (λ x. is_one_of n x.names) (some-injective _ _ at),
  h',
)
shares_any_lem n names (d ∷ es) (suc j) e h at h' =
    ground (arith, shares_any_lem n names es j e h at h')

distinct_lem :
    (es : List Entry) (i j : ℕ) (d e : Entry) (n : Text)
    → distinct es ≡ true
    → get_elem? es i ≡ some d
    → get_elem? es j ≡ some e
    → is_one_of n d.names ≡ true
    → is_one_of n e.names ≡ true
    → i ≡ j
unfolding distinct
distinct_lem [] i j d e n ok at at' h h' = cc
distinct_lem (c ∷ es) zero zero d e n ok at at' h h' = refl
distinct_lem (c ∷ es) zero (suc j) d e n ok at at' h h' =
    let first = ap (λ x. is_one_of n x.names) (some-injective _ _ at) in
    ground (arith, ok, shares_any_lem n c.names es j e (first ∙ h) at' h')
distinct_lem (c ∷ es) (suc i) zero d e n ok at at' h h' =
    let first = ap (λ x. is_one_of n x.names) (some-injective _ _ at') in
    ground (arith, ok, shares_any_lem n c.names es i d (first ∙ h') at h)
distinct_lem (c ∷ es) (suc i) (suc j) d e n ok at at' h h' =
    ap suc (distinct_lem es i j d e n (ground (arith, ok)) at at' h h')

options-distinct : distinct options ≡ true
unfolding distinct shares_any share
options-distinct = refl

-- No two options have a name in common.
pub options-names :
    (i j : ℕ) (d e : Entry) (n : Text)
    → get_elem? options i ≡ some d
    → get_elem? options j ≡ some e
    → is_one_of n d.names ≡ true
    → is_one_of n e.names ≡ true
    → i ≡ j
options-names i j d e n = distinct_lem options i j d e n options-distinct
