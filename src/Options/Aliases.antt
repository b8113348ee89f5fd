-- ===== src/Options/Aliases.antt =====
-- The options that the help leaves out.
use axhost.Common.{
  ℕ, zero, suc, Bool, true, ◌≡◌, refl, ap, ◌∙◌, List, [], ◌∷◌, Option, none, some, get_elem?, map,
}
use mathlib.Core.Option.{some-injective}
use axhost.Options.{Entry, Action, TypeName, Transform, options}

-- What an option does, apart from its names and its help.
abbrev pub Effect : Type 0
Effect = Action × TypeName × Transform × Bool

abbrev pub effect : Entry → Effect
effect e = (e.action, e.type_name, e.transform, e.many)

-- For each option, the position of the shown one that stands for it.
abbrev partners : List ℕ
partners =
    0 ∷ 1 ∷ 0 ∷ 1 ∷ 4 ∷ 5 ∷ 6 ∷ 7 ∷ 8 ∷ 8 ∷ 10 ∷ 10 ∷ 12 ∷ 12 ∷ 14 ∷ 14 ∷ 16 ∷ 16 ∷ 18 ∷ 18 ∷ 20
    ∷ 20 ∷ 22 ∷ 22 ∷ 24 ∷ 24 ∷ 26 ∷ 26 ∷ 28 ∷ 28 ∷ 30 ∷ 30 ∷ 32 ∷ 32 ∷ 34 ∷ 34 ∷ 36 ∷ 36 ∷ []

view : Option Entry → Option (Bool × Effect)
view none = none
view (some e) = some (e.shown, effect e)

view-some :
    (o : Option Entry) (shown : Bool) (eff : Effect)
    → view o ≡ some (shown, eff)
    → (d : Entry) × (o ≡ some d) × (d.shown ≡ shown) × (effect d ≡ eff)
unfolding view
view-some none shown eff h = cc
view-some (some d) shown eff h =
    let same = some-injective _ _ h in (d, refl, ap (λ v. v.0) same, ap (λ v. v.1) same)

get_elem?-map :
    {A B : Type 0} (f : A → B) (xs : List A) (i : ℕ) (a : A)
    → get_elem? xs i ≡ some a
    → get_elem? (map f xs) i ≡ some (f a)
get_elem?-map f [] i a h = cc
get_elem?-map f (x ∷ xs) zero a h = ap (λ y. some (f y)) (some-injective _ _ h)
get_elem?-map f (x ∷ xs) (suc i) a h = get_elem?-map f xs i a h

map-get_elem? :
    {A B : Type 0} (f : A → B) (xs : List A) (i : ℕ) (b : B)
    → get_elem? (map f xs) i ≡ some b
    → (a : A) × (f a ≡ b)
map-get_elem? f [] i b h = cc
map-get_elem? f (x ∷ xs) zero b h = (x, some-injective _ _ h)
map-get_elem? f (x ∷ xs) (suc i) b h = map-get_elem? f xs i b h

partners-options :
    map (λ p. view (get_elem? options p)) partners ≡ map (λ e. some (true, effect e)) options
unfolding view
partners-options = refl

-- For every option there is one that the help shows and that does the same: it has the same
-- action, takes as many values of the same kind and transforms them in the same way.
pub options-shown :
    (i : ℕ) (e : Entry)
    → get_elem? options i ≡ some e
    → (j : ℕ) × (d : Entry) × (get_elem? options j ≡ some d)
      × (d.shown ≡ true)
      × (effect d ≡ effect e)
options-shown i e h =
    let at = get_elem?-map (λ d. some (true, effect d)) options i e h in
    let (j, same) =
      map-get_elem? (λ p. view (get_elem? options p)) partners i _
        (ap (λ xs. get_elem? xs i) partners-options ∙ at) in
    let shown = view-some (get_elem? options j) true (effect e) same in
    (j, shown.0, shown.1, shown.2, shown.3)
