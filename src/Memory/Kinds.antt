-- ===== src/Memory/Kinds.antt =====
-- Objects keep their class, and what a member points to is of the member's class.
use axhost.Common.{
  if-false, zero, suc, ◌≡◌, refl, ap, sym, subst, ◌∙◌, false, ◌==◌, [], ◌∷◌, ◌++◌, Option, none,
  some, get_elem?, arith, ◌⊎◌, Bool-cases, inl, inr,
}
use mathlib.Core.Option.{some-injective}
use axhost.Memory.{
  point_container, point, point_enum, connection_enum, sink, Address, Kind, Cell, Memory, set,
}
use axhost.Memory.Counts.{get_elem?-set, get_elem?-append}
use axhost.Memory.Balance.{Dead, shape, shape_of}

abbrev pub SameKinds : Memory → Memory → Type 0
SameKinds m m' =
    (i : Address) (k : Kind)
    → shape_of (get_elem? m i) ≡ some k
    → shape_of (get_elem? m' i) ≡ some k

pub set-SameKinds :
    (m : Memory) (j : Address) (c d : Cell)
    → get_elem? m j ≡ some c
    → shape d.kind ≡ shape c.kind
    → SameKinds m (set m j d)
set-SameKinds m j c d e same i k h =
    let at = get_elem?-set m i j c d e in
    elim (Bool-cases (i == j)) [
      | inl t ↦
          let eq : i ≡ j = ground (arith, t) in
          let was : some (shape c.kind) ≡ some k =
            ap shape_of (sym e) ∙ subst (λ x. shape_of (get_elem? m x) ≡ some k) eq h in
          rw at rw t (ap some same ∙ was)
      | inr n ↦ rw at rw n h
    ]

pub shape_of-some :
    (o : Option Cell) (k : Kind)
    → shape_of o ≡ some k
    → (c : Cell) × (o ≡ some c) × (some (shape c.kind) ≡ some k)
shape_of-some none k h = cc
shape_of-some (some c) k h = (c, refl, h)

-- Only an object that lives is written to.
pub set-Dead :
    (m : Memory) (j : Address) (c d : Cell)
    → get_elem? m j ≡ some c
    → c.object.deleted ≡ false
    → (i : Address) → Dead i m
    → Dead i (set m j d)
set-Dead m j c d e live i (x, at, dead) = elim (Bool-cases (i == j)) [
  | inl t ↦
      let eq : i ≡ j = ground (arith, t) in
      let same : x ≡ c = some-injective _ _ (sym at ∙ ap (λ k. get_elem? m k) eq ∙ e) in
      absurd (let no : x.object.deleted ≡ false = rw same live in cc)
  | inr n ↦ (x, get_elem?-set m i j c d e ∙ if-false (some d) (get_elem? m i) (i == j) n ∙ at, dead)
]

pub append-Dead : (m : Memory) (d : Cell) (i : Address) → Dead i m → Dead i (m ++ d ∷ [])
append-Dead m d i (x, at, dead) = (x, get_elem?-append m i x d at, dead)

pub append-SameKinds : (m : Memory) (d : Cell) → SameKinds m (m ++ d ∷ [])
append-SameKinds m d i k h =
    let (c, e, same) = shape_of-some (get_elem? m i) k h in rw (get_elem?-append m i c d e) same

-- The class has a container and a map by cookie.
abbrev pub IsPoint : Address → Memory → Type 0
IsPoint this m = (container : Address) × (shape_of (get_elem? m this) ≡ some (point container []))

abbrev pub IsContainer : Address → Memory → Type 0
IsContainer this m = shape_of (get_elem? m this) ≡ some (point_container [])

-- The members of an object other than its maps are of their classes.
abbrev pub Fits : Memory → Kind → Type 0
Fits m (point_container proxies) = Unit
Fits m (point container connections) = IsContainer container m
Fits m (point_enum container) = IsContainer container m
Fits m (connection_enum p) = IsPoint p m
Fits m sink = Unit

abbrev pub Typed : Memory → Type 0
Typed m = (i : Address) (k : Kind) → shape_of (get_elem? m i) ≡ some k → Fits m k

pub Fits-SameKinds : (m m' : Memory) (k : Kind) → SameKinds m m' → Fits m k → Fits m' k
Fits-SameKinds m m' (point_container proxies) same h = tt
Fits-SameKinds m m' (point container connections) same h = same container _ h
Fits-SameKinds m m' (point_enum container) same h = same container _ h
Fits-SameKinds m m' (connection_enum p) same h = (h.0, same p _ h.1)
Fits-SameKinds m m' sink same h = tt

Fits-shape : (m : Memory) (k : Kind) → Fits m k → Fits m (shape k)
Fits-shape m (point_container proxies) h = h
Fits-shape m (point container connections) h = h
Fits-shape m (point_enum container) h = h
Fits-shape m (connection_enum p) h = h
Fits-shape m sink h = h

-- No class of an object is new.
abbrev pub OldKinds : Memory → Memory → Type 0
OldKinds m m' = SameKinds m' m

pub Typed-old : (m m' : Memory) → SameKinds m m' → OldKinds m m' → Typed m → Typed m'
Typed-old m m' same old typed i k h = Fits-SameKinds m m' k same (typed i k (old i k h))

pub set-Typed :
    (m : Memory) (j : Address) (c d : Cell)
    → get_elem? m j ≡ some c
    → shape d.kind ≡ shape c.kind
    → Typed m
    → Typed (set m j d)
set-Typed m j c d e same typed =
    Typed-old m (set m j d) (set-SameKinds m j c d e same)
      (λ i k h.
        let at = get_elem?-set m i j c d e in
        elim (Bool-cases (i == j)) [
          | inl t ↦
              let eq : i ≡ j = ground (arith, t) in
              let was : shape_of (get_elem? (set m j d) i) ≡ some (shape d.kind) =
                rw at rw t refl in
              let now : some (shape d.kind) ≡ some k = sym was ∙ h in
              rw eq rw e (ap some (sym same) ∙ now)
          | inr n ↦ sym (ap shape_of (at ∙ if-false (some d) (get_elem? m i) (i == j) n)) ∙ h
        ])
      typed

get_elem?-append_inv :
    (m : Memory) (d : Cell) (i : Address) (k : Kind)
    → shape_of (get_elem? (m ++ d ∷ []) i) ≡ some k
    → (shape_of (get_elem? m i) ≡ some k) ⊎ (shape d.kind ≡ k)
get_elem?-append_inv [] d zero k h = inr (some-injective _ _ h)
get_elem?-append_inv [] d (suc i) k h = cc
get_elem?-append_inv (x ∷ m) d zero k h = inl h
get_elem?-append_inv (x ∷ m) d (suc i) k h = get_elem?-append_inv m d i k h

pub append-Typed : (m : Memory) (d : Cell) → Fits m d.kind → Typed m → Typed (m ++ d ∷ [])
append-Typed m d fits typed i k h = elim (get_elem?-append_inv m d i k h) [
  | inl old ↦ Fits-SameKinds m _ k (append-SameKinds m d) (typed i k old)
  | inr new ↦
      Fits-SameKinds m _ k (append-SameKinds m d) (subst (Fits m) new (Fits-shape m d.kind fits))
]
