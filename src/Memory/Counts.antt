-- ===== src/Memory/Counts.antt =====
-- How often objects are pointed to.
use axhost.Common.{
  ℕ, zero, suc, ◌+◌, ◌≤◌, ◌≡◌, ◌≢◌, refl, ap, ◌==◌, if◌then◌else◌, List, [], ◌∷◌, ◌++◌, Option,
  none, some, length, get_elem?, arith, Bool-cases, inl, inr,
}
use axhost.Memory.{Address, Cell, Memory, members, set, strength, total}

-- How often an address stands in a list.
abbrev pub occ : Address → List Address → ℕ
occ i [] = 0
occ i (j ∷ js) = (if j == i then 1 else 0) + occ i js

pub occ-append : (i : Address) (js ks : List Address) → occ i (js ++ ks) ≡ occ i js + occ i ks
occ-append i [] ks = omega arith
occ-append i (j ∷ js) ks = omega (arith, occ-append i js ks)

-- How often the members of one object point to an address, as long as it is not deleted.
abbrev pub weight : Address → Cell → ℕ
weight i c = if c.object.deleted then 0 else occ i (members c.kind)

abbrev pub inner : Address → Memory → ℕ
inner i [] = 0
inner i (c ∷ m) = weight i c + inner i m

abbrev pub strength_of : Option Cell → ℕ
strength_of none = 0
strength_of (some c) = strength c

pub inner-set :
    (m : Memory) (i j : Address) (c d : Cell)
    → get_elem? m j ≡ some c
    → inner i (set m j d) + weight i c ≡ inner i m + weight i d
inner-set [] i j c d h = cc
inner-set (x ∷ m) i zero c d h = let same : x ≡ c = ground (arith, h) in rw same omega arith
inner-set (x ∷ m) i (suc j) c d h = omega (arith, inner-set m i j c d h)

pub total-set :
    (m : Memory) (j : Address) (c d : Cell)
    → get_elem? m j ≡ some c
    → total (set m j d) + strength c ≡ total m + strength d
total-set [] j c d h = cc
total-set (x ∷ m) zero c d h = let same : x ≡ c = ground (arith, h) in rw same omega arith
total-set (x ∷ m) (suc j) c d h = omega (arith, total-set m j c d h)

pub inner-append : (m n : Memory) (i : Address) → inner i (m ++ n) ≡ inner i m + inner i n
inner-append [] n i = omega arith
inner-append (x ∷ m) n i = omega (arith, inner-append m n i)

pub inner-get :
    (m : Memory) (i j : Address) (c : Cell) → get_elem? m j ≡ some c → weight i c ≤ inner i m
inner-get [] i j c h = cc
inner-get (x ∷ m) i zero c h = let same : x ≡ c = ground (arith, h) in rw same omega arith
inner-get (x ∷ m) i (suc j) c h = omega (arith, inner-get m i j c h)

pub total-get :
    (m : Memory) (j : Address) (c : Cell) → get_elem? m j ≡ some c → strength c ≤ total m
total-get [] j c h = cc
total-get (x ∷ m) zero c h = let same : x ≡ c = ground (arith, h) in rw same omega arith
total-get (x ∷ m) (suc j) c h = omega (arith, total-get m j c h)

pub get_elem?-set_self :
    (m : Memory) (j : Address) (c d : Cell)
    → get_elem? m j ≡ some c
    → get_elem? (set m j d) j ≡ some d
get_elem?-set_self [] j c d h = cc
get_elem?-set_self (x ∷ m) zero c d h = refl
get_elem?-set_self (x ∷ m) (suc j) c d h = get_elem?-set_self m j c d h

pub get_elem?-set_ne :
    (m : Memory) (i j : Address) (d : Cell) → i ≢ j → get_elem? (set m j d) i ≡ get_elem? m i
get_elem?-set_ne [] i j d h = refl
get_elem?-set_ne (x ∷ m) zero zero d h = absurd (h refl)
get_elem?-set_ne (x ∷ m) zero (suc j) d h = refl
get_elem?-set_ne (x ∷ m) (suc i) zero d h = refl
get_elem?-set_ne (x ∷ m) (suc i) (suc j) d h = get_elem?-set_ne m i j d (λ e. h (ap suc e))

-- In `if` form.
pub get_elem?-set :
    (m : Memory) (i j : Address) (c d : Cell)
    → get_elem? m j ≡ some c
    → get_elem? (set m j d) i ≡ (if i == j then some d else get_elem? m i)
get_elem?-set m i j c d h = elim (Bool-cases (i == j)) [
  | inl e ↦ let same : i ≡ j = ground (arith, e) in rw e rw same (get_elem?-set_self m j c d h)
  | inr n ↦ rw n (get_elem?-set_ne m i j d (ground (arith, n)))
]

pub get_elem?-append :
    (m : Memory) (i : Address) (c d : Cell)
    → get_elem? m i ≡ some c
    → get_elem? (m ++ d ∷ []) i ≡ some c
get_elem?-append [] i c d h = cc
get_elem?-append (x ∷ m) zero c d h = h
get_elem?-append (x ∷ m) (suc i) c d h = get_elem?-append m i c d h

pub get_elem?-length : (m : Memory) (d : Cell) → get_elem? (m ++ d ∷ []) (length m) ≡ some d
get_elem?-length [] d = refl
get_elem?-length (x ∷ m) d = get_elem?-length m d

pub strength_of-length : (m : Memory) → strength_of (get_elem? m (length m)) ≡ 0
strength_of-length [] = refl
strength_of-length (x ∷ m) = strength_of-length m

-- An object that is added uncounted strengthens nothing.
pub strength_of-append :
    (m : Memory) (i : Address) (d : Cell)
    → strength d ≡ 0
    → strength_of (get_elem? (m ++ d ∷ []) i) ≡ strength_of (get_elem? m i)
strength_of-append [] zero d h = h
strength_of-append [] (suc i) d h = refl
strength_of-append (x ∷ m) zero d h = refl
strength_of-append (x ∷ m) (suc i) d h = strength_of-append m i d h
