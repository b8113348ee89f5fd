-- ===== src/Memory/Balance.antt =====
-- The counts of the objects are the references that there are: of owners outside, and of the members
-- of objects that were not deleted.
use axhost.Common.{
  ℕ, zero, suc, ◌+◌, ◌^◌, ◌≤◌, ◌<◌, ◌≡◌, refl, ap, sym, ◌∙◌, Bool, true, false, ◌==◌, if◌then◌else◌,
  List, [], ◌∷◌, ◌++◌, Option, none, some, get_elem?, arith, Bool-cases, inl, inr,
}
use axhost.Unknown.{Object, increment, add_ref}
use axhost.Memory.{
  Address, Kind, point_container, point, point_enum, connection_enum, sink, members, Cell, Memory,
  set, Run, ok, Cmd, and_then, load, store, add_reference, strength,
}
use axhost.Memory.Counts.{
  occ, occ-append, weight, inner, strength_of, inner-set, inner-append, get_elem?-set,
  strength_of-append,
}

-- A call returns, and what it returns and leaves behind is as stated.
pub data Returns {A : Type 0} (P : A → Memory → Type 0) : Run A → Type 0 where
  returns : {a : A} {m : Memory} → P a m → Returns P (ok a m)

pub bind :
    {A B : Type 0} {P : A → Memory → Type 0} {Q : B → Memory → Type 0} {r : Run A} {k : A → Cmd B}
    → Returns P r
    → ((a : A) (m : Memory) → P a m → Returns Q (k a m))
    → Returns Q (and_then r k)
bind (returns p) next = next _ _ p

pub mono :
    {A : Type 0} {P Q : A → Memory → Type 0} {r : Run A}
    → Returns P r
    → ((a : A) (m : Memory) → P a m → Q a m)
    → Returns Q r
mono (returns p) weaken = returns (weaken _ _ p)

pub returned :
    {A : Type 0} {P : A → Memory → Type 0} {a : A} {m : Memory} → Returns P (ok a m) → P a m
returned (returns p) = p

-- The counts, with room for `n` further references of each object in 32 bits. `owners`: one entry
-- for each reference that is held from outside.
pub record Balanced (n : ℕ) (owners : List Address) (m : Memory) : Type 0 where
  pub counted : (i : Address) → strength_of (get_elem? m i) ≡ occ i owners + inner i m
  pub room : (i : Address) (c : Cell) → get_elem? m i ≡ some c → c.object.ref + n < 2 ^ 32

-- The class of an object, with the members that never change.
abbrev pub shape : Kind → Kind
shape (point_container proxies) = point_container []
shape (point container connections) = point container []
shape (point_enum container) = point_enum container
shape (connection_enum p) = connection_enum p
shape sink = sink

abbrev pub shape_of : Option Cell → Option Kind
shape_of none = none
shape_of (some c) = some (shape c.kind)

-- An object that was not deleted.
abbrev pub Lives : Address → Memory → Type 0
Lives i m = (c : Cell) × (get_elem? m i ≡ some c) × (c.object.deleted ≡ false)

pub strong-Lives :
    (o : Option Cell) → 0 < strength_of o → (c : Cell) × (o ≡ some c) × (c.object.deleted ≡ false)
strong-Lives none h = absurd (omega arith)
strong-Lives (some c) h = (c, refl, ground (arith, h))

-- An object that was deleted.
abbrev pub Dead : Address → Memory → Type 0
Dead i m = (c : Cell) × (get_elem? m i ≡ some c) × (c.object.deleted ≡ true)

-- An object that nobody has counted yet.
abbrev pub fresh : Kind → Cell
fresh kind = record { object = record { ref = 0; deleted = false }; kind = kind }

-- Whoever owns a reference owns it of an object that lives.
pub owned-Lives :
    (n : ℕ) (owners : List Address) (m : Memory) (i : Address)
    → Balanced n owners m
    → 0 < occ i owners
    → Lives i m
owned-Lives n owners m i b h = strong-Lives (get_elem? m i) (omega (arith, b.counted i))

pub load-Lives :
    (i : Address) (m : Memory) (c : Cell)
    → get_elem? m i ≡ some c
    → c.object.deleted ≡ false
    → load i m ≡ ok c m
unfolding load
load-Lives i m c e d = rw e rw d refl

-- A cell is written that differs in its count, and may be deleted thereby.
abbrev pub recounted : Cell → ℕ → Bool → Cell
recounted c n deleted = record c { object = record { ref = n; deleted = deleted } }

add_ref_lem :
    (o : Object)
    → o.deleted ≡ false
    → o.ref + 1 < 2 ^ 32
    → (add_ref o).1 ≡ record { ref = o.ref + 1; deleted = false }
unfolding add_ref
add_ref_lem o d h = let n : increment o.ref ≡ o.ref + 1 = omega arith in rw n ground (arith, d)

pub add_reference_lem :
    (i : Address) (m : Memory) (c : Cell)
    → get_elem? m i ≡ some c
    → c.object.deleted ≡ false
    → c.object.ref + 1 < 2 ^ 32
    → add_reference i m ≡ ok tt (set m i (recounted c (c.object.ref + 1) false))
unfolding add_reference store
add_reference_lem i m c e d h = rw (load-Lives i m c e d) rw (add_ref_lem c.object d h) refl

-- The counts after a write to one object.
pub set-Balanced :
    (n n' : ℕ) (before after : List Address) (m : Memory) (j : Address) (c d : Cell)
    → get_elem? m j ≡ some c
    → d.object.ref + n' < 2 ^ 32
    → n' ≤ n
    → ((i : Address)
        → (if i == j then strength d else 0) + occ i before + weight i c
          ≡ (if i == j then strength c else 0) + occ i after + weight i d)
    → Balanced n before m
    → Balanced n' after (set m j d)
set-Balanced n n' before after m j c d e small le same b = record {
  counted = λ i.
      let at = get_elem?-set m i j c d e in
      let in_m = inner-set m i j c d e in
      elim (Bool-cases (i == j)) [
        | inl t ↦
            let eq : i ≡ j = ground (arith, t) in
            let was : strength_of (get_elem? m i) ≡ strength c = rw eq rw e refl in
            let now : strength_of (get_elem? (set m j d) i) ≡ strength d = rw at rw t refl in
            let here = same i in ground (arith, was, now, here, in_m, b.counted i, t)
        | inr f ↦
            let now : strength_of (get_elem? (set m j d) i) ≡ strength_of (get_elem? m i) =
              rw at rw f refl in
            let here = same i in ground (arith, now, here, in_m, b.counted i, f)
      ];
  room = λ i x h.
      let at = get_elem?-set m i j c d e in
      elim (Bool-cases (i == j)) [
        | inl t ↦ ground (arith, at, t, h, small)
        | inr f ↦ ground (arith, at, f, h, b.room i x, le)
      ];
}

pub add_reference-Balanced :
    (n : ℕ) (owners : List Address) (m : Memory) (j : Address) (c : Cell)
    → get_elem? m j ≡ some c
    → c.object.deleted ≡ false
    → Balanced (suc n) owners m
    → Balanced n (j ∷ owners) (set m j (recounted c (c.object.ref + 1) false))
add_reference-Balanced n owners m j c e d b =
    set-Balanced (suc n) n owners (j ∷ owners) m j c _ e (omega (arith, b.room j c e)) (omega arith)
      (λ i. ground (arith, d)) b

-- Whoever owns a reference to an object knows its count to be positive.
pub owned-count :
    (n : ℕ) (owners : List Address) (m : Memory) (j : Address) (c : Cell)
    → Balanced n owners m
    → get_elem? m j ≡ some c
    → 0 < occ j owners
    → (c.object.deleted ≡ false) × (occ j owners + inner j m ≡ c.object.ref)
owned-count n owners m j c b e h =
    let s : strength_of (some c) ≡ occ j owners + inner j m =
      ap strength_of (sym e) ∙ b.counted j in
    ground (arith, s, h)

append-room :
    (n : ℕ) (m : Memory) (d : Cell) (i : Address) (x : Cell)
    → d.object.ref + n < 2 ^ 32
    → ((j : Address) (c : Cell) → get_elem? m j ≡ some c → c.object.ref + n < 2 ^ 32)
    → get_elem? (m ++ d ∷ []) i ≡ some x
    → x.object.ref + n < 2 ^ 32
append-room n [] d zero x small room h = ground (arith, h)
append-room n [] d (suc i) x small room h = cc
append-room n (c ∷ m) d zero x small room h = room zero x h
append-room n (c ∷ m) d (suc i) x small room h = append-room n m d i x small (λ j. room (suc j)) h

-- An object that is made takes over the references of its members.
pub allocate-Balanced :
    (n : ℕ) (owners : List Address) (m : Memory) (kind : Kind)
    → n < 2 ^ 32
    → Balanced n (members kind ++ owners) m
    → Balanced n owners (m ++ fresh kind ∷ [])
allocate-Balanced n owners m kind small b = record {
  counted = λ i. omega (
    arith,
    strength_of-append m i (fresh kind) refl,
    inner-append m (fresh kind ∷ []) i,
    b.counted i,
    occ-append i (members kind) owners,
  );
  room = λ i x h. append-room n m (fresh kind) i x (omega arith) b.room h;
}

-- An object's maps change, and with them who holds the references.
pub replace-Balanced :
    (n : ℕ) (before after : List Address) (m : Memory) (j : Address) (c : Cell) (kind : Kind)
    → get_elem? m j ≡ some c
    → c.object.deleted ≡ false
    → ((i : Address) → occ i before + occ i (members c.kind) ≡ occ i after + occ i (members kind))
    → Balanced n before m
    → Balanced n after (set m j (record c { kind = kind }))
replace-Balanced n before after m j c kind e d same b =
    set-Balanced n n before after m j c (record c { kind = kind }) e (b.room j c e) (omega arith)
      (λ i. let here = same i in ground (arith, here, d)) b
