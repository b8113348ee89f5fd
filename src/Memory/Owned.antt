-- ===== src/Memory/Owned.antt =====
-- What the operations on references do to the references that there are.
use axhost.Common.{
  ℕ, zero, suc, ◌+◌, ◌-◌, ◌^◌, ◌≤◌, ◌<◌, ◌≡◌, refl, ap, sym, subst, ◌∙◌, true, false, List, [], ◌∷◌,
  ◌++◌, append_assoc, some, get_elem?, arith, ◌⊎◌, inl, inr,
}
use mathlib.Core.Option.{some-injective}
use axhost.Memory.{
  point_container, point, point_enum, connection_enum, sink, Address, Kind, members, Cell, Memory,
  Run, allocate, add_reference, drop, release_all, release_reference, total,
}
use axhost.Memory.Counts.{weight, inner-get, occ, total-set, get_elem?-set_self, get_elem?-length}
use axhost.Memory.Balance.{
  Returns, returns, bind, mono, Dead, fresh, strong-Lives, Balanced, shape, shape_of, Lives,
  owned-Lives, recounted, add_reference_lem, add_reference-Balanced, allocate-Balanced,
}
use axhost.Memory.Dropped.{Dropped, more, last, drop-Dropped, more-Balanced, last-Balanced}
use axhost.Memory.Kinds.{
  SameKinds, set-SameKinds, set-Dead, append-Dead, append-SameKinds, Fits, Typed, set-Typed,
  append-Typed,
}
use axhost.Memory.Cycle.{Keeps, recounted-Linked, last-Linked, append-Linked}

-- After a call the counts are the references again, objects are what they were, no cycle of a
-- container and its proxy is broken, what was deleted stays so, and members keep to their classes.
pub record Stable (n : ℕ) (owners : List Address) (m m' : Memory) : Type 0 where
  pub balanced : Balanced n owners m'
  pub kinds : SameKinds m m'
  pub linked : Keeps m m'
  pub dead : (i : Address) → Dead i m → Dead i m'
  pub typed : Typed m → Typed m'

pub Stable-refl :
    {n : ℕ} {owners : List Address} {m : Memory} → Balanced n owners m → Stable n owners m m
Stable-refl b = record {
  balanced = b;
  kinds = λ i k h. h;
  linked = λ c p h. h;
  dead = λ i h. h;
  typed = λ h. h;
}

pub Stable-trans :
    {n n' : ℕ} {o o' : List Address} {m m' m'' : Memory}
    → Stable n o m m'
    → Stable n' o' m' m''
    → Stable n' o' m m''
Stable-trans s t = record {
  balanced = t.balanced;
  kinds = λ i k h. t.kinds i k (s.kinds i k h);
  linked = λ c p h. t.linked c p (s.linked c p h);
  dead = λ i h. t.dead i (s.dead i h);
  typed = λ h. t.typed (s.typed h);
}

-- Less room is asked for.
pub Balanced-less :
    {n n' : ℕ} {o : List Address} {m : Memory} → n' ≤ n → Balanced n o m → Balanced n' o m
Balanced-less le b = record { counted = b.counted; room = λ i c h. omega (arith, b.room i c h) }

-- AddRef of an object that lives makes one owner more.
pub add_reference-counts :
    (n : ℕ) (owners : List Address) (m : Memory) (i : Address) (c : Cell)
    → get_elem? m i ≡ some c
    → c.object.deleted ≡ false
    → Balanced (suc n) owners m
    → Returns
        (λ u m'.
          Stable n (i ∷ owners) m m'
          × (get_elem? m' i ≡ some (recounted c (c.object.ref + 1) false)))
        (add_reference i m)
add_reference-counts n owners m i c e d b =
    rw (add_reference_lem i m c e d (omega (arith, b.room i c e))) (
      returns (
        record {
          balanced = add_reference-Balanced n owners m i c e d b;
          kinds = set-SameKinds m i c _ e refl;
          linked = λ a p h. recounted-Linked a p m i c _ e h;
          dead = set-Dead m i c _ e d;
          typed = set-Typed m i c _ e refl;
        },
        get_elem?-set_self m i c _ e,
      ))

pub add_reference-Returns :
    (n : ℕ) (owners : List Address) (m : Memory) (i : Address)
    → Lives i m
    → Balanced (suc n) owners m
    → Returns (λ u m'. Stable n (i ∷ owners) m m') (add_reference i m)
add_reference-Returns n owners m i (c, e, d) b =
    mono (add_reference-counts n owners m i c e d b) λ u m' h. h.0

Dropped-Returns :
    {n : ℕ} {owners : List Address} {m : Memory} {j : Address} {c : Cell} {r : Run (List Address)}
    → get_elem? m j ≡ some c
    → c.object.deleted ≡ false
    → Balanced n (j ∷ owners) m
    → Dropped j m c r
    → Returns (λ freed m'. Stable n (freed ++ owners) m m' × (total m' < total m)) r
Dropped-Returns {n} {owners} {m} {j} {c} e d b (more h) = returns (
  record {
    balanced = more-Balanced n owners m j c e d h b;
    kinds = set-SameKinds m j c _ e refl;
    linked = λ a p l. recounted-Linked a p m j c _ e l;
    dead = set-Dead m j c _ e d;
    typed = set-Typed m j c _ e refl;
  },
  ground (arith, total-set m j c (recounted c (c.object.ref - 1) false) e, d, h),
)
Dropped-Returns {n} {owners} {m} {j} {c} e d b (last h) = returns (
  record {
    balanced = last-Balanced n owners m j c e d h b;
    kinds = set-SameKinds m j c _ e refl;
    linked = λ a p l. last-Linked n owners a p m j c e h b l;
    dead = set-Dead m j c _ e d;
    typed = set-Typed m j c _ e refl;
  },
  ground (arith, total-set m j c (recounted c 0 true) e, d, h),
)

-- A release passes what the deleted object pointed to on, and there is one reference less.
pub drop-Returns :
    (n : ℕ) (owners : List Address) (m : Memory) (j : Address)
    → Balanced n (j ∷ owners) m
    → Returns (λ freed m'. Stable n (freed ++ owners) m m' × (total m' < total m)) (drop j m)
drop-Returns n owners m j b =
    let own : 0 < occ j (j ∷ owners) = ground arith in
    let (c, e, d) = owned-Lives n (j ∷ owners) m j b own in
    Dropped-Returns e d b (drop-Dropped n owners m j c e b)

-- A list of releases ends, destructors included, if the fuel is more than there are references.
pub release_all-Returns :
    (n fuel : ℕ) (pending owners : List Address) (m : Memory)
    → total m < fuel
    → Balanced n (pending ++ owners) m
    → Returns (λ u m'. Stable n owners m m') (release_all fuel pending m)
unfolding release_all
release_all-Returns n fuel [] owners m f b = returns (Stable-refl b)
release_all-Returns n zero (i ∷ rest) owners m f b = absurd (omega arith)
release_all-Returns n (suc fuel) (i ∷ rest) owners m f b =
    bind (drop-Returns n (rest ++ owners) m i b) λ freed m1 h.
      mono
        (release_all-Returns n fuel (freed ++ rest) owners m1 (omega (arith, h.1))
          (subst (λ os. Balanced n os m1) (sym (append_assoc freed rest owners)) h.0.balanced))
        λ u m2 k. Stable-trans h.0 k

-- A release of an owned reference returns, with all destructors that it starts.
pub release_reference-Returns :
    (n : ℕ) (owners : List Address) (m : Memory) (i : Address)
    → Balanced n (i ∷ owners) m
    → Returns (λ u m'. Stable n owners m m') (release_reference i m)
unfolding release_reference
release_reference-Returns n owners m i b =
    release_all-Returns n (total m + 1) (i ∷ []) owners m (omega arith) b

-- An object is made, takes over the references of its members, and is not counted yet.
pub allocate-Returns :
    (n : ℕ) (owners : List Address) (m : Memory) (kind : Kind)
    → n < 2 ^ 32
    → Fits m kind
    → Balanced n (members kind ++ owners) m
    → Returns
        (λ i m'. Stable n owners m m' × (get_elem? m' i ≡ some (fresh kind)))
        (allocate kind m)
unfolding allocate
allocate-Returns n owners m kind small fits b = returns (
  record {
    balanced = allocate-Balanced n owners m kind small b;
    kinds = append-SameKinds m (fresh kind);
    linked = λ c p h. append-Linked c p m (fresh kind) h;
    dead = append-Dead m (fresh kind);
    typed = append-Typed m (fresh kind) fits;
  },
  get_elem?-length m (fresh kind),
)

-- A reference to an object that lives because an owner has it, or has what points to it.
abbrev pub Anchored : Address → List Address → Memory → Type 0
Anchored i owners m =
    (0 < occ i owners)
    ⊎ ((e : Address) × (k : Kind) × (0 < occ e owners)
        × (shape_of (get_elem? m e) ≡ some k)
        × (0 < occ i (members k)))

pub Anchored-Stable :
    {n : ℕ} {owners' : List Address} {m m' : Memory} (i : Address) (owners : List Address)
    → ((j : Address) → occ j owners ≤ occ j owners')
    → Stable n owners' m m'
    → Anchored i owners m
    → Anchored i owners' m'
Anchored-Stable i owners le s (inl h) = let l = le i in inl (omega (arith, l))
Anchored-Stable i owners le s (inr (e, k, own, at, h)) =
    let l = le e in inr (e, k, omega (arith, l), s.kinds e k at, h)

shape-members : (i : Address) (k : Kind) → occ i (members (shape k)) ≤ occ i (members k)
shape-members i (point_container proxies) = omega arith
shape-members i (point container connections) = omega arith
shape-members i (point_enum container) = omega arith
shape-members i (connection_enum p) = omega arith
shape-members i sink = omega arith

pub Anchored-Lives :
    (n : ℕ) (owners : List Address) (m : Memory) (i : Address)
    → Balanced n owners m
    → Anchored i owners m
    → Lives i m
Anchored-Lives n owners m i b (inl h) = owned-Lives n owners m i b h
Anchored-Lives n owners m i b (inr (e, k, own, at, h)) =
    let (c, is, d) = owned-Lives n owners m e b own in
    let same : some (shape c.kind) ≡ some k = ap shape_of (sym is) ∙ at in
    let kind : shape c.kind ≡ k = some-injective _ _ same in
    let pointed : 0 < occ i (members (shape c.kind)) =
      subst (λ x. 0 < occ i (members x)) (sym kind) h in
    let inside : 0 < weight i c = ground (arith, d, pointed, shape-members i c.kind) in
    strong-Lives (get_elem? m i) (omega (arith, b.counted i, inner-get m i e c is, inside))
