-- ===== src/Memory/Cycle.antt =====
-- A HostConnectionPointContainer and a proxy of it, each of which points to the other.
use axhost.Common.{
  ℕ, ◌≤◌, ◌<◌, ◌≡◌, refl, subst, true, false, ◌==◌, if◌then◌else◌, List, [], ◌∷◌, ◌++◌, Option,
  none, some, get_elem?, arith, Bool-cases, inl, inr,
}
use axhost.Memory.{
  Address, Kind, point_container, point, point_enum, connection_enum, sink, values, members, Cell,
  Memory, set,
}
use axhost.Memory.Counts.{occ, inner, inner-get, get_elem?-set, get_elem?-append}
use axhost.Memory.Balance.{Balanced, recounted, Lives, owned-count}

-- How often a container has a proxy, and whether a proxy has a container.
abbrev pub proxy_of_kind : Address → Kind → ℕ
proxy_of_kind p (point_container proxies) = occ p (values proxies)
proxy_of_kind p (point container connections) = 0
proxy_of_kind p (point_enum container) = 0
proxy_of_kind p (connection_enum q) = 0
proxy_of_kind p sink = 0

abbrev pub back_of_kind : Address → Kind → ℕ
back_of_kind c (point_container proxies) = 0
back_of_kind c (point container connections) = if container == c then 1 else 0
back_of_kind c (point_enum container) = 0
back_of_kind c (connection_enum q) = 0
back_of_kind c sink = 0

abbrev pub of_live : (Kind → ℕ) → Option Cell → ℕ
of_live f none = 0
of_live f (some c) = if c.object.deleted then 0 else f c.kind

-- Neither is deleted, and each points to the other.
pub record Linked (c p : Address) (m : Memory) : Type 0 where
  pub forth : 0 < of_live (proxy_of_kind p) (get_elem? m c)
  pub back : 0 < of_live (back_of_kind c) (get_elem? m p)

abbrev pub Keeps : Memory → Memory → Type 0
Keeps m m' = (c p : Address) → Linked c p m → Linked c p m'

proxy_of_kind-le : (p : Address) (k : Kind) → proxy_of_kind p k ≤ occ p (members k)
proxy_of_kind-le p (point_container proxies) = omega arith
proxy_of_kind-le p (point container connections) = omega arith
proxy_of_kind-le p (point_enum container) = omega arith
proxy_of_kind-le p (connection_enum q) = omega arith
proxy_of_kind-le p sink = omega arith

back_of_kind-le : (c : Address) (k : Kind) → back_of_kind c k ≤ occ c (members k)
back_of_kind-le c (point_container proxies) = omega arith
back_of_kind-le c (point container connections) = omega arith
back_of_kind-le c (point_enum container) = omega arith
back_of_kind-le c (connection_enum q) = omega arith
back_of_kind-le c sink = omega arith

of_live-some :
    (f : Kind → ℕ) (o : Option Cell)
    → 0 < of_live f o
    → (c : Cell) × (o ≡ some c) × (c.object.deleted ≡ false) × (0 < f c.kind)
of_live-some f none h = absurd (omega arith)
of_live-some f (some c) h = (c, refl, ground (arith, h), ground (arith, h))

-- What an object that was not deleted points to is pointed to.
of_live-inner :
    (f : Kind → ℕ) (i : Address) (m : Memory) (j : Address)
    → ((k : Kind) → f k ≤ occ i (members k))
    → 0 < of_live f (get_elem? m j)
    → 0 < inner i m
of_live-inner f i m j le h =
    let (c, e, d, pos) = of_live-some f (get_elem? m j) h in
    ground (arith, d, pos, inner-get m i j c e, le c.kind)

of_live-set :
    (f : Kind → ℕ) (m : Memory) (i j : Address) (x d : Cell)
    → get_elem? m j ≡ some x
    → (i ≡ j → of_live f (some x) ≤ of_live f (some d))
    → 0 < of_live f (get_elem? m i)
    → 0 < of_live f (get_elem? (set m j d) i)
of_live-set f m i j x d e le was =
    let at = get_elem?-set m i j x d e in
    elim (Bool-cases (i == j)) [
      | inl t ↦
          let same : i ≡ j = ground (arith, t) in
          let now : of_live f (get_elem? (set m j d) i) ≡ of_live f (some d) = rw at rw t refl in
          let old : of_live f (get_elem? m i) ≡ of_live f (some x) = rw same rw e refl in
          let grows = le same in omega (arith, now, old, grows, was)
      | inr n ↦ rw at rw n was
    ]

of_live-append :
    (f : Kind → ℕ) (m : Memory) (i : Address) (d : Cell)
    → 0 < of_live f (get_elem? m i)
    → 0 < of_live f (get_elem? (m ++ d ∷ []) i)
of_live-append f m i d h =
    let (c, e, live, pos) = of_live-some f (get_elem? m i) h in
    rw (get_elem?-append m i c d e) rw live pos

-- Each of the two is pointed to by the other.
pub Linked-inner : (c p : Address) (m : Memory) → Linked c p m → (0 < inner c m) × (0 < inner p m)
Linked-inner c p m h = (
  of_live-inner (back_of_kind c) c m p (back_of_kind-le c) h.back,
  of_live-inner (proxy_of_kind p) p m c (proxy_of_kind-le p) h.forth,
)

pub Linked-Lives : (c p : Address) (m : Memory) → Linked c p m → Lives c m × Lives p m
Linked-Lives c p m h =
    let (x, at, live, forth) = of_live-some (proxy_of_kind p) (get_elem? m c) h.forth in
    let (y, there, alive, back) = of_live-some (back_of_kind c) (get_elem? m p) h.back in
    ((x, at, live), (y, there, alive))

-- A write that leaves what the two have of each other, wherever it goes.
pub set-Linked :
    (c p : Address) (m : Memory) (j : Address) (x d : Cell)
    → get_elem? m j ≡ some x
    → (c ≡ j → of_live (proxy_of_kind p) (some x) ≤ of_live (proxy_of_kind p) (some d))
    → (p ≡ j → of_live (back_of_kind c) (some x) ≤ of_live (back_of_kind c) (some d))
    → Linked c p m
    → Linked c p (set m j d)
set-Linked c p m j x d e forth back h = record {
  forth = of_live-set (proxy_of_kind p) m c j x d e forth h.forth;
  back = of_live-set (back_of_kind c) m p j x d e back h.back;
}

-- A release that does not delete.
pub recounted-Linked :
    (c p : Address) (m : Memory) (j : Address) (x : Cell) (n : ℕ)
    → get_elem? m j ≡ some x
    → Linked c p m
    → Linked c p (set m j (recounted x n false))
recounted-Linked c p m j x n e h =
    set-Linked c p m j x (recounted x n false) e (λ s. ground arith) (λ s. ground arith) h

-- The last release of an object is not that of either, since the other points to it.
pub last-Linked :
    (n : ℕ) (owners : List Address) (c p : Address) (m : Memory) (j : Address) (x : Cell)
    → get_elem? m j ≡ some x
    → x.object.ref ≡ 1
    → Balanced n (j ∷ owners) m
    → Linked c p m
    → Linked c p (set m j (recounted x 0 true))
last-Linked n owners c p m j x e one b h =
    let held = Linked-inner c p m h in
    let own : 0 < occ j (j ∷ owners) = ground arith in
    let count = owned-count n (j ∷ owners) m j x b e own in
    let two : inner j m ≡ 0 = ground (arith, count, one) in
    set-Linked c p m j x (recounted x 0 true) e
      (λ s.
        let pointed : 0 < inner j m = subst (λ i. 0 < inner i m) s held.0 in
        absurd (omega (arith, pointed, two)))
      (λ s.
        let pointed : 0 < inner j m = subst (λ i. 0 < inner i m) s held.1 in
        absurd (omega (arith, pointed, two)))
      h

pub append-Linked :
    (c p : Address) (m : Memory) (d : Cell) → Linked c p m → Linked c p (m ++ d ∷ [])
append-Linked c p m d h = record {
  forth = of_live-append (proxy_of_kind p) m c d h.forth;
  back = of_live-append (back_of_kind c) m p d h.back;
}
