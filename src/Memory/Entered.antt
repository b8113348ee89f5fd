-- ===== src/Memory/Entered.antt =====
-- What emplace does, and what a new proxy is when it is handed out.
use axhost.Common.{
  ℕ, suc, ◌+◌, ◌≤◌, ◌<◌, ◌≡◌, refl, ap, sym, subst, ◌∙◌, false, List, [], ◌∷◌, some, get_elem?,
  arith,
}
use mathlib.Core.Option.{some-injective}
use axhost.Memory.{
  Address, Kind, point_container, point, point_enum, connection_enum, sink, members, Cell, Memory,
  set, store,
}
use axhost.Memory.Counts.{occ, get_elem?-set_self}
use axhost.Memory.Balance.{
  Returns, returns, bind, fresh, Balanced, shape, shape_of, Lives, owned-Lives, load-Lives,
  replace-Balanced,
}
use axhost.Memory.Cycle.{Linked, proxy_of_kind, back_of_kind, set-Linked}
use axhost.Memory.Kinds.{set-SameKinds, set-Dead, set-Typed}
use axhost.Memory.Owned.{
  Stable, Stable-trans, add_reference-Returns, release_reference-Returns, Anchored, Anchored-Stable,
  Anchored-Lives,
}
use axhost.Memory.Methods.{with_entry, emplace, make_proxy}
use axhost.Memory.Handed.{head-Lives, construct-Returns}

-- A new owner.
more_owners :
    (i : Address) (owners : List Address) (j : Address) → occ j owners ≤ occ j (i ∷ owners)
more_owners i owners j = omega arith

-- A map gets an entry.
abbrev pub Mapped : Kind → Type 0
Mapped (point_container proxies) = Unit
Mapped (point container connections) = Unit
Mapped (point_enum container) = ⊥
Mapped (connection_enum p) = ⊥
Mapped sink = ⊥

occ-with_entry :
    (i : Address) (key : ℕ) (a : Address) (k : Kind)
    → Mapped k
    → occ i (a ∷ []) + occ i (members k) ≡ occ i (members (with_entry key a k))
occ-with_entry i key a (point_container proxies) h = omega arith
occ-with_entry i key a (point container connections) h = omega arith
occ-with_entry i key a (point_enum container) h = absurd h
occ-with_entry i key a (connection_enum p) h = absurd h
occ-with_entry i key a sink h = absurd h

shape-with_entry : (key : ℕ) (a : Address) (k : Kind) → shape (with_entry key a k) ≡ shape k
shape-with_entry key a (point_container proxies) = refl
shape-with_entry key a (point container connections) = refl
shape-with_entry key a (point_enum container) = refl
shape-with_entry key a (connection_enum p) = refl
shape-with_entry key a sink = refl

proxy_of-with_entry :
    (p : Address) (key : ℕ) (a : Address) (k : Kind)
    → proxy_of_kind p k ≤ proxy_of_kind p (with_entry key a k)
proxy_of-with_entry p key a (point_container proxies) = omega arith
proxy_of-with_entry p key a (point container connections) = omega arith
proxy_of-with_entry p key a (point_enum container) = omega arith
proxy_of-with_entry p key a (connection_enum q) = omega arith
proxy_of-with_entry p key a sink = omega arith

back_of-with_entry :
    (c : Address) (key : ℕ) (a : Address) (k : Kind)
    → back_of_kind c k ≤ back_of_kind c (with_entry key a k)
back_of-with_entry c key a (point_container proxies) = omega arith
back_of-with_entry c key a (point container connections) = omega arith
back_of-with_entry c key a (point_enum container) = omega arith
back_of-with_entry c key a (connection_enum q) = omega arith
back_of-with_entry c key a sink = omega arith

entry-Stable :
    (n : ℕ) (owners : List Address) (m : Memory) (this : Address) (cell : Cell) (key : ℕ)
    (a : Address)
    → get_elem? m this ≡ some cell
    → cell.object.deleted ≡ false
    → Mapped cell.kind
    → Balanced n (a ∷ owners) m
    → Stable n owners m (set m this (record cell { kind = with_entry key a cell.kind }))
entry-Stable n owners m this cell key a e d mapped b =
    let new : Cell = record cell { kind = with_entry key a cell.kind } in
    record {
      balanced =
          replace-Balanced n (a ∷ owners) owners m this cell new.kind e d
            (λ i. let grown = occ-with_entry i key a cell.kind mapped in omega (arith, grown)) b;
      kinds = set-SameKinds m this cell new e (shape-with_entry key a cell.kind);
      dead = set-Dead m this cell new e d;
      typed = set-Typed m this cell new e (shape-with_entry key a cell.kind);
      linked = λ c p.
          set-Linked c p m this cell new e
            (λ s. let grown = proxy_of-with_entry p key a cell.kind in ground (arith, grown, d))
            (λ s. let grown = back_of-with_entry c key a cell.kind in ground (arith, grown, d));
    }

pub Mapped-shape : (k : Kind) → Mapped (shape k) → Mapped k
Mapped-shape (point_container proxies) h = tt
Mapped-shape (point container connections) h = tt
Mapped-shape (point_enum container) h = h
Mapped-shape (connection_enum p) h = h
Mapped-shape sink h = h

-- The entry leads to its object, and if they are a container and its proxy they are linked.
abbrev pub Enters : Address → Address → Memory → Type 0
Enters this a m =
    shape_of (get_elem? m this) ≡ some (point_container [])
    → shape_of (get_elem? m a) ≡ some (point this [])
    → Linked this a m

forth_lem :
    (key : ℕ) (a : Address) (k : Kind)
    → shape k ≡ point_container []
    → 0 < proxy_of_kind a (with_entry key a k)
forth_lem key a (point_container proxies) h = ground arith
forth_lem key a (point container connections) h = cc
forth_lem key a (point_enum container) h = cc
forth_lem key a (connection_enum q) h = cc
forth_lem key a sink h = cc

back_lem : (c : Address) (k : Kind) → shape k ≡ point c [] → 0 < back_of_kind c k
back_lem c (point_container proxies) h = cc
back_lem c (point container connections) h = ground (arith, h)
back_lem c (point_enum container) h = cc
back_lem c (connection_enum q) h = cc
back_lem c sink h = cc

pub emplace-Returns :
    (n : ℕ) (owners : List Address) (m : Memory) (this : Address) (key : ℕ) (a : Address) (k : Kind)
    → Lives a m
    → Anchored this owners m
    → shape_of (get_elem? m this) ≡ some k
    → Mapped k
    → 0 < occ a owners
    → Balanced (suc n) owners m
    → Returns (λ u m'. Stable n owners m m' × Enters this a m') (emplace this key a m)
unfolding emplace store
emplace-Returns n owners m this key a k live anchor at mapped own b =
    bind (add_reference-Returns n owners m a live b) λ u m1 s1.
      let (cell, e, d) =
        Anchored-Lives n (a ∷ owners) m1 this s1.balanced
          (Anchored-Stable this owners (more_owners a owners) s1 anchor) in
      let kind : some (shape cell.kind) ≡ some k = ap shape_of (sym e) ∙ s1.kinds this k at in
      let has_map : Mapped cell.kind =
        Mapped-shape cell.kind (subst Mapped (sym (some-injective _ _ kind)) mapped) in
      let new : Cell = record cell { kind = with_entry key a cell.kind } in
      let s2 = entry-Stable n owners m1 this cell key a e d has_map s1.balanced in
      rw (load-Lives this m1 cell e d) (
        returns (
          Stable-trans s1 s2,
          λ is_container is_proxy.
              let there = get_elem?-set_self m1 this cell new e in
              let of_new : some (shape new.kind) ≡ some (point_container []) =
                ap shape_of (sym there) ∙ is_container in
              let of_cell : shape cell.kind ≡ point_container [] =
                sym (shape-with_entry key a cell.kind) ∙ some-injective _ _ of_new in
              let (proxy, e2, d2) = owned-Lives n owners _ a s2.balanced own in
              let of_proxy : shape proxy.kind ≡ point this [] =
                some-injective _ _ (ap shape_of (sym e2) ∙ is_proxy) in
              record {
                forth = rw there rw d (forth_lem key a cell.kind of_cell);
                back = rw e2 rw d2 (back_lem this proxy.kind of_proxy);
              },
        ))

-- A proxy that is made is handed out with one reference; another is the container's, and the
-- container and the proxy now point to each other.
pub make_proxy-Returns :
    (n : ℕ) (owners : List Address) (m : Memory) (this : Address) (identity : ℕ)
    → Anchored this owners m
    → shape_of (get_elem? m this) ≡ some (point_container [])
    → Balanced (suc (suc (suc (suc (suc n))))) owners m
    → Returns (λ p m'. Stable n (p ∷ owners) m m' × Linked this p m') (make_proxy this identity m)
unfolding make_proxy
make_proxy-Returns n owners m this identity anchor at b =
    bind
      (construct-Returns (suc (suc (suc (suc n)))) owners m this (point this []) refl at
        (Anchored-Lives _ owners m this b anchor) b)
      λ p m1 h1.
        bind
          (add_reference-Returns (suc (suc (suc n))) owners m1 p (fresh (point this []), h1.1, refl)
            h1.0.balanced)
          λ u2 m2 s2.
            bind
              (add_reference-Returns (suc (suc n)) (p ∷ owners) m2 p
                (head-Lives _ _ m2 p s2.balanced) s2.balanced)
              λ u3 m3 s3.
                let s = Stable-trans h1.0 (Stable-trans s2 s3) in
                let own : 0 < occ p (p ∷ p ∷ owners) = ground arith in
                let grows = λ (j : Address).
                  (let le : occ j owners ≤ occ j (p ∷ p ∷ owners) = omega arith in le) in
                bind
                  (emplace-Returns (suc n) (p ∷ p ∷ owners) m3 this identity p (point_container [])
                    (head-Lives _ _ m3 p s3.balanced) (Anchored-Stable this owners grows s anchor)
                    (s.kinds this _ at) tt own s3.balanced)
                  λ u4 m4 h4.
                    let t = Stable-trans s h4.0 in
                    let is_proxy =
                      h4.0.kinds p _ (s3.kinds p _ (s2.kinds p _ (ap shape_of h1.1))) in
                    let pair = h4.1 (t.kinds this _ at) is_proxy in
                    bind
                      (add_reference-Returns n (p ∷ p ∷ owners) m4 p
                        (head-Lives _ _ m4 p h4.0.balanced) h4.0.balanced)
                      λ u5 m5 s5.
                        bind (release_reference-Returns n (p ∷ p ∷ owners) m5 p s5.balanced)
                          λ u6 m6 s6.
                            bind (release_reference-Returns n (p ∷ owners) m6 p s6.balanced)
                              λ u7 m7 s7.
                                let last = Stable-trans s5 (Stable-trans s6 s7) in
                                returns (Stable-trans t last, last.linked this p pair)
