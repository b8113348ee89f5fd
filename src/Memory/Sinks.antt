-- ===== src/Memory/Sinks.antt =====
-- What HostConnectionPoint::Advise and Unadvise do to the references of sinks.
use axhost.Common.{
  ℕ, suc, ◌+◌, ◌≤◌, ◌<◌, ◌≡◌, refl, ap, sym, ◌∙◌, Bool, true, false, ◌==◌, if◌then◌else◌, List, [],
  ◌∷◌, ◌++◌, Option, none, some, get_elem?, arith, Bool-cases, Option-cases, inl, inr,
}
use mathlib.Core.Option.{some-injective}
use axhost.Memory.{
  Address, Kind, point_container, point, point_enum, connection_enum, sink, values, members, Cell,
  Memory, set, store,
}
use axhost.Memory.Counts.{occ, occ-append}
use axhost.Memory.Balance.{
  Returns, returns, bind, mono, Balanced, shape, shape_of, fresh, owned-Lives, Lives, load-Lives,
  replace-Balanced,
}
use axhost.Memory.Cycle.{proxy_of_kind, back_of_kind, set-Linked}
use axhost.Memory.Kinds.{IsPoint, set-SameKinds, set-Dead, set-Typed}
use axhost.Memory.Owned.{
  Stable, Stable-refl, Stable-trans, Balanced-less, add_reference-Returns,
  release_reference-Returns, allocate-Returns, Anchored, Anchored-Stable, Anchored-Lives,
}
use axhost.Memory.Methods.{
  lookup, entry_of, without, without_entry, keep_new, keep_sink, take_if, advise, erase_entry,
  unadvise,
}
use axhost.Memory.Entered.{emplace-Returns}
use axhost.Memory.Proxies.{given}

keep_sink-Returns :
    (n : ℕ) (owners : List Address) (m : Memory) (this : Address) (cookie : Option ℕ) (s : Address)
    → Anchored this owners m
    → IsPoint this m
    → 0 < occ s owners
    → Balanced (suc n) owners m
    → Returns (λ u m'. Stable n owners m m') (keep_sink this cookie s m)
unfolding keep_sink keep_new
keep_sink-Returns n owners m this none s anchor is_point own b =
    returns (Stable-refl (Balanced-less (omega arith) b))
keep_sink-Returns n owners m this (some cookie) s anchor is_point own b =
    let (cell, e, d) = Anchored-Lives _ owners m this b anchor in
    rw (load-Lives this m cell e d) (elim (Option-cases (entry_of cookie cell.kind)) [
      | inl absent ↦ rw absent (
          mono
            (emplace-Returns n owners m this cookie s (point is_point.0 [])
              (owned-Lives _ owners m s b own) anchor is_point.1 tt own b)
            λ u m' h. h.0)
      | inr (old, found) ↦ rw found (returns (Stable-refl (Balanced-less (omega arith) b)))
    ])

take_if-Returns :
    (n : ℕ) (owners : List Address) (m : Memory) (taken : Bool) (s : Address)
    → Lives s m
    → Balanced (suc n) owners m
    → Returns
        (λ u m'. Stable n (given (if taken then some s else none) ++ owners) m m')
        (take_if taken s m)
unfolding take_if
take_if-Returns n owners m true s live b = add_reference-Returns n owners m s live b
take_if-Returns n owners m false s live b = returns (Stable-refl (Balanced-less (omega arith) b))

-- The order of the owners does not matter.
pub Balanced-occ :
    {n : ℕ} {before after : List Address} {m : Memory}
    → ((j : Address) → occ j before ≡ occ j after)
    → Balanced n before m
    → Balanced n after m
Balanced-occ same b = record {
  counted = λ i. let s = same i in omega (arith, b.counted i, s);
  room = b.room;
}

given-Balanced :
    (n : ℕ) (s : Address) (r : Option Address) (owners : List Address) (m : Memory)
    → Balanced n (given r ++ s ∷ owners) m
    → Balanced n (s ∷ given r ++ owners) m
given-Balanced n s r owners m b =
    Balanced-occ
      (λ j. omega (arith, occ-append j (given r) (s ∷ owners), occ-append j (given r) owners)) b

-- Advise gives the control one reference to the new sink if it takes it, and the map of the point
-- one if the cookie is new; nothing else is owned.
pub advise-Returns :
    (n : ℕ) (owners : List Address) (m : Memory) (this : Address) (taken : Bool) (cookie : Option ℕ)
    → Anchored this owners m
    → IsPoint this m
    → Balanced (suc (suc (suc (suc n)))) owners m
    → Returns (λ r m'. Stable n (given r ++ owners) m m') (advise this taken cookie m)
unfolding advise
advise-Returns n owners m this taken cookie anchor is_point b =
    let (point_cell, at, alive) = Anchored-Lives _ owners m this b anchor in
    bind
      (allocate-Returns (suc (suc (suc (suc n)))) owners m sink
        (omega (arith, b.room this point_cell at)) tt b)
      λ s m1 h1.
        bind
          (add_reference-Returns (suc (suc (suc n))) owners m1 s (fresh sink, h1.1, refl)
            h1.0.balanced)
          λ u2 m2 s2.
            bind
              (add_reference-Returns (suc (suc n)) (s ∷ owners) m2 s
                (owned-Lives _ (s ∷ owners) m2 s s2.balanced (ground arith)) s2.balanced)
              λ u3 m3 s3.
                let r : Option Address = if taken then some s else none in
                bind
                  (take_if-Returns (suc n) (s ∷ s ∷ owners) m3 taken s
                    (owned-Lives _ (s ∷ s ∷ owners) m3 s s3.balanced (ground arith)) s3.balanced)
                  λ u4 m4 s4.
                    let t = Stable-trans h1.0 (Stable-trans s2 (Stable-trans s3 s4)) in
                    bind
                      (keep_sink-Returns n (given r ++ s ∷ s ∷ owners) m4 this cookie s
                        (Anchored-Stable this owners
                          (λ j. omega (arith, occ-append j (given r) (s ∷ s ∷ owners))) t anchor)
                        (is_point.0, t.kinds this _ is_point.1)
                        (ground (arith, occ-append s (given r) (s ∷ s ∷ owners))) s4.balanced)
                      λ u5 m5 s5.
                        bind
                          (release_reference-Returns n (given r ++ s ∷ owners) m5 s
                            (given-Balanced n s r (s ∷ owners) m5 s5.balanced))
                          λ u6 m6 s6.
                            bind
                              (release_reference-Returns n (given r ++ owners) m6 s
                                (given-Balanced n s r owners m6 s6.balanced))
                              λ u7 m7 s7.
                                returns (Stable-trans t (Stable-trans s5 (Stable-trans s6 s7)))

without-occ :
    (i : Address) (k : ℕ) (es : List (ℕ × Address)) (s : Address)
    → lookup k es ≡ some s
    → occ i (values es) ≡ occ i (s ∷ []) + occ i (values (without k es))
without-occ i k [] s h = cc
without-occ i k (e ∷ es) s h = elim (Bool-cases (e.0 == k)) [
  | inl t ↦ ground (arith, t, h)
  | inr f ↦ ground (arith, f, h, without-occ i k es s)
]

without_entry-occ :
    (i : Address) (k : ℕ) (kind : Kind) (s : Address)
    → entry_of k kind ≡ some s
    → occ i (members kind) ≡ occ i (s ∷ []) + occ i (members (without_entry k kind))
without_entry-occ i k (point_container proxies) s h = without-occ i k proxies s h
without_entry-occ i k (point container connections) s h =
    omega (arith, without-occ i k connections s h)
without_entry-occ i k (point_enum container) s h = cc
without_entry-occ i k (connection_enum q) s h = cc
without_entry-occ i k sink s h = cc

shape-without_entry : (k : ℕ) (kind : Kind) → shape (without_entry k kind) ≡ shape kind
shape-without_entry k (point_container proxies) = refl
shape-without_entry k (point container connections) = refl
shape-without_entry k (point_enum container) = refl
shape-without_entry k (connection_enum q) = refl
shape-without_entry k sink = refl

back_of-without_entry :
    (c : Address) (k : ℕ) (kind : Kind)
    → back_of_kind c kind ≤ back_of_kind c (without_entry k kind)
back_of-without_entry c k (point_container proxies) = omega arith
back_of-without_entry c k (point container connections) = omega arith
back_of-without_entry c k (point_enum container) = omega arith
back_of-without_entry c k (connection_enum q) = omega arith
back_of-without_entry c k sink = omega arith

no_proxy : (p c : Address) (kind : Kind) → shape kind ≡ point c [] → proxy_of_kind p kind ≡ 0
no_proxy p c (point_container proxies) h = cc
no_proxy p c (point container connections) h = refl
no_proxy p c (point_enum container) h = refl
no_proxy p c (connection_enum q) h = refl
no_proxy p c sink h = refl

erased-Stable :
    (n : ℕ) (owners : List Address) (m : Memory) (this : Address) (cell : Cell) (k : ℕ)
    (s c : Address)
    → get_elem? m this ≡ some cell
    → cell.object.deleted ≡ false
    → shape cell.kind ≡ point c []
    → entry_of k cell.kind ≡ some s
    → Balanced n owners m
    → Stable n (s ∷ owners) m (set m this (record cell { kind = without_entry k cell.kind }))
erased-Stable n owners m this cell k s c e d is_point found b =
    let new : Cell = record cell { kind = without_entry k cell.kind } in
    record {
      balanced =
          replace-Balanced n owners (s ∷ owners) m this cell new.kind e d
            (λ i. let less = without_entry-occ i k cell.kind s found in omega (arith, less)) b;
      kinds = set-SameKinds m this cell new e (shape-without_entry k cell.kind);
      dead = set-Dead m this cell new e d;
      typed = set-Typed m this cell new e (shape-without_entry k cell.kind);
      linked = λ a p.
          set-Linked a p m this cell new e
            (λ same. let zero_lem = no_proxy p c cell.kind is_point in ground (arith, zero_lem, d))
            (λ same. let grown = back_of-without_entry a k cell.kind in ground (arith, grown, d));
    }

-- Unadvise ends, and nobody owns more or less than before: the reference of the map is released.
pub unadvise-Returns :
    (n : ℕ) (owners : List Address) (m : Memory) (this : Address) (cookie : ℕ)
    → Anchored this owners m
    → IsPoint this m
    → Balanced n owners m
    → Returns (λ u m'. Stable n owners m m') (unadvise this cookie m)
unfolding unadvise erase_entry store
unadvise-Returns n owners m this cookie anchor is_point b =
    let (cell, e, d) = Anchored-Lives n owners m this b anchor in
    let kind : some (shape cell.kind) ≡ some (point is_point.0 []) =
      ap shape_of (sym e) ∙ is_point.1 in
    let same : shape cell.kind ≡ point is_point.0 [] = some-injective _ _ kind in
    rw (load-Lives this m cell e d) (elim (Option-cases (entry_of cookie cell.kind)) [
      | inl absent ↦ rw absent (returns (Stable-refl b))
      | inr (s, found) ↦ rw found rw (load-Lives this m cell e d) (
          let s1 = erased-Stable n owners m this cell cookie s is_point.0 e d same found b in
          mono (release_reference-Returns n owners _ s s1.balanced) λ u m' s2. Stable-trans s1 s2)
    ])
