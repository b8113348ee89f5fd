-- ===== src/Memory/Freed.antt =====
-- When a release deletes.
use native.Mathlib.Numerals.{add-one}
use axhost.Common.{
  ℕ, ◌+◌, ◌-◌, ◌<◌, ◌≡◌, refl, true, false, List, [], ◌∷◌, ◌==◌, if◌then◌else◌, Bool-cases, ◌++◌,
  append-nil, some, get_elem?, arith, inl, inr,
}
use axhost.Memory.{Address, members, Cell, Memory, set, release_all, release_reference, total}
use axhost.Memory.Counts.{occ, inner, total-set, get_elem?-set_self}
use axhost.Memory.Balance.{
  Returns, returns, mono, Dead, Balanced, Lives, owned-Lives, owned-count, recounted,
}
use axhost.Memory.Dropped.{drop_more, drop_last, more-Balanced, last-Balanced}
use axhost.Memory.Kinds.{set-SameKinds, set-Dead, set-Typed}
use axhost.Memory.Cycle.{recounted-Linked, last-Linked}
use axhost.Memory.Owned.{Stable, Stable-trans, release_all-Returns}

-- A release that is not the last leaves the object with one reference less.
pub release_reference-more :
    (n : ℕ) (owners : List Address) (m : Memory) (i : Address) (c : Cell)
    → get_elem? m i ≡ some c
    → 1 < c.object.ref
    → Balanced n (i ∷ owners) m
    → Returns
        (λ u m'.
          Stable n owners m m' × (get_elem? m' i ≡ some (recounted c (c.object.ref - 1) false)))
        (release_reference i m)
unfolding release_reference release_all
release_reference-more n owners m i c e h b =
    let own : 0 < occ i (i ∷ owners) = ground arith in
    let counts = owned-count n (i ∷ owners) m i c b e own in
    rw (add-one (total m)) rw (drop_more i m c e counts.0 h (omega (arith, b.room i c e))) (
      returns (
        record {
          balanced = more-Balanced n owners m i c e counts.0 h b;
          kinds = set-SameKinds m i c _ e refl;
          linked = λ a p l. recounted-Linked a p m i c _ e l;
          dead = set-Dead m i c _ e counts.0;
          typed = set-Typed m i c _ e refl;
        },
        get_elem?-set_self m i c _ e,
      ))

-- The last one deletes it.
pub release_reference-last :
    (n : ℕ) (owners : List Address) (m : Memory) (i : Address) (c : Cell)
    → get_elem? m i ≡ some c
    → c.object.ref ≡ 1
    → Balanced n (i ∷ owners) m
    → Returns (λ u m'. Stable n owners m m' × Dead i m') (release_reference i m)
unfolding release_reference release_all
release_reference-last n owners m i c e h b =
    let own : 0 < occ i (i ∷ owners) = ground arith in
    let counts = owned-count n (i ∷ owners) m i c b e own in
    let after = set m i (recounted c 0 true) in
    let less = total-set m i c (recounted c 0 true) e in
    let s : Stable n (members c.kind ++ owners) m after = record {
      balanced = last-Balanced n owners m i c e counts.0 h b;
      kinds = set-SameKinds m i c _ e refl;
      linked = λ a p l. last-Linked n owners a p m i c e h b l;
      dead = set-Dead m i c _ e counts.0;
      typed = set-Typed m i c _ e refl;
    } in
    let gone : Dead i after = (recounted c 0 true, get_elem?-set_self m i c _ e, refl) in
    let next : Returns (λ u m'. Stable n owners m m' × Dead i m')
        (release_all (total m) (members c.kind ++ []) after) =
      rw (append-nil (members c.kind)) (
        mono
          (release_all-Returns n (total m) (members c.kind) owners after
            (ground (arith, less, counts, h)) s.balanced)
          λ u m' k. (Stable-trans s k, k.dead i gone)) in
    rw (add-one (total m)) rw (drop_last i m c e counts.0 h) next

-- Where the counts are the references, the release of an owned reference returns, with all
-- destructors that it starts. It deletes the object if no other owner has a reference to it and no
-- object that lives points to it, and else the object lives. The counts are the references that are
-- left, what was deleted stays so, and a container and a proxy that point to each other still do.
pub release_reference-Freed :
    (n : ℕ) (owners : List Address) (m : Memory) (i : Address)
    → Balanced n (i ∷ owners) m
    → Returns
        (λ u m'.
          Stable n owners m m' × (if occ i owners + inner i m == 0 then Dead i m' else Lives i m'))
        (release_reference i m)
release_reference-Freed n owners m i b =
    let own : 0 < occ i (i ∷ owners) = ground arith in
    let (c, e, d) = owned-Lives n (i ∷ owners) m i b own in
    let counts = owned-count n (i ∷ owners) m i c b e own in
    elim (Bool-cases (occ i owners + inner i m == 0)) [
      | inl none_left ↦
          rw none_left
            (release_reference-last n owners m i c e (ground (arith, counts, none_left)) b)
      | inr some_left ↦ rw some_left (
          mono (release_reference-more n owners m i c e (ground (arith, counts, some_left)) b)
            λ u m' h. (h.0, (recounted c _ false, h.1, refl)))
    ]
