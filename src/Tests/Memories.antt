-- ===== src/Tests/Memories.antt =====
-- A container, a proxy of it, and clients that give everything back.
use axhost.Common.{
  if◌then◌else◌, ◌==◌, ℕ, zero, suc, ◌+◌, ◌<◌, ◌≡◌, refl, subst, true, false, [], ◌∷◌, get_elem?,
  arith,
}
use mathlib.Core.Option.{some-injective}
use axhost.Unknown.{add_ref, release}
use axhost.Memory.{
  Address, point_container, point, Memory, ok, load, store, allocate, add_reference, drop,
  release_all, release_reference,
}
use axhost.Memory.Counts.{occ, inner, strength_of}
use axhost.Memory.Balance.{Returns, Balanced, Lives, Dead}
use axhost.Memory.Kinds.{Fits, Typed}
use axhost.Memory.Owned.{Stable}
use axhost.Memory.Methods.{
  emplace, construct, make_proxy, proxy_or_new, get_proxy_connection_point, clone_connections,
}
use axhost.Memory.Enumerators.{clone_connections-Dead}
use axhost.Memory.Calls.{give_back, find, of_container, of_kind, call, Room, Reach, here, next}
use axhost.Memory.Freed.{release_reference-Freed}
use axhost.Memory.Served.{call-Returns}
use axhost.Memory.Histories.{Reach-Stable, found-Lives}

-- A container that a client has a reference to.
abbrev alone : Memory
alone = record { object = record { ref = 1; deleted = false }; kind = point_container [] } ∷ []

alone-counted : (i : Address) → strength_of (get_elem? alone i) ≡ occ i (0 ∷ []) + inner i alone
alone-counted zero = refl
alone-counted (suc i) = ground arith

alone-Room : Room alone
alone-Room zero c h = ground (arith, h)
alone-Room (suc i) c h = cc

alone-Balanced : Balanced 0 (0 ∷ []) alone
alone-Balanced = record {
  counted = alone-counted;
  room = λ i c h. let small = alone-Room i c h in omega (arith, small);
}

alone-Typed : Typed alone
alone-Typed zero k h = subst (Fits alone) (some-injective _ _ h) tt
alone-Typed (suc i) k h = cc

-- The container has made a proxy, each has a reference to the other, and a client has one to each.
abbrev cycle : ℕ → ℕ → Memory
cycle n k =
    record { object = record { ref = n; deleted = false }; kind = point_container ((7, 1) ∷ []) }
    ∷ record { object = record { ref = k; deleted = false }; kind = point 0 [] }
    ∷ []

made : call 0 (0 ∷ []) (find 7 true) alone ≡ ok (1 ∷ 0 ∷ []) (cycle 2 2)
unfolding call of_kind of_container get_proxy_connection_point proxy_or_new make_proxy construct
    emplace load store allocate add_reference drop release_all release_reference add_ref release
made = refl

cycle-Room : (n k : ℕ) → n < 10 → k < 10 → Room (cycle n k)
cycle-Room n k small less zero c h = ground (arith, h, small)
cycle-Room n k small less (suc zero) c h = ground (arith, h, less)
cycle-Room n k small less (suc (suc i)) c h = cc

-- Both are given back.
given_back : Reach (1 ∷ 0 ∷ []) (cycle 2 2) [] (cycle 1 1)
unfolding call load store drop release_all release_reference release
given_back =
    next 0 give_back
      (next 1 give_back here (cycle-Room 2 2 (omega arith) (omega arith)) (omega arith) refl)
      (cycle-Room 2 1 (omega arith) (omega arith)) (omega arith) refl

all_calls : Reach (0 ∷ []) alone (1 ∷ 0 ∷ []) (cycle 2 2)
all_calls = next 0 (find 7 true) here alone-Room (omega arith) made

call-Returns_example : Returns (λ o m'. Stable 0 o alone m') (call 0 (0 ∷ []) (find 7 true) alone)
call-Returns_example =
    call-Returns (0 ∷ []) alone 0 (find 7 true) (omega arith) alone-Room alone-Typed alone-Balanced

Reach-Stable_example : Stable 0 (1 ∷ 0 ∷ []) alone (cycle 2 2)
Reach-Stable_example =
    Reach-Stable (0 ∷ []) alone (1 ∷ 0 ∷ []) (cycle 2 2) alone-Typed alone-Balanced all_calls

found-Lives_example :
    (p : Address) × (1 ∷ 0 ∷ [] ≡ p ∷ 0 ∷ []) × Lives 0 (cycle 1 1) × Lives p (cycle 1 1)
found-Lives_example =
    found-Lives (0 ∷ []) alone 0 (record { ref = 1; deleted = false }) [] 7 (1 ∷ 0 ∷ []) (cycle 2 2)
      [] (cycle 1 1) refl refl (omega arith) alone-Room alone-Typed alone-Balanced made given_back

release_reference-Freed_example :
    Returns
      (λ u m'.
        Stable 0 [] alone m' × (if occ 0 [] + inner 0 alone == 0 then Dead 0 m' else Lives 0 m'))
      (release_reference 0 alone)
release_reference-Freed_example = release_reference-Freed 0 [] alone 0 alone-Balanced

cycle-Balanced : Balanced 3 (1 ∷ 0 ∷ []) (cycle 2 2)
cycle-Balanced = record {
  counted =
      (Reach-Stable (0 ∷ []) alone (1 ∷ 0 ∷ []) (cycle 2 2) alone-Typed alone-Balanced
        all_calls).balanced.counted;
  room =
      λ i c h. let small = cycle-Room 2 2 (omega arith) (omega arith) i c h in omega (arith, small);
}

clone_connections-Dead_example :
    Returns
      (λ e m'. Stable 0 (1 ∷ 0 ∷ []) (cycle 2 2) m' × Dead e m')
      (clone_connections 1 (cycle 2 2))
clone_connections-Dead_example =
    clone_connections-Dead 0 (1 ∷ 0 ∷ []) (cycle 2 2) 1 (0, refl) (_, refl, refl) cycle-Balanced
