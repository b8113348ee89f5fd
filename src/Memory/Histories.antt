-- ===== src/Memory/Histories.antt =====
-- Histories of calls: the counts stay the references, and no cycle is ever freed.
use axhost.Common.{ℕ, ◌<◌, ◌≡◌, refl, ap, subst, true, List, ◌∷◌, none, some, get_elem?, inl}
use axhost.Memory.{Address, point_container, Cell, Memory, ok}
use axhost.Memory.Counts.{occ}
use axhost.Memory.Balance.{
  Returns, returns, returned, bind, Balanced, shape_of, Lives, owned-count, load-Lives,
}
use axhost.Memory.Kinds.{Typed}
use axhost.Memory.Cycle.{Linked, Linked-Lives}
use axhost.Memory.Owned.{Stable, Stable-refl, Stable-trans}
use axhost.Memory.Methods.{lookup, get_proxy_connection_point}
use axhost.Unknown.{Object}
use axhost.Memory.Proxies.{new_proxy-Linked}
use axhost.Memory.Calls.{find, of_container, of_kind, call, Room, Reach, here, next}
use axhost.Memory.Served.{more-Room, call-Returns}

-- Where the counts are the references and members are of their classes, they are so after any
-- history of calls, each on an object that the client owns a reference to and while no count is
-- within five of the end of 32 bits; a container and a proxy that point to each other still do, and
-- what was deleted stays so.
pub Reach-Stable :
    (owners : List Address) (m : Memory) (o : List Address) (m' : Memory)
    → Typed m
    → Balanced 0 owners m
    → Reach owners m o m'
    → Stable 0 o m m'
Reach-Stable owners m o m' typed b here = Stable-refl b
Reach-Stable owners m o m' typed b (next {o = o1} {m1 = m1} this method reach room own run) =
    let s = Reach-Stable owners m o1 m1 typed b reach in
    let t = call-Returns o1 m1 this method own room (s.typed typed) s.balanced in
    Stable-trans s (returned (subst (Returns _) run t))

-- FindConnectionPoint of a connection point that the container has no proxy of hands out a new
-- proxy, and the container and the proxy point to each other.
pub find_new-Linked :
    (owners : List Address) (m : Memory) (this : Address) (object : Object)
    (proxies : List (ℕ × Address)) (identity : ℕ)
    → get_elem? m this ≡ some (record { object = object; kind = point_container proxies })
    → lookup identity proxies ≡ none
    → 0 < occ this owners
    → Room m
    → Balanced 0 owners m
    → Returns
        (λ o m'. (p : Address) × (o ≡ p ∷ owners) × Stable 0 (p ∷ owners) m m' × Linked this p m')
        (call this owners (find identity true) m)
unfolding call of_kind of_container get_proxy_connection_point
find_new-Linked owners m this object proxies identity e absent own room b =
    let cell : Cell = record { object = object; kind = point_container proxies } in
    let counts = owned-count 0 owners m this cell b e own in
    let known = load-Lives this m cell e counts.0 in
    rw known rw known rw absent (
      bind (new_proxy-Linked 0 owners m this identity (inl own) (ap shape_of e) (more-Room room b))
        λ r m1 h. let (p, same, stable, linked) = h in rw same (returns (p, refl, stable, linked)))

-- A container that made a proxy is never freed, and neither is the proxy, whatever the clients do
-- afterwards and even if they give back every reference.
pub Reach-Linked :
    (owners : List Address) (m : Memory) (o : List Address) (m' : Memory) (c p : Address)
    → Typed m
    → Balanced 0 owners m
    → Linked c p m
    → Reach owners m o m'
    → Lives c m' × Lives p m'
Reach-Linked owners m o m' c p typed b linked reach =
    Linked-Lives c p m' ((Reach-Stable owners m o m' typed b reach).linked c p linked)

-- Where the counts are the references, with room for five more, and members are of their classes:
-- after a client that owns a reference to a container asked it for a connection point that it has
-- no proxy of, neither the container nor the new proxy is ever deleted, in any history of calls
-- afterwards, and even if the clients give back every reference.
pub found-Lives :
    (owners : List Address) (m : Memory) (this : Address) (object : Object)
    (proxies : List (ℕ × Address)) (identity : ℕ) (o : List Address) (m1 : Memory)
    (o' : List Address) (m' : Memory)
    → get_elem? m this ≡ some (record { object = object; kind = point_container proxies })
    → lookup identity proxies ≡ none
    → 0 < occ this owners
    → Room m
    → Typed m
    → Balanced 0 owners m
    → call this owners (find identity true) m ≡ ok o m1
    → Reach o m1 o' m'
    → (p : Address) × (o ≡ p ∷ owners) × Lives this m' × Lives p m'
found-Lives owners m this object proxies identity o m1 o' m' e absent own room typed b run reach =
    let (p, same, stable, linked) = returned (
      subst (Returns _) run
        (find_new-Linked owners m this object proxies identity e absent own room b)) in
    let balanced : Balanced 0 o m1 = rw same stable.balanced in
    let (container, proxy) =
      Reach-Linked o m1 o' m' this p (stable.typed typed) balanced linked reach in
    (p, same, container, proxy)
