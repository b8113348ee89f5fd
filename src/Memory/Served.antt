-- ===== src/Memory/Served.antt =====
-- What a call of a client does.
use axhost.Common.{◌<◌, ◌≡◌, ap, ◌==◌, List, [], ◌∷◌, some, get_elem?, arith, Bool-cases, inl, inr}
use axhost.Memory.{
  Address, Kind, point_container, point, point_enum, connection_enum, sink, Memory, Run, ok,
  and_then, load,
}
use axhost.Memory.Counts.{occ}
use axhost.Memory.Balance.{
  Returns, returns, bind, Balanced, shape, shape_of, Lives, owned-Lives, load-Lives,
}
use axhost.Memory.Kinds.{Fits, Typed}
use axhost.Memory.Owned.{
  Stable, Stable-refl, Balanced-less, add_reference-Returns, release_reference-Returns, Anchored,
  Anchored-Lives,
}
use axhost.Memory.Proxies.{get_proxy_connection_point-Returns}
use axhost.Memory.Enumerators.{
  enum_connection_points-Returns, enum_connections-Returns, clone_points-Returns,
  clone_connections-Dead, get_connection_point_container-Returns,
}
use axhost.Memory.Sinks.{Balanced-occ, advise-Returns, unadvise-Returns}
use axhost.Memory.Calls.{
  Method, keep, give_back, enumerate, clone, container_of, find, advise_sink, unadvise_sink, erase,
  of_container, of_point, of_point_enum, of_connection_enum, of_kind, call, Room,
}

occ-erase : (i j : Address) (o : List Address) → 0 < occ i o → occ j o ≡ occ j (i ∷ erase i o)
occ-erase i j [] h = absurd (omega arith)
occ-erase i j (x ∷ o) h = elim (Bool-cases (x == i)) [
  | inl t ↦ ground (arith, t)
  | inr f ↦ ground (arith, f, h, occ-erase i j o)
]

-- What every method of an object does that a client owns a reference to.
module _ (owners : List Address) (m : Memory) (b : Balanced 5 owners m) where
  Fine : Run (List Address) → Type 0
  Fine = Returns (λ o m'. Stable 0 o m m')

  nothing : Fine (ok owners m)
  unfolding Fine
  nothing = returns (Stable-refl (Balanced-less (omega arith) b))

  three : Balanced 3 owners m
  three = Balanced-less (omega arith) b

  of_container-Fine :
      (this : Address) (method : Method)
      → shape_of (get_elem? m this) ≡ some (point_container [])
      → 0 < occ this owners
      → Fine (of_container this owners method m)
  unfolding Fine of_container
  of_container-Fine this enumerate class own =
      bind
        (enum_connection_points-Returns 0 owners m this class (owned-Lives 5 owners m this b own)
          three)
        λ e m1 h. returns h.0
  of_container-Fine this (find identity is_point) class own =
      bind (get_proxy_connection_point-Returns 0 owners m this identity is_point (inl own) class b)
        λ r m1 s. returns s
  of_container-Fine this keep class own = nothing
  of_container-Fine this give_back class own = nothing
  of_container-Fine this clone class own = nothing
  of_container-Fine this container_of class own = nothing
  of_container-Fine this (advise_sink taken cookie) class own = nothing
  of_container-Fine this (unadvise_sink cookie) class own = nothing

  of_point-Fine :
      (this container : Address) (method : Method)
      → shape_of (get_elem? m this) ≡ some (point container [])
      → Lives container m
      → 0 < occ this owners
      → Fine (of_point this container owners method m)
  unfolding Fine of_point
  of_point-Fine this container enumerate class live own =
      bind
        (enum_connections-Returns 0 owners m this (container, class)
          (owned-Lives 5 owners m this b own) three)
        λ e m1 h. returns h.0
  of_point-Fine this container container_of class live own =
      bind
        (get_connection_point_container-Returns 0 owners m container live
          (Balanced-less (omega arith) b))
        λ c m1 h. returns h.1
  of_point-Fine this container (advise_sink taken cookie) class live own =
      bind
        (advise-Returns 0 owners m this taken cookie (inl own) (container, class)
          (Balanced-less (omega arith) b))
        λ r m1 s. returns s
  of_point-Fine this container (unadvise_sink cookie) class live own =
      bind
        (unadvise-Returns 0 owners m this cookie (inl own) (container, class)
          (Balanced-less (omega arith) b))
        λ u m1 s. returns s
  of_point-Fine this container keep class live own = nothing
  of_point-Fine this container give_back class live own = nothing
  of_point-Fine this container clone class live own = nothing
  of_point-Fine this container (find identity is_point) class live own = nothing

  of_point_enum-Fine :
      (container : Address) (method : Method)
      → shape_of (get_elem? m container) ≡ some (point_container [])
      → Anchored container owners m
      → Fine (of_point_enum container owners method m)
  unfolding Fine of_point_enum
  of_point_enum-Fine container clone class anchor =
      bind
        (clone_points-Returns 0 owners m container class
          (Anchored-Lives 5 owners m container b anchor) three)
        λ e m1 h. returns h.0
  of_point_enum-Fine container (find identity is_point) class anchor =
      bind
        (get_proxy_connection_point-Returns 0 owners m container identity is_point anchor class b)
        λ r m1 s. returns s
  of_point_enum-Fine container keep class anchor = nothing
  of_point_enum-Fine container give_back class anchor = nothing
  of_point_enum-Fine container enumerate class anchor = nothing
  of_point_enum-Fine container container_of class anchor = nothing
  of_point_enum-Fine container (advise_sink taken cookie) class anchor = nothing
  of_point_enum-Fine container (unadvise_sink cookie) class anchor = nothing

  of_connection_enum-Fine :
      (p : Address) (method : Method)
      → Fits m (connection_enum p)
      → Lives p m
      → Fine (of_connection_enum p owners method m)
  unfolding Fine of_connection_enum
  of_connection_enum-Fine p clone class live =
      bind (clone_connections-Dead 0 owners m p class live three) λ e m1 h. returns h.0
  of_connection_enum-Fine p keep class live = nothing
  of_connection_enum-Fine p give_back class live = nothing
  of_connection_enum-Fine p enumerate class live = nothing
  of_connection_enum-Fine p container_of class live = nothing
  of_connection_enum-Fine p (find identity is_point) class live = nothing
  of_connection_enum-Fine p (advise_sink taken cookie) class live = nothing
  of_connection_enum-Fine p (unadvise_sink cookie) class live = nothing

  of_kind-Fine :
      (this : Address) (method : Method) (k : Kind)
      → shape_of (get_elem? m this) ≡ some (shape k)
      → Fits m (shape k)
      → 0 < occ this owners
      → Fine (of_kind this owners method k m)
  unfolding Fine of_kind
  of_kind-Fine this method (point_container proxies) at fits own =
      of_container-Fine this method at own
  of_kind-Fine this method (point container connections) at fits own =
      of_point-Fine this container method at
        (Anchored-Lives 5 owners m container b
          (inr (this, point container [], own, at, ground arith)))
        own
  of_kind-Fine this method (point_enum container) at fits own =
      of_point_enum-Fine container method fits
        (inr (this, point_enum container, own, at, ground arith))
  of_kind-Fine this method (connection_enum p) at fits own =
      of_connection_enum-Fine p method fits
        (Anchored-Lives 5 owners m p b (inr (this, connection_enum p, own, at, ground arith)))
  of_kind-Fine this method sink at fits own = nothing

pub more-Room :
    {owners : List Address} {m : Memory} → Room m → Balanced 0 owners m → Balanced 5 owners m
more-Room room b = record { counted = b.counted; room = room }

loaded-Returns :
    (owners : List Address) (m : Memory) (this : Address) (method : Method)
    → 0 < occ this owners
    → Room m
    → Typed m
    → Balanced 0 owners m
    → Returns
        (λ o m'. Stable 0 o m m')
        (and_then (load this m) (λ cell. of_kind this owners method cell.kind))
unfolding Fine
loaded-Returns owners m this method own room typed b =
    let (cell, e, d) = owned-Lives 0 owners m this b own in
    rw (load-Lives this m cell e d) (
      of_kind-Fine owners m (more-Room room b) this method cell.kind (ap shape_of e)
        (typed this (shape cell.kind) (ap shape_of e)) own)

-- In a memory where every count is the number of references to the object, those of clients and
-- those of members of objects that live, where each count is at least five below the end of 32
-- bits, and where members are of their classes: any call on an object that the caller owns a
-- reference to returns. It uses no deleted object, and destructors end. Afterwards the counts are
-- the references again, among them what the call handed out, a container and a proxy that point to
-- each other still do, what was deleted stays so, and members are of their classes.
pub call-Returns :
    (owners : List Address) (m : Memory) (this : Address) (method : Method)
    → 0 < occ this owners
    → Room m
    → Typed m
    → Balanced 0 owners m
    → Returns (λ o m'. Stable 0 o m m') (call this owners method m)
unfolding call
call-Returns owners m this keep own room typed b =
    bind
      (add_reference-Returns 0 owners m this (owned-Lives 0 owners m this b own)
        (Balanced-less (omega arith) (more-Room room b)))
      λ u m1 s. returns s
call-Returns owners m this give_back own room typed b =
    bind
      (release_reference-Returns 0 (erase this owners) m this
        (Balanced-occ (λ j. occ-erase this j owners own) b))
      λ u m1 s. returns s
call-Returns owners m this method own room typed b =
    loaded-Returns owners m this method own room typed b
