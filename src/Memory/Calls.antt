-- ===== src/Memory/Calls.antt =====
-- The calls that clients make of the objects: AddRef and Release of src/unknown_impl.h and the
-- methods that hand out references, with what the clients own afterwards.
use axhost.Common.{
  ℕ, ◌+◌, ◌<◌, ◌^◌, ◌≡◌, Bool, ◌==◌, if◌then◌else◌, List, [], ◌∷◌, ◌++◌, Option, some, get_elem?,
}
use axhost.Memory.{
  Address, Kind, point_container, point, point_enum, connection_enum, sink, Cell, Memory, ok, Cmd,
  pure, ◌>>=◌, ◌>>◌, load, add_reference, release_reference,
}
use axhost.Memory.Counts.{occ}
use axhost.Memory.Methods.{
  get_proxy_connection_point, enum_connection_points, enum_connections, clone_points,
  clone_connections, get_connection_point_container, advise, unadvise,
}
use axhost.Memory.Proxies.{given}

-- find: FindConnectionPoint of a container, and Next of an enumerator of points, for each point;
-- enumerate: EnumConnectionPoints and EnumConnections.
pub data Method : Type 0 where
  keep give_back enumerate clone container_of : Method
  find : (identity : ℕ) → (is_point : Bool) → Method
  advise_sink : (taken : Bool) → (cookie : Option ℕ) → Method
  unadvise_sink : (cookie : ℕ) → Method

-- A reference is given up.
abbrev pub erase : Address → List Address → List Address
erase i [] = []
erase i (j ∷ js) = if j == i then js else j ∷ erase i js

-- The methods of each class; the clients own `owners`. A class without the method is not called.
unfoldable pub of_container : Address → List Address → Method → Cmd (List Address)
of_container this owners enumerate = do e ← enum_connection_points this; pure (e ∷ owners)
of_container this owners (find identity is_point) = do
  r ← get_proxy_connection_point this identity is_point
  pure (given r ++ owners)
of_container this owners other = pure owners

unfoldable pub of_point : Address → Address → List Address → Method → Cmd (List Address)
of_point this container owners enumerate = do e ← enum_connections this; pure (e ∷ owners)
of_point this container owners container_of = do
  c ← get_connection_point_container container
  pure (c ∷ owners)
of_point this container owners (advise_sink taken cookie) = do
  r ← advise this taken cookie
  pure (given r ++ owners)
of_point this container owners (unadvise_sink cookie) = do unadvise this cookie; pure owners
of_point this container owners other = pure owners

unfoldable pub of_point_enum : Address → List Address → Method → Cmd (List Address)
of_point_enum container owners clone = do e ← clone_points container; pure (e ∷ owners)
of_point_enum container owners (find identity is_point) = do
  r ← get_proxy_connection_point container identity is_point
  pure (given r ++ owners)
of_point_enum container owners other = pure owners

-- Clone of an enumerator of connections gives a pointer and no reference.
unfoldable pub of_connection_enum : Address → List Address → Method → Cmd (List Address)
of_connection_enum p owners clone = do e ← clone_connections p; pure owners
of_connection_enum p owners other = pure owners

unfoldable pub of_kind : Address → List Address → Method → Kind → Cmd (List Address)
of_kind this owners method (point_container proxies) = of_container this owners method
of_kind this owners method (point container connections) = of_point this container owners method
of_kind this owners method (point_enum container) = of_point_enum container owners method
of_kind this owners method (connection_enum p) = of_connection_enum p owners method
of_kind this owners method sink = pure owners

unfoldable pub call : Address → List Address → Method → Cmd (List Address)
call this owners keep = do add_reference this; pure (this ∷ owners)
call this owners give_back = do release_reference this; pure (erase this owners)
call this owners method = do cell ← load this; of_kind this owners method cell.kind

-- No object has so many references that a call could overflow its count of 32 bits.
abbrev pub Room : Memory → Type 0
Room m = (i : Address) (c : Cell) → get_elem? m i ≡ some c → c.object.ref + 5 < 2 ^ 32

-- The calls that are made one behind the other, each of an object to which the caller owns a reference.
pub data Reach (owners : List Address) (m : Memory) : List Address → Memory → Type 0 where
  here : Reach owners m owners m
  next :
      {o o' : List Address} {m1 m2 : Memory} (this : Address) (method : Method)
      → Reach owners m o m1
      → Room m1
      → 0 < occ this o
      → call this o method m1 ≡ ok o' m2
      → Reach owners m o' m2
