-- ===== src/Memory.antt =====
-- The host's objects in memory: those of CUnknownImpl, src/unknown_impl.h, whose members point to
-- one another by CComPtr: src/connection_point_container.h, src/connection_point.h,
-- src/enum_connection_points.h, src/enum_connections.h and src/sink.h.
pub mod Counts
pub mod Balance
pub mod Dropped
pub mod Cycle
pub mod Kinds
pub mod Owned
pub mod Freed
pub mod Methods
pub mod Handed
pub mod Entered
pub mod Proxies
pub mod Enumerators
pub mod Sinks
pub mod Calls
pub mod Served
pub mod Histories
use axhost.Common.{
  ℕ, zero, suc, ◌+◌, Bool, true, false, ◌==◌, if◌then◌else◌, List, [], ◌∷◌, ◌++◌, Option, none,
  some, length, map, get_elem?,
}
use axhost.Unknown.{Object, add_ref, release}
use axhost.Unknown

-- The address of an object.
abbrev pub Address : Type 0
Address = ℕ

-- The classes, with the members that point to objects of the host: the proxies of a
-- HostConnectionPointContainer by identity; the container of a HostConnectionPoint, and its sinks
-- by cookie; the container and the point of the two enumerators. A HostEventSink has none.
pub data Kind : Type 0 where
  point_container : List (ℕ × Address) → Kind
  point : Address → List (ℕ × Address) → Kind
  point_enum : Address → Kind
  connection_enum : Address → Kind
  sink : Kind

abbrev pub values : List (ℕ × Address) → List Address
values [] = []
values (e ∷ es) = e.1 ∷ values es

abbrev pub members : Kind → List Address
members (point_container proxies) = values proxies
members (point container connections) = container ∷ values connections
members (point_enum container) = container ∷ []
members (connection_enum p) = p ∷ []
members sink = []

-- An object with its count. A deleted object stays, and nothing may use it.
pub record Cell : Type 0 where
  pub object : Object
  pub kind : Kind

abbrev pub Memory : Type 0
Memory = List Cell

-- The elements with the one at an index replaced.
abbrev pub set : Memory → ℕ → Cell → Memory
set [] i v = []
set (x ∷ xs) zero v = v ∷ xs
set (x ∷ xs) (suc i) v = x ∷ set xs i v

-- A call returns, uses a deleted object, or runs out of fuel.
pub data Run (A : Type 0) : Type 0 where
  ok : A → Memory → Run A
  fault : Run A
  out_of_fuel : Run A

abbrev pub Cmd : Type 0 → Type 0
Cmd A = Memory → Run A

abbrev pub pure : {A : Type 0} → A → Cmd A
pure = ok

module _ {A B : Type 0} where
  abbrev pub and_then : Run A → (A → Cmd B) → Run B
  and_then (ok a m) k = k a m
  and_then fault k = fault
  and_then out_of_fuel k = out_of_fuel

  infixl 5 ◌>>=◌ ◌>>◌
  abbrev pub ◌>>=◌ : Cmd A → (A → Cmd B) → Cmd B
  c >>= k = λ m. and_then (c m) k

  abbrev pub ◌>>◌ : Cmd A → Cmd B → Cmd B
  c >> d = c >>= λ _. d

abbrev pub load_cell : Option Cell → Cmd Cell
load_cell none m = fault
load_cell (some c) m = if c.object.deleted then fault else ok c m

unfoldable pub load : Address → Cmd Cell
load i m = load_cell (get_elem? m i) m

-- A write to an object that was loaded.
unfoldable pub store : Address → Cell → Cmd (Unit {0})
store i c m = ok tt (set m i c)

-- `new`: an object that nobody counts yet.
unfoldable pub allocate : Kind → Cmd Address
allocate kind m =
    ok (length m) (m ++ record { object = record { ref = 0; deleted = false }; kind = kind } ∷ [])

unfoldable pub add_reference : Address → Cmd (Unit {0})
add_reference i = do c ← load i; store i (record c { object = (add_ref c.object).1 })

-- Release, up to the destructor: what the members of the deleted object point to.
unfoldable pub drop : Address → Cmd (List Address)
drop i = do
  c ← load i
  let object = (release c.object).1
  store i (record c { object = object })
  pure (if object.deleted then members c.kind else [])

-- Releases one behind the other, with the destructors, which release the members first.
unfoldable pub release_all : ℕ → List Address → Cmd (Unit {0})
release_all fuel [] = pure tt
release_all zero (i ∷ rest) = λ m. out_of_fuel
release_all (suc fuel) (i ∷ rest) = do freed ← drop i; release_all fuel (freed ++ rest)

-- The count of an object that was not deleted.
abbrev pub strength : Cell → ℕ
strength c = if c.object.deleted then 0 else c.object.ref

abbrev pub total : Memory → ℕ
total [] = 0
total (c ∷ m) = strength c + total m

-- The release of a reference. The fuel is more than there are references.
unfoldable pub release_reference : Address → Cmd (Unit {0})
release_reference i m = release_all (total m + 1) (i ∷ []) m
