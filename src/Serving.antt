-- ===== src/Serving.antt =====
-- A standalone host as a whole: its runtime of src/surrogate_runtime.cc with the containers of
-- src/container.cc that its class objects made, and every client that uses them.
pub mod Views
pub mod Uses
pub mod Refinement
pub mod Exit
pub mod Starting
pub mod Methods
pub mod Ending
use axhost.Common.{
  if◌then◌else◌, ℕ, zero, suc, ◌+◌, ◌-◌, ◌<◌, ◌^◌, ◌≡◌, Bool, true, false, List, [], ◌∷◌, Option,
  none, some, get_elem?,
}
use axhost.ClassSpec.{Uuid}
use axhost.Com.{Com}
use axhost.Runtime.{Runtime, standalone, timed_out, step}
use axhost.Container.{
  Iid, Widget, Container, create_instance, release, add_ref, query_interface, lock_server,
}

-- The elements with the one at an index replaced.
abbrev pub set {ℓ} : {A : Type ℓ} → List A → ℕ → A → List A
set [] i v = []
set (x ∷ xs) zero v = v ∷ xs
set (x ∷ xs) (suc i) v = x ∷ set xs i v

abbrev pub or_none {ℓ} : {A : Type ℓ} → Option A → A → A
or_none none a = a
or_none (some b) a = b

abbrev pub add {ℓ} : {A : Type ℓ} → Option A → List A → List A
add none xs = xs
add (some x) xs = x ∷ xs

module _ (ole : Com) (widget : Widget) where
  -- The containers are those ever made, and `locks` those that clients hold by LockServer.
  pub record Server : Type 0 where
    pub runtime : Runtime ole
    pub control : widget.World
    pub containers : List Container
    pub locks : ℕ

  -- A client calls CreateInstance of a class object.
  unfoldable pub create : Iid → Uuid → ℕ → Server → Server
  create riid clsid clsctx s =
      let (hr, given, made, rt, w) =
        create_instance ole standalone widget false true riid clsid clsctx (some s.runtime)
          s.control in
      record s { runtime = or_none rt s.runtime; control = w; containers = add made s.containers }

  -- A client calls Release, AddRef or QueryInterface of the container `c`, which stands at `i`.
  unfoldable pub drop : ℕ → Container → Server → Server
  drop i c s =
      let (c', rt) = release ole standalone widget c (some s.runtime) in
      record s { runtime = or_none rt s.runtime; containers = set s.containers i c' }

  unfoldable pub keep : ℕ → Container → Server → Server
  keep i c s = record s { containers = set s.containers i (add_ref c) }

  unfoldable pub ask : ℕ → Iid → Container → Server → Server
  ask i riid c s =
      let (hr, given, c', w) = query_interface ole standalone widget true riid c s.control in
      record s { control = w; containers = set s.containers i c' }

  -- A client calls LockServer.
  unfoldable pub lock : Bool → Server → Server
  lock locked s =
      let (hr, rt) = lock_server ole standalone widget locked (some s.runtime) in
      record s {
        runtime = or_none rt s.runtime;
        locks = if locked then s.locks + 1 else s.locks - 1;
      }

  -- The exit timer runs out.
  unfoldable pub time_out : Server → Server
  time_out s = record s { runtime = step ole standalone timed_out s.runtime }

  -- What clients do: they use only containers that were not deleted, hold fewer than 2^32
  -- references of each, and unlock only what they locked.
  pub data Step : Server → Server → Type 0 where
    creates :
        (s : Server) (riid : Iid) (clsid : Uuid) (clsctx : ℕ) → Step s (create riid clsid clsctx s)
    drops :
        (s : Server) (i : ℕ) (c : Container)
        → get_elem? s.containers i ≡ some c
        → c.deleted ≡ false
        → Step s (drop i c s)
    keeps :
        (s : Server) (i : ℕ) (c : Container)
        → get_elem? s.containers i ≡ some c
        → c.deleted ≡ false
        → c.ref + 1 < 2 ^ 32
        → Step s (keep i c s)
    asks :
        (s : Server) (i : ℕ) (riid : Iid) (c : Container)
        → get_elem? s.containers i ≡ some c
        → c.deleted ≡ false
        → c.ref + 1 < 2 ^ 32
        → Step s (ask i riid c s)
    locks : (s : Server) → Step s (lock true s)
    unlocks : (s : Server) → 0 < s.locks → Step s (lock false s)
    times_out : (s : Server) → Step s (time_out s)

  pub data Reach (s : Server) : Server → Type 0 where
    here : Reach s s
    next : {t u : Server} → Reach s t → Step t u → Reach s u
