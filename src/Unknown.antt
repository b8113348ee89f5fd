-- ===== src/Unknown.antt =====
-- CUnknownImpl, src/unknown_impl.h, the base of the host's small COM objects, and
-- HostExternalConnection, src/external_connection.cc, which is one of them.
pub mod Counting
pub mod Connecting
pub mod Counted
use axhost.Common.{
  ℕ, Bool, true, false, not, ◌==◌, ◌+◌, ◌-◌, ◌%◌, ◌^◌, if◌then◌else◌, List, [], ◌∷◌, Option, none,
  some,
}
use axhost.Common.Hresult.{s_ok, e_pointer, e_nointerface}

-- The interfaces that an object of CUnknownImpl<Derived> tells apart.
pub data Asked : Type 0 where
  unknown derived other : Asked

-- m_ref, and whether the object was deleted.
pub record Object : Type 0 where
  pub ref : ℕ
  pub deleted : Bool

-- A 32-bit ULONG that is counted up and down.
abbrev pub increment : ℕ → ℕ
increment n = (n + 1) % 2 ^ 32

abbrev pub decrement : ℕ → ℕ
decrement n = (n + (2 ^ 32 - 1)) % 2 ^ 32

-- AddRef: what it returns, and the object.
unfoldable pub add_ref : Object → ℕ × Object
add_ref o = let n : ℕ = increment o.ref in (n, record o { ref = n })

-- Release.
unfoldable pub release : Object → ℕ × Object
release o =
    let n : ℕ = decrement o.ref in
    (n, (if n == 0 then record { ref = n; deleted = true } else record o { ref = n }))

unfoldable pub knows : Asked → Bool
knows unknown = true
knows derived = true
knows other = false

-- QueryInterface; `wanted`: the result's address is not null.
unfoldable pub query_interface : Bool → Asked → Object → ℕ × Object
query_interface wanted riid o =
    if not wanted
    then (e_pointer, o)
    else if not (knows riid)
    then (e_nointerface, o)
    else (s_ok, (add_ref o).1)

-- The control's IExternalConnection, and CoDisconnectObject; a world is their state.
pub record External : Type 1 where
  pub World : Type 0
  pub add_connection : ℕ → ℕ → World → World × ℕ
  pub release_connection : ℕ → ℕ → Bool → World → World × ℕ
  pub disconnect_object : World → World

module _ (ext : External) where
  open ext use {World, disconnect_object}

  -- HostExternalConnection::AddConnection: what it returns and m_con; `underlying`: the control
  -- has the interface.
  unfoldable pub add_connection : Bool → ℕ → ℕ → ℕ × World → ℕ × ℕ × World
  add_connection underlying extconn reserved (con, w) =
      let n : ℕ = increment con in
      if underlying
      then (let (w1, m) = ext.add_connection extconn reserved w in (m, n, w1))
      else (n, n, w)

  -- CoDisconnectObject at the end of ReleaseConnection.
  unfoldable pub disconnect_if : Bool → World → World
  disconnect_if last_release_closes w = if last_release_closes then disconnect_object w else w

  -- HostExternalConnection::ReleaseConnection.
  unfoldable pub release_connection : Bool → ℕ → ℕ → Bool → ℕ × World → ℕ × ℕ × World
  release_connection underlying extconn reserved last_release_closes (con, w) =
      let n : ℕ = decrement con in
      if underlying
      then (let (w1, m) = ext.release_connection extconn reserved last_release_closes w in
          (m, n, disconnect_if last_release_closes w1))
      else (n, n, disconnect_if last_release_closes w)
