-- ===== src/Memory/Methods.antt =====
-- The methods that hand out references to objects of the host, reference by reference:
-- src/connection_point_container.cc, src/connection_point.cc, src/enum_connection_points.cc and
-- src/enum_connections.cc.
use axhost.Common.{ℕ, ◌==◌, Bool, true, false, if◌then◌else◌, List, [], ◌∷◌, Option, none, some}
use axhost.Memory.{
  Address, Kind, point_container, point, point_enum, connection_enum, sink, Cmd, pure, ◌>>=◌, ◌>>◌,
  load, store, allocate, add_reference, release_reference,
}

abbrev pub lookup : ℕ → List (ℕ × Address) → Option Address
lookup k [] = none
lookup k (e ∷ es) = if e.0 == k then some e.1 else lookup k es

-- find in the map of a class: m_proxyConnectionPoints by identity, m_connections by cookie.
abbrev pub entry_of : ℕ → Kind → Option Address
entry_of k (point_container proxies) = lookup k proxies
entry_of k (point container connections) = lookup k connections
entry_of k (point_enum container) = none
entry_of k (connection_enum p) = none
entry_of k sink = none

abbrev pub with_entry : ℕ → Address → Kind → Kind
with_entry k a (point_container proxies) = point_container ((k, a) ∷ proxies)
with_entry k a (point container connections) = point container ((k, a) ∷ connections)
with_entry k a (point_enum container) = point_enum container
with_entry k a (connection_enum p) = connection_enum p
with_entry k a sink = sink

-- emplace of a key that the map does not have: it copies the smart pointer.
unfoldable pub emplace : Address → ℕ → Address → Cmd (Unit {0})
emplace this k a = do
  add_reference a
  cell ← load this
  store this (record cell { kind = with_entry k a cell.kind })

-- An object of a class with one member, which the constructor copies.
unfoldable pub construct : Address → Kind → Cmd Address
construct member kind = do add_reference member; allocate kind

-- A CComPtr takes a new object, and a CComQIPtr a second reference to it; then the CComPtr ends,
-- and the other is detached.
unfoldable pub hand_out : Address → Cmd Address
hand_out concrete = do
  add_reference concrete
  add_reference concrete
  release_reference concrete
  pure concrete

-- HostConnectionPointContainer::GetProxyConnectionPoint where the map has no proxy.
unfoldable pub make_proxy : Address → ℕ → Cmd Address
make_proxy this identity = do
  p ← construct this (point this [])
  add_reference p
  add_reference p
  emplace this identity p
  add_reference p
  release_reference p
  release_reference p
  pure p

-- And where it has one: the pointer of the map is copied twice, and one copy ends.
unfoldable pub copy_proxy : Address → Cmd Address
copy_proxy p = do add_reference p; add_reference p; release_reference p; pure p

-- `is_point`: the control's object is a connection point.
unfoldable pub proxy_or_new : Address → ℕ → Bool → Option Address → Cmd (Option Address)
proxy_or_new this identity is_point (some p) = do q ← copy_proxy p; pure (some q)
proxy_or_new this identity false none = pure none
proxy_or_new this identity true none = do p ← make_proxy this identity; pure (some p)

-- GetProxyConnectionPoint: the proxy that is handed out, if it succeeds.
unfoldable pub get_proxy_connection_point : Address → ℕ → Bool → Cmd (Option Address)
get_proxy_connection_point this identity is_point = do
  cell ← load this
  proxy_or_new this identity is_point (entry_of identity cell.kind)

-- HostConnectionPointContainer::EnumConnectionPoints, HostConnectionPoint::EnumConnections.
unfoldable pub enum_connection_points : Address → Cmd Address
enum_connection_points this = do e ← construct this (point_enum this); hand_out e

unfoldable pub enum_connections : Address → Cmd Address
enum_connections this = do e ← construct this (connection_enum this); hand_out e

-- HostEnumConnectionPoints::Clone of an enumerator with the member `container`.
unfoldable pub clone_points : Address → Cmd Address
clone_points container = do e ← construct container (point_enum container); hand_out e

-- HostConnectionPoint::GetConnectionPointContainer.
unfoldable pub get_connection_point_container : Address → Cmd Address
get_connection_point_container container = do add_reference container; pure container

-- HostEnumConnections::Clone of an enumerator with the member `p`: the CComQIPtr is not detached,
-- and what it held is handed out.
unfoldable pub clone_connections : Address → Cmd Address
clone_connections p = do
  e ← construct p (connection_enum p)
  add_reference e
  add_reference e
  release_reference e
  release_reference e
  pure e

-- HostConnectionPoint::Advise once the control has answered: `taken`: whether the control keeps a
-- reference to the sink; `cookie`: what it answered, if it succeeded. A cookie that the map has
-- keeps its sink.
unfoldable pub keep_new : Address → ℕ → Address → Option Address → Cmd (Unit {0})
keep_new this cookie s (some old) = pure tt
keep_new this cookie s none = emplace this cookie s

unfoldable pub keep_sink : Address → Option ℕ → Address → Cmd (Unit {0})
keep_sink this none s = pure tt
keep_sink this (some cookie) s = do
  cell ← load this
  keep_new this cookie s (entry_of cookie cell.kind)

unfoldable pub take_if : Bool → Address → Cmd (Unit {0})
take_if true s = add_reference s
take_if false s = pure tt

-- The result: the new sink if the control took a reference to it.
unfoldable pub advise : Address → Bool → Option ℕ → Cmd (Option Address)
advise this taken cookie = do
  s ← allocate sink
  add_reference s
  add_reference s
  take_if taken s
  keep_sink this cookie s
  release_reference s
  release_reference s
  pure (if taken then some s else none)

abbrev pub without : ℕ → List (ℕ × Address) → List (ℕ × Address)
without k [] = []
without k (e ∷ es) = if e.0 == k then es else e ∷ without k es

abbrev pub without_entry : ℕ → Kind → Kind
without_entry k (point_container proxies) = point_container (without k proxies)
without_entry k (point container connections) = point container (without k connections)
without_entry k (point_enum container) = point_enum container
without_entry k (connection_enum p) = connection_enum p
without_entry k sink = sink

-- HostConnectionPoint::Unadvise once the control has succeeded: erase of the cookie in the map.
unfoldable pub erase_entry : Address → ℕ → Option Address → Cmd (Unit {0})
erase_entry this cookie none = pure tt
erase_entry this cookie (some s) = do
  cell ← load this
  store this (record cell { kind = without_entry cookie cell.kind })
  release_reference s

unfoldable pub unadvise : Address → ℕ → Cmd (Unit {0})
unadvise this cookie = do cell ← load this; erase_entry this cookie (entry_of cookie cell.kind)
