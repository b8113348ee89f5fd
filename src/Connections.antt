-- ===== src/Connections.antt =====
-- HostConnectionPoint and HostEnumConnections, src/connection_point.cc and
-- src/enum_connections.cc: the host's sinks stand between a control and its clients' sinks.
pub mod Sinks
pub mod Enumeration
pub mod Refinement
use axhost.Common.{
  ℕ, ltb, Bool, true, false, not, ◌&&◌, ◌||◌, ◌==◌, if◌then◌else◌, List, [], ◌∷◌, map, Option, none,
  some,
}
use axhost.Common.Hresult.{
  failed, succeeded, s_ok, e_pointer, e_unexpected, e_invalidarg, e_outofmemory,
}
use axhost.Common.Assoc.{find, emplace, erase}
use axhost.Com.{Pointer}
use axhost.ClassSpec.{Uuid}

-- CONNECTDATA.
pub record ConnectData : Type 0 where
  pub unk : Pointer
  pub cookie : ℕ

-- The control's IConnectionPoint, and the allocation of sinks; a world is their state.
pub record Source : Type 1 where
  pub World : Type 0
  -- `new HostEventSink(sink)`, as its IUnknown; null if there is no memory.
  pub new_sink : Pointer → World → World × Pointer
  -- IConnectionPoint::Advise: the HRESULT and the cookie.
  pub advise : Pointer → World → World × ℕ × ℕ
  pub unadvise : ℕ → World → World × ℕ
  -- IConnectionPoint::GetConnectionInterface: the HRESULT and the identifier.
  pub get_connection_interface : World → World × ℕ × Uuid
  -- IConnectionPoint::EnumConnections: the HRESULT and the enumerator.
  pub enum_connections : World → World × ℕ × Pointer
  -- IEnumConnections::Next, Skip, Reset and Clone of an enumerator.
  pub next : Pointer → ℕ → World → World × ℕ × List ConnectData
  pub skip : Pointer → ℕ → World → World × ℕ
  pub reset : Pointer → World → World × ℕ
  pub clone : Pointer → World → World × ℕ × Pointer
  -- `new HostEnumConnections(underlying, point)`, as its IEnumConnections.
  pub new_enum : Pointer → World → World × Pointer

-- The two maps of HostConnectionPoint: the host's sink and the client's sink of each cookie.
pub record Maps : Type 0 where
  pub connections : List (ℕ × Pointer)
  pub underlying_connections : List (ℕ × Pointer)

-- GetUnderlyingSink: the HRESULT and the sink.
unfoldable pub get_underlying_sink : Bool → ℕ → Maps → ℕ × Pointer
get_underlying_sink wanted cookie maps =
    if not wanted then (e_pointer, 0) else elim (find cookie maps.underlying_connections) [
      | none ↦ (e_unexpected, 0)
      | some underlying ↦ if underlying == 0 then (e_unexpected, 0) else (s_ok, underlying)
    ]

-- One round of the loop of HostEnumConnections::Next.
unfoldable pub translate : Maps → ConnectData → ConnectData
translate maps entry =
    let (hr, underlying) = get_underlying_sink true entry.cookie maps in
    if failed hr
    then entry
    else if underlying == 0
    then entry
    else record entry { unk = underlying }

module _ (source : Source) where
  open source use {World, new_sink}

  -- Advise; `wants_cookie`: the cookie's address is not null.
  unfoldable pub advise : Pointer → Bool → Maps × World → ℕ × ℕ × Maps × World
  advise sink wants_cookie (maps, w) =
      if sink == 0 || not wants_cookie
      then (e_invalidarg, 0, maps, w)
      else let (w1, proxy) = new_sink sink w in
        if proxy == 0
        then (e_outofmemory, 0, maps, w1)
        else let (w2, hr, cookie) = source.advise proxy w1 in
          if succeeded hr
          then (
            hr,
            cookie,
            record {
              connections = emplace cookie proxy maps.connections;
              underlying_connections = emplace cookie sink maps.underlying_connections;
            },
            w2,
          )
          else (hr, cookie, maps, w2)

  unfoldable pub unadvise : ℕ → Maps × World → ℕ × Maps × World
  unadvise cookie (maps, w) =
      let (w1, hr) = source.unadvise cookie w in
      if succeeded hr
      then (
        hr,
        record {
          connections = erase cookie maps.connections;
          underlying_connections = erase cookie maps.underlying_connections;
        },
        w1,
      )
      else (hr, maps, w1)

  -- GetConnectionInterface; `wanted`: the result's address is not null; `underlying`: the control's
  -- connection point.
  unfoldable pub get_connection_interface : Bool → Pointer → World → World × ℕ × Uuid
  get_connection_interface wanted underlying w =
      if not wanted
      then (w, e_pointer, 0)
      else if underlying == 0
      then (w, e_unexpected, 0)
      else source.get_connection_interface w

  -- GetConnectionPointContainer: the HRESULT and the member's IConnectionPointContainer.
  unfoldable pub get_connection_point_container : Bool → Pointer → ℕ × Pointer
  get_connection_point_container wanted container =
      if not wanted
      then (e_pointer, 0)
      else if container == 0
      then (e_unexpected, 0)
      else (s_ok, container)

  -- EnumConnections; `wanted`: the result's address is not null.
  pub enum_connections : Bool → World → World × ℕ × Pointer
  enum_connections wanted w =
      if not wanted
      then (w, e_pointer, 0)
      else let (w1, hr, underlying) = source.enum_connections w in
        if failed hr
        then (w1, hr, 0)
        else if underlying == 0
        then (w1, e_unexpected, 0)
        else let (w2, proxy) = source.new_enum underlying w1 in
          if proxy == 0 then (w2, e_outofmemory, 0) else (w2, hr, proxy)

  -- HostEnumConnections::Next: the HRESULT and the entries that were fetched. `wanted`,
  -- `wants_count`: the two addresses are not null; a null `underlying` is an enumerator with none.
  unfoldable pub next : Bool → Bool → Pointer → ℕ → Maps → World → World × ℕ × List ConnectData
  next wanted wants_count underlying count maps w =
      if not wanted
      then (w, e_pointer, [])
      else if ltb 1 count && not wants_count
      then (w, e_pointer, [])
      else if underlying == 0
      then (w, e_unexpected, [])
      else let (w1, hr, fetched) = source.next underlying count w in
        (w1, hr, map (translate maps) fetched)

  pub skip : Pointer → ℕ → World → World × ℕ
  skip underlying count w =
      if underlying == 0 then (w, e_unexpected) else source.skip underlying count w

  pub reset : Pointer → World → World × ℕ
  reset underlying w = if underlying == 0 then (w, e_unexpected) else source.reset underlying w

  -- HostEnumConnections::Clone: the HRESULT and the pointer that is written.
  pub clone : Bool → Pointer → World → World × ℕ × Pointer
  clone wanted underlying w =
      if not wanted
      then (w, e_pointer, 0)
      else if underlying == 0
      then (w, e_unexpected, 0)
      else let (w1, hr, copy) = source.clone underlying w in
        if failed hr
        then (w1, hr, 0)
        else let (w2, proxy) = source.new_enum copy w1 in
          if proxy == 0 then (w2, e_outofmemory, 0) else (w2, hr, proxy)
