-- ===== src/Points.antt =====
-- HostConnectionPointContainer and HostEnumConnectionPoints, src/connection_point_container.cc
-- and src/enum_connection_points.cc: one proxy for each connection point of the control.
pub mod Identity
use axhost.Common.{
  ℕ, ltb, Bool, true, false, not, ◌&&◌, ◌||◌, ◌==◌, if◌then◌else◌, List, [], ◌∷◌, Option, none,
  some,
}
use axhost.Common.Hresult.{failed, s_ok, e_pointer, e_unexpected, e_invalidarg, e_outofmemory}
use axhost.Common.Assoc.{find, emplace}
use axhost.Com.{Pointer}

-- The control's IConnectionPointContainer; a world is its state.
pub record PointSource : Type 1 where
  pub World : Type 0
  -- QueryInterface of a connection point for IUnknown, its identity: the HRESULT and the pointer.
  pub identity : Pointer → World → World × ℕ × Pointer
  -- `CComQIPtr<IConnectionPoint>` of an identity; null if it has no such interface.
  pub as_point : Pointer → World → World × Pointer
  -- `new HostConnectionPoint(underlying, this)`, as its IConnectionPoint.
  pub new_point : Pointer → World → World × Pointer
  -- IConnectionPointContainer::FindConnectionPoint and EnumConnectionPoints.
  pub find_connection_point : ℕ → World → World × ℕ × Pointer
  pub enum_connection_points : World → World × ℕ × Pointer
  -- IEnumConnectionPoints::Next, Skip, Reset and Clone of an enumerator.
  pub next : Pointer → ℕ → World → World × ℕ × List Pointer
  pub skip : Pointer → ℕ → World → World × ℕ
  pub reset : Pointer → World → World × ℕ
  pub clone : Pointer → World → World × ℕ × Pointer
  -- `new HostEnumConnectionPoints(underlying, container)`, as its IEnumConnectionPoints.
  pub new_enum : Pointer → World → World × Pointer

-- m_proxyConnectionPoints.
abbrev pub Proxies : Type 0
Proxies = List (ℕ × Pointer)

module _ (source : PointSource) where
  open source use {World, identity, as_point, new_point, new_enum}

  -- The branch of GetProxyConnectionPoint for a point without a proxy.
  unfoldable pub make_proxy : Pointer → Proxies × World → ℕ × Pointer × Proxies × World
  make_proxy point (proxies, w) =
      let (w1, underlying) = as_point point w in
      if underlying == 0
      then (e_unexpected, 0, proxies, w1)
      else let (w2, proxy) = new_point underlying w1 in
        if proxy == 0
        then (e_outofmemory, 0, proxies, w2)
        else (s_ok, proxy, emplace point proxy proxies, w2)

  -- GetProxyConnectionPoint; `wanted`: the result's address is not null.
  unfoldable pub get_proxy_connection_point :
      Bool → Pointer → Proxies × World → ℕ × Pointer × Proxies × World
  get_proxy_connection_point wanted point (proxies, w) =
      if not wanted
      then (e_pointer, 0, proxies, w)
      else if point == 0
      then (e_invalidarg, 0, proxies, w)
      else elim (find point proxies) [
        | none ↦ make_proxy point (proxies, w)
        | some proxy ↦
            if proxy == 0 then (e_unexpected, 0, proxies, w) else (s_ok, proxy, proxies, w)
      ]

  -- EnumConnectionPoints of a container whose control is there.
  pub enum_connection_points : Bool → World → World × ℕ × Pointer
  enum_connection_points wanted w =
      if not wanted
      then (w, e_pointer, 0)
      else let (w1, hr, underlying) = source.enum_connection_points w in
        if failed hr
        then (w1, hr, 0)
        else if underlying == 0
        then (w1, e_unexpected, 0)
        else let (w2, proxy) = new_enum underlying w1 in
          if proxy == 0 then (w2, e_outofmemory, 0) else (w2, s_ok, proxy)

  -- FindConnectionPoint of a container whose control is there.
  unfoldable pub find_connection_point : Bool → ℕ → Proxies × World → ℕ × Pointer × Proxies × World
  find_connection_point wanted riid (proxies, w) =
      if not wanted
      then (e_pointer, 0, proxies, w)
      else let (w1, hr, underlying) = source.find_connection_point riid w in
        if failed hr
        then (hr, 0, proxies, w1)
        else if underlying == 0
        then (e_unexpected, 0, proxies, w1)
        else let (w2, qry, unknown) = identity underlying w1 in
          if failed qry
          then (qry, 0, proxies, w2)
          else if unknown == 0
          then (e_unexpected, 0, proxies, w2)
          else get_proxy_connection_point true unknown (proxies, w2)

  -- The loop of HostEnumConnectionPoints::Next: the HRESULT it returns early, if it does, and
  -- the points.
  unfoldable pub show_loop :
      List Pointer → Proxies × World → Option ℕ × List Pointer × Proxies × World
  show_loop [] (proxies, w) = (none, [], proxies, w)
  show_loop (point ∷ points) (proxies, w) =
      let (w1, qry, unknown) = identity point w in
      let (hr, proxy, proxies1, w2) = get_proxy_connection_point true unknown (proxies, w1) in
      let (early, rest, proxies2, w3) = show_loop points (proxies1, w2) in
      if failed qry
      then (some qry, point ∷ points, proxies, w1)
      else if unknown == 0
      then (some e_unexpected, point ∷ points, proxies, w1)
      else (early, (if failed hr || proxy == 0 then point else proxy) ∷ rest, proxies2, w3)

  abbrev pub unless_early : Option ℕ → ℕ → ℕ
  unless_early none hr = hr
  unless_early (some early) hr = early

  -- HostEnumConnectionPoints::Next: the HRESULT and the points that were fetched.
  unfoldable pub next :
      Bool → Bool → Pointer → ℕ → Proxies × World → ℕ × List Pointer × Proxies × World
  next wanted wants_count underlying count (proxies, w) =
      if not wanted
      then (e_pointer, [], proxies, w)
      else if ltb 1 count && not wants_count
      then (e_pointer, [], proxies, w)
      else if underlying == 0
      then (e_unexpected, [], proxies, w)
      else let (w1, hr, fetched) = source.next underlying count w in
        let (early, points, proxies1, w2) = show_loop fetched (proxies, w1) in
        (unless_early early hr, points, proxies1, w2)

  pub skip : Pointer → ℕ → World → World × ℕ
  skip underlying count w =
      if underlying == 0 then (w, e_unexpected) else source.skip underlying count w

  pub reset : Pointer → World → World × ℕ
  reset underlying w = if underlying == 0 then (w, e_unexpected) else source.reset underlying w

  -- HostEnumConnectionPoints::Clone: the HRESULT and the pointer that is written.
  pub clone : Bool → Pointer → World → World × ℕ × Pointer
  clone wanted underlying w =
      if not wanted
      then (w, e_pointer, 0)
      else if underlying == 0
      then (w, e_unexpected, 0)
      else let (w1, hr, copy) = source.clone underlying w in
        if failed hr
        then (w1, hr, 0)
        else if copy == 0
        then (w1, e_unexpected, 0)
        else let (w2, proxy) = new_enum copy w1 in
          if proxy == 0 then (w2, e_outofmemory, 0) else (w2, hr, proxy)
