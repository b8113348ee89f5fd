-- ===== src/Points/Identity.antt =====
-- A connection point of the control has one proxy for as long as its container lives.
use axhost.Common.{ℕ, Bool, true, false, ◌≡◌, ◌≢◌, List, [], ◌∷◌, some, arith}
use axhost.Common.Hresult.{failed, s_ok}
use axhost.Common.Assoc.{find, find-emplace}
use axhost.Com.{Pointer}
use axhost.Points.{
  PointSource, Proxies, make_proxy, get_proxy_connection_point, find_connection_point, show_loop,
  next,
}

-- What a client does with the container and its enumerators.
pub data Call : Type 0 where
  lookup : (riid : ℕ) → Call
  fetch : (underlying : Pointer) (count : ℕ) → Call

-- The proxy of a point stays.
abbrev pub Keeps : Pointer → Pointer → Proxies → Type 0
Keeps point proxy proxies = find point proxies ≡ some proxy

module _ (source : PointSource) where
  unfoldable pub call : Call → Proxies × source.World → Proxies × source.World
  call (lookup riid) s = let out = find_connection_point source true riid s in (out.2, out.3)
  call (fetch underlying count) s =
      let out = next source true true underlying count s in (out.2, out.3)

  unfoldable pub calls : List Call → Proxies × source.World → Proxies × source.World
  calls [] s = s
  calls (c ∷ cs) s = calls cs (call c s)

  get_proxy-Keeps :
      (wanted : Bool) (other point proxy : Pointer) (proxies : Proxies) (w : source.World)
      → Keeps point proxy proxies
      → Keeps point proxy (get_proxy_connection_point source wanted other (proxies, w)).2
  unfolding get_proxy_connection_point make_proxy
  get_proxy-Keeps wanted other point proxy proxies w h =
      let made = source.as_point other w in
      let new = source.new_point made.1 made.0 in
      ground (arith, find-emplace point other new.1 proxies)

  find_point-Keeps :
      (riid : ℕ) (point proxy : Pointer) (proxies : Proxies) (w : source.World)
      → Keeps point proxy proxies
      → Keeps point proxy (find_connection_point source true riid (proxies, w)).2
  unfolding find_connection_point
  find_point-Keeps riid point proxy proxies w h =
      let found = source.find_connection_point riid w in
      let known = source.identity found.2 found.0 in
      ground (arith, get_proxy-Keeps true known.2 point proxy proxies known.0)

  show_loop-Keeps :
      (points : List Pointer) (point proxy : Pointer) (proxies : Proxies) (w : source.World)
      → Keeps point proxy proxies
      → Keeps point proxy (show_loop source points (proxies, w)).2
  unfolding show_loop
  show_loop-Keeps [] point proxy proxies w h = h
  show_loop-Keeps (p ∷ points) point proxy proxies w h =
      let known = source.identity p w in
      let got = get_proxy_connection_point source true known.2 (proxies, known.0) in
      let keeps = get_proxy-Keeps true known.2 point proxy proxies known.0 h in
      ground (arith, show_loop-Keeps points point proxy got.2 got.3 keeps)

  next-Keeps :
      (underlying : Pointer) (count : ℕ) (point proxy : Pointer) (proxies : Proxies)
      (w : source.World)
      → Keeps point proxy proxies
      → Keeps point proxy (next source true true underlying count (proxies, w)).2
  unfolding next
  next-Keeps underlying count point proxy proxies w h =
      let given = source.next underlying count w in
      ground (arith, show_loop-Keeps given.2 point proxy proxies given.0)

  calls-Keeps :
      (cs : List Call) (point proxy : Pointer) (s : Proxies × source.World)
      → Keeps point proxy s.0
      → Keeps point proxy (calls cs s).0
  unfolding calls call
  calls-Keeps [] point proxy s h = h
  calls-Keeps (lookup riid ∷ cs) point proxy s h =
      calls-Keeps cs point proxy (call (lookup riid) s)
        (find_point-Keeps riid point proxy s.0 s.1 h)
  calls-Keeps (fetch underlying count ∷ cs) point proxy s h =
      calls-Keeps cs point proxy (call (fetch underlying count) s)
        (next-Keeps underlying count point proxy s.0 s.1 h)

  get_proxy-known :
      (wanted : Bool) (point : Pointer) (proxies : Proxies) (w : source.World)
      → let out = get_proxy_connection_point source wanted point (proxies, w) in
        failed out.0 ≡ false → (point ≢ 0) × (out.1 ≢ 0) × Keeps point out.1 out.2
  unfolding get_proxy_connection_point make_proxy
  get_proxy-known wanted point proxies w ok =
      let made = source.as_point point w in
      let new = source.new_point made.1 made.0 in
      ground (arith, find-emplace point point new.1 proxies)

  get_proxy-Kept :
      (point proxy : Pointer) (proxies : Proxies) (w : source.World)
      → point ≢ 0
      → proxy ≢ 0
      → Keeps point proxy proxies
      → get_proxy_connection_point source true point (proxies, w) ≡ (s_ok, proxy, proxies, w)
  unfolding get_proxy_connection_point
  get_proxy-Kept point proxy proxies w a b h = ground arith

  -- Once GetProxyConnectionPoint has succeeded for a connection point, it gives the same proxy
  -- for that point, and changes nothing, after any calls of FindConnectionPoint and of Next.
  pub get_proxy_connection_point-calls :
      (point : Pointer) (proxies : Proxies) (w : source.World) (cs : List Call)
      → let out = get_proxy_connection_point source true point (proxies, w) in
        failed out.0 ≡ false
        → let after = calls cs (out.2, out.3) in
          get_proxy_connection_point source true point after ≡ (s_ok, out.1, after.0, after.1)
  get_proxy_connection_point-calls point proxies w cs ok =
      let out = get_proxy_connection_point source true point (proxies, w) in
      let known = get_proxy-known true point proxies w ok in
      let after = calls cs (out.2, out.3) in
      get_proxy-Kept point out.1 after.0 after.1 known.0 known.1
        (calls-Keeps cs point out.1 (out.2, out.3) known.2)
