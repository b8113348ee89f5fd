-- ===== src/Tests/Proxies.antt =====
-- The host's sinks and connection points before a control with one of each.
use axhost.Common.{
  ℕ, true, false, ◌+◌, ◌==◌, ◌≡◌, refl, List, [], ◌∷◌, length, none, arith, if◌then◌else◌,
}
use axhost.Common.Hresult.{failed, s_ok, e_fail}
use axhost.Common.Assoc.{find, emplace}
use axhost.Com.{Pointer}
use axhost.Connections.{
  Source, Maps, ConnectData, get_underlying_sink, advise, unadvise, next, translate,
}
use axhost.Connections.Sinks.{SameCookies}
use axhost.Connections.Enumeration.{Shows, next-Shows}
use axhost.Points.{PointSource, Proxies, get_proxy_connection_point, make_proxy}
use axhost.Points.Identity.{lookup, fetch, calls, get_proxy_connection_point-calls}

-- A control that gives 1, 2, … as cookies; the host's sink of `s` is `s + 100`.
abbrev pub control : Source
control = record {
  World = List ConnectData;
  new_sink = λ sink w. (w, sink + 100);
  advise = λ sink w. (record { unk = sink; cookie = length w + 1 } ∷ w, s_ok, length w + 1);
  unadvise = λ cookie w. (w, s_ok);
  get_connection_interface = λ w. (w, 0, 5);
  enum_connections = λ w. (w, s_ok, 50);
  next = λ e count w. (w, s_ok, w);
  skip = λ e count w. (w, s_ok);
  reset = λ e w. (w, s_ok);
  clone = λ e w. (w, s_ok, 51);
  new_enum = λ e w. (w, e + 100);
}

abbrev pub no_maps : Maps
no_maps = record { connections = []; underlying_connections = [] }

no_maps-SameCookies : SameCookies no_maps
unfolding find
no_maps-SameCookies = λ k. refl

-- After a client connected its sink 7.
abbrev pub connected : ℕ × ℕ × Maps × List ConnectData
connected = advise control 7 true (no_maps, [])

advise_succeeds : failed connected.0 ≡ false
unfolding advise
advise_succeeds = refl

no_cookie : find connected.1 no_maps.underlying_connections ≡ none
unfolding find
no_cookie = refl

unadvise_succeeds : failed (unadvise control 1 (connected.2, connected.3)).0 ≡ false
unfolding unadvise
unadvise_succeeds = refl

next-Shows_example :
    let out = next control true true 50 9 connected.2 connected.3 in
    (out.0 ≡ connected.3) × (out.1 ≡ s_ok) × Shows connected.2 connected.3 out.2
next-Shows_example = next-Shows control 50 9 connected.2 connected.3 (omega arith)

-- The client sees its own sink, not the host's.
shown_sink :
    (next control true true 50 9 connected.2 connected.3).2 ≡ record { unk = 7; cookie = 1 } ∷ []
unfolding next advise translate get_underlying_sink find emplace
shown_sink = refl

-- A control with the connection points 3 and 4, whose identities are 13 and 14.
abbrev pub points_control : PointSource
points_control = record {
  World = ℕ;
  identity = λ p w. (w, s_ok, p + 10);
  as_point = λ p w. (w, p);
  new_point = λ p w. (w + 1, w + 1);
  find_connection_point = λ iid w. if iid == 0 then (w, e_fail, 0) else (w, s_ok, 3);
  enum_connection_points = λ w. (w, s_ok, 50);
  next = λ e count w. (w, s_ok, 3 ∷ 4 ∷ []);
  skip = λ e count w. (w, s_ok);
  reset = λ e w. (w, s_ok);
  clone = λ e w. (w, s_ok, 51);
  new_enum = λ e w. (w, e + 100);
}

abbrev first_proxy : ℕ × Pointer × Proxies × ℕ
first_proxy = get_proxy_connection_point points_control true 13 ([], 100)

first_proxy_succeeds : failed first_proxy.0 ≡ false
unfolding get_proxy_connection_point make_proxy find
first_proxy_succeeds = refl

get_proxy_connection_point-calls_example :
    let after = calls points_control (fetch 50 2 ∷ lookup 5 ∷ []) (first_proxy.2, first_proxy.3) in
    get_proxy_connection_point points_control true 13 after
    ≡ (s_ok, first_proxy.1, after.0, after.1)
get_proxy_connection_point-calls_example =
    get_proxy_connection_point-calls points_control 13 [] 100 (fetch 50 2 ∷ lookup 5 ∷ [])
      first_proxy_succeeds
