-- ===== src/Connections/Sinks.antt =====
-- What the two maps say after Advise and Unadvise.
use axhost.Common.{ℕ, Bool, true, false, ◌==◌, ◌≡◌, if◌then◌else◌, none, arith}
use axhost.Common.Hresult.{failed, s_ok, e_unexpected}
use axhost.Common.Assoc.{find, is_some, find-emplace, find-erase}
use axhost.Com.{Pointer}
use axhost.Connections.{Source, Maps, get_underlying_sink, advise, unadvise}

-- Both maps have the same cookies.
abbrev pub SameCookies : Maps → Type 0
SameCookies maps =
    (k : ℕ) → is_some (find k maps.connections) ≡ is_some (find k maps.underlying_connections)

module _ (source : Source) where
  -- Advise keeps the two maps at the same cookies, on every path.
  pub advise-SameCookies :
      (sink : Pointer) (wants : Bool) (maps : Maps) (w : source.World)
      → SameCookies maps
      → SameCookies (advise source sink wants (maps, w)).2
  unfolding advise
  advise-SameCookies sink wants maps w h k =
      let made = source.new_sink sink w in
      let out = source.advise made.1 made.0 in
      ground (
        arith,
        h k,
        h out.2,
        find-emplace k out.2 made.1 maps.connections,
        find-emplace k out.2 sink maps.underlying_connections,
      )

  -- Unadvise keeps the two maps at the same cookies, on every path.
  pub unadvise-SameCookies :
      (cookie : ℕ) (maps : Maps) (w : source.World)
      → SameCookies maps
      → SameCookies (unadvise source cookie (maps, w)).1
  unfolding unadvise
  unadvise-SameCookies cookie maps w h k = ground (
    arith,
    h k,
    find-erase k cookie maps.connections,
    find-erase k cookie maps.underlying_connections,
  )

  -- After an Advise that succeeds with a new cookie, the cookie leads to the client's sink, and
  -- every other cookie leads where it led before.
  pub get_underlying_sink-advise :
      (sink : Pointer) (wants : Bool) (maps : Maps) (w : source.World) (k : ℕ)
      → let out = advise source sink wants (maps, w) in
        failed out.0 ≡ false
        → find out.1 maps.underlying_connections ≡ none
        → get_underlying_sink true k out.2
          ≡ (if k == out.1 then (s_ok, sink) else get_underlying_sink true k maps)
  unfolding advise get_underlying_sink
  get_underlying_sink-advise sink wants maps w k ok new =
      let made = source.new_sink sink w in
      let out = source.advise made.1 made.0 in
      ground (arith, find-emplace k out.2 sink maps.underlying_connections)

  -- After an Unadvise that succeeds the cookie leads nowhere, and every other cookie leads where
  -- it led before.
  pub get_underlying_sink-unadvise :
      (cookie : ℕ) (maps : Maps) (w : source.World) (k : ℕ)
      → let out = unadvise source cookie (maps, w) in
        failed out.0 ≡ false
        → get_underlying_sink true k out.1
          ≡ (if k == cookie then (e_unexpected, 0) else get_underlying_sink true k maps)
  unfolding unadvise get_underlying_sink
  get_underlying_sink-unadvise cookie maps w k ok =
      ground (arith, find-erase k cookie maps.underlying_connections)
