-- ===== src/Connections/Enumeration.antt =====
-- What a client that enumerates the connections of a control sees.
use axhost.Common.{
  ==_of_ne, and-false, ℕ, true, ◌==◌, ◌≡◌, ◌≢◌, if◌then◌else◌, List, [], ◌∷◌, map, Option, none,
  some, arith, refl, ltb,
}
use axhost.Common.Assoc.{find}
use axhost.Com.{Pointer}
use axhost.Connections.{Source, Maps, ConnectData, get_underlying_sink, translate, next}

-- The client's sink of a cookie, or what the control gave if there is none.
abbrev pub seen : Option Pointer → Pointer → Pointer
seen none given = given
seen (some sink) given = if sink == 0 then given else sink

-- Entry for entry the same cookies, and the client's sinks where they are known.
abbrev pub Shows : Maps → List ConnectData → List ConnectData → Type 0
Shows maps [] [] = Unit
Shows maps [] (s ∷ shown) = ⊥
Shows maps (g ∷ given) [] = ⊥
Shows maps (g ∷ given) (s ∷ shown) =
    (s.cookie ≡ g.cookie)
    × (s.unk ≡ seen (find g.cookie maps.underlying_connections) g.unk)
    × Shows maps given shown

translate-cookie :
    (maps : Maps) (entry : ConnectData) → (translate maps entry).cookie ≡ entry.cookie
unfolding translate get_underlying_sink
translate-cookie maps entry = ground arith

translate-unk :
    (maps : Maps) (entry : ConnectData)
    → (translate maps entry).unk ≡ seen (find entry.cookie maps.underlying_connections) entry.unk
unfolding translate get_underlying_sink
translate-unk maps entry = ground arith

map-translate :
    (maps : Maps) (given : List ConnectData) → Shows maps given (map (translate maps) given)
map-translate maps [] = tt
map-translate maps (g ∷ given) =
    (translate-cookie maps g, translate-unk maps g, map-translate maps given)

-- HostEnumConnections::Next of an enumerator hands on the result of the control's enumerator,
-- and its entries one for one: with the cookies that they have, and with the client's own sink
-- in place of the host's wherever the cookie has one that is not null.
pub next-Shows :
    (source : Source) (underlying : Pointer) (count : ℕ) (maps : Maps) (w : source.World)
    → underlying ≢ 0
    → let out = next source true true underlying count maps w in
      let given = source.next underlying count w in
      (out.0 ≡ given.0) × (out.1 ≡ given.1) × Shows maps given.2 out.2
unfolding next
next-Shows source underlying count maps w there =
    let given = source.next underlying count w in
    rw (and-false (ltb 1 count)) rw (==_of_ne underlying 0 there)
      (refl, refl, map-translate maps given.2)
