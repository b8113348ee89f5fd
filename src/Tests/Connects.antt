-- ===== src/Tests/Connects.antt =====
-- Clients of a control that keeps a table of its connections.
use axhost.Common.{ℕ, true, ◌+◌, ◌==◌, ◌≡◌, refl, List, [], ◌∷◌, arith, if◌then◌else◌}
use axhost.Common.Hresult.{s_ok, e_fail}
use axhost.Common.Assoc.{find, emplace, erase}
use axhost.Connections.{Source, advise, unadvise}
use axhost.Connections.Refinement.{
  Call, advises, unadvises, Laws, Agrees, answers, specification, answer, answers-specification,
}
use axhost.Tests.Sinks.{Cookies, holds, add, drop, none_held}
use axhost.Tests.Proxies.{no_maps}

-- The host's sink of `s` is `s + 100`; the control refuses the sink 109.
abbrev table : Source
table = record {
  World = Cookies;
  new_sink = λ sink w. (w, sink + 100);
  advise = λ sink w. if sink == 109 then (w, e_fail, 0) else (add w, s_ok, w.count);
  unadvise = λ cookie w. if holds w cookie then (drop cookie w, s_ok) else (w, e_fail);
  get_connection_interface = λ w. (w, 0, 5);
  enum_connections = λ w. (w, e_fail, 0);
  next = λ e count w. (w, s_ok, []);
  skip = λ e count w. (w, s_ok);
  reset = λ e w. (w, s_ok);
  clone = λ e w. (w, e_fail, 0);
  new_enum = λ e w. (w, e);
}

table-Laws : Laws table
table-Laws = record {
  has = holds;
  has-new_sink = λ p w k. refl;
  new-advise = λ p w h. ground arith;
  has-advise = λ p w k. ground arith;
  has-unadvise = λ j w k. ground arith;
}

no_maps-Agrees : Agrees table table-Laws no_maps none_held
unfolding find table-Laws
no_maps-Agrees = record { host = λ k. ground arith; client = λ k. ground arith }

-- Two clients connect, one is refused, and the first disconnects twice.
abbrev cs : List Call
cs =
    advises 7 true
    ∷ advises 9 true
    ∷ advises 8 true
    ∷ unadvises 1
    ∷ unadvises 1
    ∷ advises 0 true
    ∷ []

one_left : (answers table cs (no_maps, none_held)).0.underlying_connections ≡ (2, 8) ∷ []
unfolding answers answer advise unadvise find emplace erase
one_left = refl

answers-specification_example :
    let after = answers table cs (no_maps, none_held) in
    Agrees table table-Laws after.0 after.1
    × ((k : ℕ)
        → find k after.0.underlying_connections
          ≡ specification table cs
              (no_maps, none_held)
              (λ j. find j no_maps.underlying_connections)
              k)
answers-specification_example =
    answers-specification table table-Laws cs no_maps none_held no_maps-Agrees
