-- ===== src/Connections/Refinement.antt =====
-- A connection point behaves as a map from cookies to the clients' sinks.
use axhost.Common.{
  ℕ, Bool, true, false, ◌==◌, ◌≡◌, refl, ap, ◌∙◌, if◌then◌else◌, List, [], ◌∷◌, Option, none, some,
  arith,
}
use mathlib.Core.Path.{fun_ext}
use axhost.Common.Hresult.{failed}
use axhost.Common.Assoc.{find, is_some, find-emplace, find-erase}
use axhost.Com.{Pointer}
use axhost.Connections.{Source, Maps, advise, unadvise}

-- What a client does.
pub data Call : Type 0 where
  advises : (sink : Pointer) (wants_cookie : Bool) → Call
  unadvises : (cookie : ℕ) → Call

-- The specification: a call that succeeds with a cookie adds or removes that cookie, and one that
-- fails changes nothing.
abbrev pub specified : Call → ℕ × ℕ → (ℕ → Option Pointer) → ℕ → Option Pointer
specified (advises sink wants) (hr, cookie) connected k =
    if failed hr then connected k else if k == cookie then some sink else connected k
specified (unadvises j) (hr, cookie) connected k =
    if failed hr then connected k else if k == j then none else connected k

-- What the host relies on: which connections the control has. It gives a new cookie to each.
pub record Laws (source : Source) : Type 0 where
  pub has : source.World → ℕ → Bool
  pub has-new_sink :
      (p : Pointer) (w : source.World) (k : ℕ) → has (source.new_sink p w).0 k ≡ has w k
  pub new-advise :
      (p : Pointer) (w : source.World)
      → failed (source.advise p w).1 ≡ false
      → has w (source.advise p w).2 ≡ false
  pub has-advise :
      (p : Pointer) (w : source.World) (k : ℕ)
      → has (source.advise p w).0 k ≡ (
          if failed (source.advise p w).1
          then has w k
          else if k == (source.advise p w).2
          then true
          else has w k)
  pub has-unadvise :
      (j : ℕ) (w : source.World) (k : ℕ)
      → has (source.unadvise j w).0 k
        ≡ (if failed (source.unadvise j w).1 then has w k else if k == j then false else has w k)

module _ (source : Source) where
  -- A call: what it answers, and the state after it.
  unfoldable pub answer : Call → Maps × source.World → (ℕ × ℕ) × Maps × source.World
  answer (advises sink wants) s =
      let out = advise source sink wants s in ((out.0, out.1), out.2, out.3)
  answer (unadvises cookie) s =
      let out = unadvise source cookie s in ((out.0, cookie), out.1, out.2)

  -- Calls in turn, and the specification by their answers.
  unfoldable pub answers : List Call → Maps × source.World → Maps × source.World
  answers [] s = s
  answers (c ∷ cs) s = let out = answer c s in answers cs (out.1, out.2)

  unfoldable pub specification :
      List Call → Maps × source.World → (ℕ → Option Pointer) → ℕ → Option Pointer
  specification [] s connected = connected
  specification (c ∷ cs) s connected =
      let out = answer c s in specification cs (out.1, out.2) (specified c out.0 connected)

module _ (source : Source) (laws : Laws source) where
  open laws use {has}

  -- Both maps have the cookies of the control's connections.
  pub record Agrees (maps : Maps) (w : source.World) : Type 0 where
    pub host : (k : ℕ) → is_some (find k maps.connections) ≡ has w k
    pub client : (k : ℕ) → is_some (find k maps.underlying_connections) ≡ has w k

  advise-Agrees :
      (sink : Pointer) (wants : Bool) (maps : Maps) (w : source.World)
      → Agrees maps w
      → let out = advise source sink wants (maps, w) in Agrees out.2 out.3
  unfolding advise
  advise-Agrees sink wants maps w v =
      let made = source.new_sink sink w in
      let out = source.advise made.1 made.0 in
      record {
        host = λ k. ground (
          arith,
          v.host k,
          laws.has-new_sink sink w k,
          laws.has-advise made.1 made.0 k,
          laws.new-advise made.1 made.0,
          laws.has-new_sink sink w out.2,
          v.host out.2,
          find-emplace k out.2 made.1 maps.connections,
        );
        client = λ k. ground (
          arith,
          v.client k,
          laws.has-new_sink sink w k,
          laws.has-advise made.1 made.0 k,
          laws.new-advise made.1 made.0,
          laws.has-new_sink sink w out.2,
          v.client out.2,
          find-emplace k out.2 sink maps.underlying_connections,
        );
      }

  unadvise-Agrees :
      (cookie : ℕ) (maps : Maps) (w : source.World)
      → Agrees maps w
      → let out = unadvise source cookie (maps, w) in Agrees out.1 out.2
  unfolding unadvise
  unadvise-Agrees cookie maps w v = record {
    host = λ k.
        ground
          (arith, v.host k, laws.has-unadvise cookie w k, find-erase k cookie maps.connections);
    client = λ k. ground (
      arith,
      v.client k,
      laws.has-unadvise cookie w k,
      find-erase k cookie maps.underlying_connections,
    );
  }

  answer-Agrees :
      (c : Call) (maps : Maps) (w : source.World)
      → Agrees maps w
      → let out = answer source c (maps, w) in Agrees out.1 out.2
  unfolding answer
  answer-Agrees (advises sink wants) maps w v = advise-Agrees sink wants maps w v
  answer-Agrees (unadvises cookie) maps w v = unadvise-Agrees cookie maps w v

  answer-specified :
      (c : Call) (maps : Maps) (w : source.World) (k : ℕ)
      → Agrees maps w
      → let out = answer source c (maps, w) in
        find k out.1.underlying_connections
        ≡ specified c out.0 (λ j. find j maps.underlying_connections) k
  unfolding answer advise unadvise
  answer-specified (advises sink wants) maps w k v =
      let made = source.new_sink sink w in
      let out = source.advise made.1 made.0 in
      ground (
        arith,
        laws.new-advise made.1 made.0,
        laws.has-new_sink sink w out.2,
        v.client out.2,
        find-emplace k out.2 sink maps.underlying_connections,
      )
  answer-specified (unadvises cookie) maps w k v =
      ground (arith, find-erase k cookie maps.underlying_connections)

  -- Refinement: where the maps have the cookies of the connections that the control has, they
  -- still have them after any calls of Advise and Unadvise, and the cookie of each connection
  -- leads to the client's sink that the specification, applied to what the calls answered, gives
  -- for it.
  pub answers-specification :
      (cs : List Call) (maps : Maps) (w : source.World)
      → Agrees maps w
      → let after = answers source cs (maps, w) in
        Agrees after.0 after.1
        × ((k : ℕ)
            → find k after.0.underlying_connections
              ≡ specification source cs (maps, w) (λ j. find j maps.underlying_connections) k)
  unfolding answers specification
  answers-specification [] maps w v = (v, λ k. refl)
  answers-specification (c ∷ cs) maps w v =
      let out = answer source c (maps, w) in
      let rest = answers-specification cs out.1 out.2 (answer-Agrees c maps w v) in
      (
        rest.0,
        λ k.
            rest.1 k
            ∙ ap (λ connected. specification source cs (out.1, out.2) connected k)
                (fun_ext (λ j. answer-specified c maps w j v)),
      )
