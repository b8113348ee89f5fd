-- ===== src/Runtime/Watched.antt =====
-- From its constructor on, a host never waits for ever.
use axhost.Common.{ℕ, Bool, ◌≡◌, List, some, arith}
use axhost.ClassSpec.{ClassSpec, Uuid}
use axhost.Com.{Com}
use axhost.Runtime.{
  Runtime, start, exit_application_later, check_multiple_use, after_registration, run_as_surrogate,
  run_as_standalone, Mode, surrogate, standalone, Event, run,
}
use axhost.Runtime.Lifetime.{IsWatched, run-IsWatched}
use axhost.Runtime.Standalone.{run_as_standalone_lem}

module _ (ole : Com) where
  -- What the two constructors make, in a world and for any command line.
  pub data Constructed : Mode → Runtime ole → Type 0 where
    surrogate_constructed :
        (clsid : Uuid) (w : ole.World) (r : Runtime ole)
        → run_as_surrogate ole clsid w ≡ some r
        → Constructed surrogate r
    standalone_constructed :
        (specs : List ClassSpec) (regcls : ℕ) (w : ole.World)
        → Constructed standalone (run_as_standalone ole specs regcls w)

  run_as_surrogate-armed :
      (clsid : Uuid) (w : ole.World) (r : Runtime ole)
      → run_as_surrogate ole clsid w ≡ some r
      → IsWatched ole r
  unfolding run_as_surrogate start
  run_as_surrogate-armed clsid w r h = ground (arith, h)

  check_multiple_use-IsWatched :
      (specs : List ClassSpec) (regcls : ℕ) (w : ole.World)
      → IsWatched ole (check_multiple_use ole specs regcls (start ole w))
  unfolding check_multiple_use start
  check_multiple_use-IsWatched specs regcls w = ground arith

  after_registration-IsWatched :
      (suspended : Bool) (hr : ℕ) (r : Runtime ole)
      → IsWatched ole r
      → IsWatched ole (after_registration ole suspended hr r)
  unfolding after_registration exit_application_later
  after_registration-IsWatched suspended hr r h = ground arith

  Constructed-IsWatched : (mode : Mode) (r : Runtime ole) → Constructed mode r → IsWatched ole r
  Constructed-IsWatched surrogate r (surrogate_constructed clsid w q h) =
      run_as_surrogate-armed clsid w r h
  Constructed-IsWatched standalone r (standalone_constructed specs regcls w) =
      rw (run_as_standalone_lem ole specs regcls w)
        (after_registration-IsWatched _ _ _ (check_multiple_use-IsWatched specs regcls w))

  -- A host that a constructor made, in either mode, and for single or multiple use, never waits for
  -- ever: after any acquired and released references and timeouts, in any order, an exit is queued or
  -- the exit timer runs.
  pub run-IsWatched-Constructed :
      (mode : Mode) (r : Runtime ole) (events : List Event)
      → Constructed mode r
      → IsWatched ole (run ole mode events r)
  run-IsWatched-Constructed mode r events made =
      run-IsWatched ole mode events r (Constructed-IsWatched mode r made)
