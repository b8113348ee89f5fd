-- ===== src/Tests/Nestings.antt =====
-- Two calls of sinks, one in the other, on pools of one and two threads.
use axhost.Common.{true, false, ◌≤◌, refl, [], none, some, arith}
use axhost.Sink.Pool.{
  Stack, running, phase_of, reaches_of, set_phase, is_caller, is_blocked, threads_in_use, raise,
  starts, quiet, raises, calls_back, Reach, here, next, Ends,
}
use axhost.Sink.Nesting.{Reach-Ends}
use axhost.Sink.Deadlock.{nested, Over, nested-Over}

-- The control raises an event, and another in a call of the client's sink of the first.
abbrev first : Stack
first = set_phase 0 running (raise none true [])

abbrev second : Stack
second = raise (some 0) true first

both : Reach 2 [] second
unfolding phase_of reaches_of set_phase is_blocked is_caller threads_in_use raise
both =
    next
      (next (next here (raises [] true)) (quiet (starts (raise none true []) 0 refl (omega arith))))
      (calls_back first 0 true refl refl refl)

two_fit : 2 ≤ 2
two_fit = omega arith

Reach-Ends_example : Ends 2 second
unfolding raise set_phase
Reach-Ends_example = Reach-Ends 2 second both (refl, tt, (refl, tt, tt)) two_fit

nested-Over_example :
    Reach 1 [] (raise none false (nested 0)) × Over (nested 0) (raise none false (nested 0))
nested-Over_example =
    nested-Over 0 (raise none false (nested 0)) (next here (raises (nested 0) false))
