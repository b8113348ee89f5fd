-- ===== src/Tests/Lifetimes.antt =====
-- Histories of a host.
use axhost.Common.{[], ◌∷◌, ◌≡◌, refl, true, false, not, List, if◌then◌else◌}
use axhost.Com.Table.{objects, object_laws, no_objects}
use axhost.Surrogate.Failures.{results}
use axhost.Runtime.{
  Runtime, start, check_for_exit, exit_application_later, idle_timeout, no_class_registered,
  surrogate, standalone, Event, acquired, released, timed_out, step, run, run_as_standalone,
}
use axhost.Runtime.Lifetime.{IsWatched, surrogate_ignores_references}
use axhost.Runtime.Watched.{standalone_constructed, run-IsWatched-Constructed}
use axhost.Surrogate.Successes.{any_succeeded, any_failed}
use axhost.Runtime.Standalone.{registrations, run_as_standalone-any_succeeded}
use axhost.Tests.Classes.{two_specs}

abbrev history : List Event
history = acquired ∷ acquired ∷ released ∷ timed_out ∷ released ∷ timed_out ∷ []

abbrev fresh : Runtime objects
fresh = start objects no_objects

-- A host for multiple use.
run-IsWatched-Constructed_example :
    IsWatched objects
      (run objects standalone history (run_as_standalone objects two_specs 1 no_objects))
run-IsWatched-Constructed_example =
    run-IsWatched-Constructed objects standalone (run_as_standalone objects two_specs 1 no_objects)
      history (standalone_constructed two_specs 1 no_objects)

abbrev idle : Runtime objects
idle = record {
  world = no_objects;
  cookies = [];
  acquisition_count = 0;
  warned_idle = false;
  has_multiple_use = false;
  armed = true;
  exiting = false;
  ready = false;
  notices = [];
}

idle_exits : (step objects standalone timed_out idle).exiting ≡ true
unfolding step check_for_exit exit_application_later
idle_exits = refl

abbrev used : Runtime objects
used = record idle { world = record no_objects { references = 1 } }

surrogate_ignores_references_example :
    let r = run objects surrogate (acquired ∷ acquired ∷ timed_out ∷ []) fresh in
    (r.exiting ≡ true) × (r.notices ≡ idle_timeout ∷ [])
surrogate_ignores_references_example =
    surrogate_ignores_references objects object_laws (acquired ∷ acquired ∷ []) no_objects
      ((λ e. cc), ((λ e. cc), tt)) refl

run_as_standalone-any_succeeded_example :
    let r = run_as_standalone objects two_specs 0 no_objects in
    let hrs = results (registrations objects two_specs 0 no_objects).0 in
    (r.ready ≡ not (any_failed hrs))
    × (r.exiting ≡ not (any_succeeded hrs))
    × (r.notices ≡ (if any_succeeded hrs then [] else no_class_registered ∷ []))
run_as_standalone-any_succeeded_example =
    run_as_standalone-any_succeeded objects two_specs 0 no_objects
