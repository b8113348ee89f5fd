-- ===== src/Tests/Servers.antt =====
-- A standalone host with one client.
use axhost.Common.{true, false, ◌+◌, ◌<◌, ◌≡◌, ◌⊎◌, refl, some, [], ◌∷◌, get_elem?, All}
use axhost.Com.Table.{no_objects, objects, object_laws}
use axhost.Runtime.{
  Runtime, any_multiple_use, run_as_standalone, end_standalone, start, step, add_server_reference,
  release_server_reference, exit_application_later,
}
use axhost.Container.{
  parts_if, make_parts, unknown, answers, create_instance, construct, add_ref, release,
  query_interface, add_server_reference_if, release_server_reference_if,
}
use axhost.Serving.{Server, create, drop, Step, creates, drops, lock, locks, Reach, here, next}
use axhost.Serving.Views.{Move}
use axhost.Serving.Uses.{live, IsSound}
use axhost.Serving.Refinement.{IsFresh, server_view, Reach-counted, Step-Move}
use axhost.Serving.Starting.{opened, IsBusy-dispatch}
use axhost.Startup.{ParsedResult, dispatch, serves}
use axhost.Registry.Table.{table}
use axhost.ClassSpec.{empty_spec}
use axhost.Tests.Starts.{blank, exe, empty}
use axhost.Serving.Ending.{ended-Tracks}
use axhost.Surrogate.Cookies.{Tracks}
use axhost.Serving.Exit.{Step-exits}
use axhost.Tests.Containers.{widget, runtime, living}

abbrev pub unused : Server objects widget
unused = record { runtime = runtime; control = 0; containers = []; locks = 0 }

pub unused-IsFresh : IsFresh objects object_laws widget unused
unfolding start
unused-IsFresh = (refl, refl, refl)

-- Its client has made a container.
abbrev pub serving : Server objects widget
serving = create objects widget unknown 7 1 unused

pub made_serving : Reach objects widget unused serving
made_serving = next here (creates unused unknown 7 1)

pub one_lives : get_elem? serving.containers 0 ≡ some living
unfolding create create_instance construct add_ref release query_interface answers parts_if
    make_parts
one_lives = refl

-- The client releases it.
abbrev done : Server objects widget
done = drop objects widget 0 living serving

release-Step : Step objects widget serving done
release-Step = drops serving 0 living one_lives refl

Reach-counted_example :
    (serving.runtime.world.references ≡ live serving.containers + serving.locks)
    × All IsSound serving.containers
Reach-counted_example = Reach-counted objects object_laws widget unused-IsFresh made_serving

Step-Move_example :
    Move
      (server_view objects object_laws widget serving)
      (server_view objects object_laws widget done)
Step-Move_example = Step-Move objects object_laws widget unused-IsFresh made_serving release-Step

-- A host that the command line starts for one class, and its client.
abbrev hosting : ParsedResult
hosting = record blank { specs = record empty_spec { clsid = 7 } ∷ [] }

abbrev hosted : Runtime objects
hosted = run_as_standalone objects hosting.specs 0 no_objects

serves_hosted : dispatch table objects true exe hosting empty no_objects ≡ serves (some hosted)
unfolding dispatch
serves_hosted = refl

no_multiple_use : any_multiple_use objects hosting.specs ≡ false
unfolding any_multiple_use
no_multiple_use = refl

abbrev client : Server objects widget
client = create objects widget unknown 7 1 (opened objects widget hosted 0)

IsBusy-dispatch_example :
    ((lock objects widget true client).runtime.exiting ≡ true)
    ⊎ (0
        < live (lock objects widget true client).containers
          + (lock objects widget true client).locks)
IsBusy-dispatch_example =
    IsBusy-dispatch table objects object_laws widget true exe hosting empty no_objects hosted 0
      unknown 7 1 serves_hosted refl refl no_multiple_use here (next here (locks client))

ended-Tracks_example :
    let r = end_standalone objects client.runtime in Tracks objects object_laws (r.cookies, r.world)
ended-Tracks_example =
    ended-Tracks table objects object_laws widget true exe hosting empty no_objects hosted 0
      serves_hosted refl (λ k. refl)
      (next here (creates (opened objects widget hosted 0) unknown 7 1))

not_yet : serving.runtime.exiting ≡ false
unfolding create create_instance construct add_ref release query_interface answers parts_if
    make_parts add_server_reference_if step add_server_reference start
not_yet = refl

exits : done.runtime.exiting ≡ true
unfolding drop create create_instance construct add_ref release query_interface answers parts_if
    make_parts add_server_reference_if release_server_reference_if step add_server_reference
    release_server_reference exit_application_later start
exits = refl

Step-exits_example : (live done.containers ≡ 0) × (done.locks ≡ 0)
Step-exits_example =
    Step-exits objects object_laws widget unused-IsFresh made_serving release-Step not_yet exits
