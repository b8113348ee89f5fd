-- ===== src/Instance.antt =====
-- The one runtime of a process: HostSurrogateRuntime::instance, its construction and destruction,
-- src/surrogate_runtime.cc, and ExitApplicationLater, src/utils.cc.
pub mod Single
use axhost.Common.{
  ℕ, Bool, true, false, not, ◌&&◌, ◌==◌, if◌then◌else◌, List, [], ◌∷◌, Option, none, some,
}
use axhost.Com.{Pointer}

-- The application object and its event dispatcher, if they are there.
pub record Application : Type 0 where
  pub instance : Pointer
  pub event_dispatcher : Pointer
  -- QMetaObject::invokeMethod of `exit`: whether the call is queued.
  pub queued : Bool

-- ExitApplicationLater: the code that is queued, and what it returns.
unfoldable pub exit_application_later : Application → ℕ → Option ℕ × Bool
exit_application_later app retcode =
    if app.instance == 0
    then (none, false)
    else ((if app.queued then some retcode else none), app.queued)

-- InitializeStaticInstance: s_instance, and whether the runtime is refused with a message and
-- an exit that is queued.
unfoldable pub initialize_static_instance : Pointer → Pointer → Pointer × Bool
initialize_static_instance this s_instance =
    if not (s_instance == 0) then (s_instance, true) else (this, false)

-- StartUnusedLibraryCleaner: whether the runtime is told when the event loop is about to block.
pub start_unused_library_cleaner : Application → Bool
start_unused_library_cleaner app =
    if app.instance == 0 then false else if app.event_dispatcher == 0 then false else true

-- The destructor.
unfoldable pub destroy : Pointer → Pointer → Pointer
destroy this s_instance = if s_instance == this then 0 else s_instance

-- What happens to runtimes.
pub data Life : Type 0 where
  constructed destroyed : Pointer → Life

-- s_instance after a history, and the runtimes that were refused, the last first.
unfoldable pub live_on : List Life → Pointer × List Pointer → Pointer × List Pointer
live_on [] s = s
live_on (constructed this ∷ lives) (s_instance, refused) =
    let (after, is_refused) = initialize_static_instance this s_instance in
    live_on lives (after, if is_refused then this ∷ refused else refused)
live_on (destroyed this ∷ lives) (s_instance, refused) =
    live_on lives (destroy this s_instance, refused)
