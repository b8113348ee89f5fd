-- ===== src/Runtime.antt =====
-- HostSurrogateRuntime, RunAsSurrogate and RunAsStandalone, src/surrogate_runtime.h and
-- src/surrogate_runtime.cc: when the process counts as used, and when it exits.
pub mod Lifetime
pub mod Watched
pub mod Standalone
pub mod Opening
use axhost.Common.{
  ℕ, ◌+◌, ◌%◌, ◌^◌, Option, none, some, Bool, true, false, not, ◌&&◌, ◌||◌, ◌==◌, ltb,
  if◌then◌else◌, List, [], ◌∷◌, ◌++◌,
}
use axhost.Common.Hresult.{failed, succeeded, s_ok}
use axhost.Common.Flags.{has, regcls_multipleuse}
use axhost.ClassSpec.{ClassSpec, Uuid}
use axhost.Com.{Com}
use axhost.Surrogate.{
  register_all_class_factories, revoke_all_class_factories, has_registered_class, load_dll_server,
}

-- The message boxes.
pub data Notice : Type 0 where
  idle_timeout no_class_registered : Notice

-- The interval of the exit timer, in milliseconds: m_checkForExitTimeout is never assigned.
abbrev pub check_for_exit_timeout : ℕ
check_for_exit_timeout = 60000

abbrev pub free_unused_libraries_interval : ℕ
free_unused_libraries_interval = 60000

-- Which subclass the runtime is: the base class leaves both reference calls empty, and
-- RunAsSurrogate does not override them.
pub data Mode : Type 0 where
  surrogate standalone : Mode

pub data Event : Type 0 where
  acquired released timed_out : Event

module _ (ole : Com) where
  open ole use {
    World, suspend_class_objects, resume_class_objects, add_ref_server_process,
    release_server_process,
  }

  -- `exiting`: an exit of the event loop is queued; `armed`: the one-shot exit timer runs;
  -- `ready`: the ready event is set.
  pub record Runtime : Type 0 where
    pub world : World
    pub cookies : List ℕ
    pub acquisition_count : ℕ
    pub warned_idle : Bool
    pub has_multiple_use : Bool
    pub armed : Bool
    pub exiting : Bool
    pub ready : Bool
    pub notices : List Notice

  -- The constructor of HostSurrogateRuntime: it starts the exit timer.
  unfoldable pub start : World → Runtime
  start w = record {
    world = w;
    cookies = [];
    acquisition_count = 0;
    warned_idle = false;
    has_multiple_use = false;
    armed = true;
    exiting = false;
    ready = false;
    notices = [];
  }

  unfoldable pub exit_application_later : Runtime → Runtime
  exit_application_later r = record r { exiting = true }

  unfoldable pub check_for_exit_later : Runtime → Runtime
  check_for_exit_later r = record r { armed = true }

  unfoldable pub warn_idle : Runtime → Runtime
  warn_idle r =
      if r.acquisition_count == 0 && not r.warned_idle
      then record r { warned_idle = true; notices = r.notices ++ idle_timeout ∷ [] }
      else r

  -- CheckForExit, which the timer calls: a one-shot timer no longer runs then.
  unfoldable pub check_for_exit : Runtime → Runtime
  check_for_exit s =
      let r = record s { armed = false } in
      let (w1, a) = add_ref_server_process r.world in
      let (w2, n) = release_server_process w1 in
      if n == 0
      then exit_application_later (warn_idle (record r { world = w2 }))
      else check_for_exit_later (record r { world = w2 })

  -- CheckMultipleUse.
  unfoldable pub any_multiple_use : List ClassSpec → Bool
  any_multiple_use [] = false
  any_multiple_use (spec ∷ specs) = has spec.regcls regcls_multipleuse || any_multiple_use specs

  pub check_multiple_use : List ClassSpec → ℕ → Runtime → Runtime
  unfolding any_multiple_use
  check_multiple_use specs regcls r =
      if has regcls regcls_multipleuse
      then record r { has_multiple_use = true }
      else if any_multiple_use specs
      then record r { has_multiple_use = true }
      else r

  -- RunAsStandalone::AddServerReference; the count is a 32-bit `ulong`.
  unfoldable pub add_server_reference : Runtime → Runtime
  add_server_reference r =
      let (w, n) = add_ref_server_process r.world in
      record r { world = w; acquisition_count = (r.acquisition_count + 1) % 2 ^ 32 }

  -- RunAsStandalone::ReleaseServerReference.
  unfoldable pub release_server_reference : Runtime → Runtime
  release_server_reference s =
      let (w, n) = release_server_process s.world in
      let r = record s { world = w } in
      if n == 0
      then (if r.has_multiple_use then check_for_exit_later r else exit_application_later r)
      else r

  -- The constructor of RunAsSurrogate; a failure of CoRegisterSurrogate throws.
  pub run_as_surrogate : Uuid → World → Option Runtime
  run_as_surrogate clsid w =
      let r = start w in
      let (w1, hr) = ole.register_surrogate w in
      if failed hr
      then none
      else let (loaded, cookies, w2) = load_dll_server ole clsid ([], w1) in
        some (record r { world = w2; cookies = cookies })

  -- What the constructor of RunAsStandalone does behind the registrations; `suspended`: the
  -- suspension before them succeeded; `hr`: their result.
  pub after_registration : Bool → ℕ → Runtime → Runtime
  after_registration suspended hr r =
      let r1 : Runtime =
        (if not (has_registered_class r.cookies)
          then exit_application_later (record r { notices = r.notices ++ no_class_registered ∷ [] })
          else r) in
      let r2 : Runtime =
        (if suspended && has_registered_class r1.cookies
          then record r1 { world = (resume_class_objects r1.world).0 }
          else r1) in
      if succeeded hr then record r2 { ready = true } else r2

  -- The constructor of RunAsStandalone.
  pub run_as_standalone : List ClassSpec → ℕ → World → Runtime
  run_as_standalone specs regcls w =
      let r = check_multiple_use specs regcls (start w) in
      let (w1, sus) = suspend_class_objects r.world in
      let (specs', hr, cookies, w2) =
        register_all_class_factories ole specs (succeeded sus) regcls (r.cookies, w1) in
      after_registration (succeeded sus) hr (record r { cookies = cookies; world = w2 })

  -- The destructor of RunAsStandalone.
  pub end_standalone : Runtime → Runtime
  end_standalone r =
      let (w1, sus) = suspend_class_objects r.world in
      let (hr, cookies, w2) = revoke_all_class_factories ole r.cookies w1 in
      let w3 =
        (if succeeded sus && has_registered_class cookies
          then (resume_class_objects w2).0
          else w2) in
      record r { cookies = cookies; world = w3 }

  unfoldable pub step : Mode → Event → Runtime → Runtime
  step surrogate acquired r = r
  step surrogate released r = r
  step surrogate timed_out r = if r.armed then check_for_exit r else r
  step standalone acquired r = add_server_reference r
  step standalone released r = release_server_reference r
  step standalone timed_out r = if r.armed then check_for_exit r else r

  pub run : Mode → List Event → Runtime → Runtime
  run mode [] r = r
  run mode (e ∷ events) r = run mode events (step mode e r)

-- FreeUnusedLibraries: `since` is the time since the timer was started, if it was; whether
-- CoFreeUnusedLibraries is called, and the timer restarted.
pub free_unused_libraries : Option ℕ → Bool
free_unused_libraries none = true
free_unused_libraries (some since) = ltb free_unused_libraries_interval since
