-- ===== src/Sink.antt =====
-- HostEventSink, src/sink.cc: a client's sink is kept in the global interface table, and its
-- events are raised on a thread of a pool while the caller waits.
pub mod Lifecycle
pub mod Thread
pub mod Waiting
pub mod Pool
pub mod Nesting
pub mod Deadlock
use axhost.Common.{
  ℕ, Bool, true, false, not, ◌||◌, ◌==◌, if◌then◌else◌, List, [], ◌∷◌, Option, none, some,
}
use axhost.Common.Hresult.{e_notimpl, failed, s_ok, e_unexpected, e_invalidarg, e_fail}
use axhost.Com.{Pointer}

-- The global interface table and the client's sinks; a world is their state.
pub record Global : Type 1 where
  pub World : Type 0
  -- CoCreateInstance of the table succeeds, now or before.
  pub has_table : World → Bool
  -- QueryInterface of a sink for IDispatch.
  pub query_dispatch : Pointer → World → World × ℕ × Pointer
  -- RegisterInterfaceInGlobal: the HRESULT and the cookie.
  pub register_interface : Pointer → World → World × ℕ × ℕ
  pub revoke_interface : ℕ → World → World × ℕ
  -- GetInterfaceFromGlobal: the HRESULT and the sink.
  pub get_interface : ℕ → World → World × ℕ × Pointer
  -- IDispatch::Invoke of a member.
  pub invoke : Pointer → ℕ → World → World × ℕ

abbrev pub disp_e_unknowninterface : ℕ
disp_e_unknowninterface = 0x80020001

-- A return of CoWaitForMultipleHandles: the HRESULT and the index.
pub record Wake : Type 0 where
  pub hr : ℕ
  pub index : ℕ

-- The loop of Invoke over the returns of CoWaitForMultipleHandles, with the result of the thread;
-- none, if it still waits.
unfoldable pub wait_loop : ℕ → List Wake → Option ℕ
wait_loop result [] = none
wait_loop result (wake ∷ wakes) =
    let rest = wait_loop result wakes in
    if failed wake.hr then some wake.hr else if wake.index == 0 then some result else rest

-- GetTypeInfoCount: the HRESULT and what is written, if the address is not null.
unfoldable pub get_type_info_count : Bool → ℕ × Option ℕ
get_type_info_count wanted = (s_ok, if wanted then some 0 else none)

-- GetTypeInfo and GetIDsOfNames: the HRESULT.
abbrev pub get_type_info : ℕ
get_type_info = e_notimpl

abbrev pub get_ids_of_names : ℕ
get_ids_of_names = e_notimpl

module _ (git : Global) where
  open git use {
    World, has_table, query_dispatch, register_interface, revoke_interface, get_interface,
  }

  -- CreateGlobalSink: the HRESULT and m_cookie.
  unfoldable pub create_global_sink : Pointer → ℕ → World → World × ℕ × ℕ
  create_global_sink sink cookie w =
      if sink == 0
      then (w, e_invalidarg, cookie)
      else let (w1, hr, dispatch) = query_dispatch sink w in
        if failed hr
        then (w1, hr, cookie)
        else if dispatch == 0
        then (w1, e_unexpected, cookie)
        else if not (has_table w1)
        then (w1, e_unexpected, cookie)
        else register_interface dispatch w1

  -- RemoveGlobalSink: the HRESULT and m_cookie.
  unfoldable pub remove_global_sink : ℕ → World → World × ℕ × ℕ
  remove_global_sink cookie w =
      if cookie == 0
      then (w, s_ok, cookie)
      else if not (has_table w)
      then (w, e_unexpected, cookie)
      else let (w1, hr) = revoke_interface cookie w in (w1, hr, 0)

  -- The constructor. `uninitialised` is what m_cookie holds before it, since nothing sets it.
  unfoldable pub construct : Pointer → ℕ → World → World × ℕ
  construct underlying uninitialised w =
      let (w1, hr, cookie) = create_global_sink underlying uninitialised w in (w1, cookie)

  unfoldable pub destruct : ℕ → World → World
  destruct cookie w = (remove_global_sink cookie w).0

  -- InvokeInThread: the HRESULT, and whether the event is set.
  unfoldable pub invoke_in_thread : ℕ → ℕ → World → World × ℕ × Bool
  invoke_in_thread member cookie w =
      let (w1, hr, sink) = get_interface cookie w in
      if failed hr
      then (w1, hr, false)
      else if sink == 0
      then (w1, e_unexpected, false)
      else let (w2, hr1) = git.invoke sink member w1 in (w2, hr1, true)

  -- Invoke. `null_iid`: the interface is IID_NULL; `event`: an event could be made; `wakes`: the
  -- returns of the wait, which depend on whether the event is set.
  unfoldable pub invoke : Bool → Bool → (Bool → List Wake) → ℕ → ℕ → World → World × Option ℕ
  invoke null_iid event wakes member cookie w =
      if not null_iid
      then (w, some disp_e_unknowninterface)
      else if cookie == 0
      then (w, some e_unexpected)
      else if not event
      then (w, some e_fail)
      else let (w1, result, set) = invoke_in_thread member cookie w in
        (w1, wait_loop result (wakes set))
