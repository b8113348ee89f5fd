-- ===== src/Sink/Thread.antt =====
-- What HostEventSink, src/sink.cc, makes when it is first used: the pool, the table, and COM in
-- each thread that raises an event.
use axhost.Common.{ℕ, suc, zero, ◌==◌, ◌≡◌, refl, if◌then◌else◌, Option, none, some}
use axhost.Com.{Pointer}
use axhost.ComContext.{Threading, ComInitializeContext, construct}

-- COINIT_MULTITHREADED.
abbrev pub coinit_multithreaded : ℕ
coinit_multithreaded = 0

-- GetThreadPool: g_threadPool; `create` is the pool that is made if there is none.
unfoldable pub get_thread_pool : Pointer → Pointer → Pointer
get_thread_pool create pool = if pool == 0 then create else pool

-- GetGlobalInterfaceTable: g_git; `create` is what CoCreateInstance gives, 0 if it fails.
unfoldable pub get_global_interface_table : Pointer → Pointer → Pointer
get_global_interface_table create git = if git == 0 then create else git

module _ (threading : Threading) where
  open threading use {World}

  -- g_tls in a thread, at the start of what runs there.
  unfoldable pub enter_thread :
      Option ComInitializeContext × World → Option ComInitializeContext × World
  enter_thread (some context, w) = (some context, w)
  enter_thread (none, w) =
      let (w1, context) = construct threading coinit_multithreaded w in (some context, w1)

  -- CreateGlobalSinkInThread: the sink, null if the table does not give it. `get`:
  -- GetInterfaceFromGlobal of the table.
  unfoldable pub create_global_sink_in_thread :
      (ℕ → ℕ × Pointer)
      → ℕ
      → Option ComInitializeContext × World
      → Pointer × Option ComInitializeContext × World
  create_global_sink_in_thread get cookie local =
      let (context, w) = enter_thread local in ((get cookie).1, context, w)

  -- A thread that raises a number of events.
  unfoldable pub enter_times :
      ℕ → Option ComInitializeContext × World → Option ComInitializeContext × World
  enter_times zero local = local
  enter_times (suc n) local = enter_times n (enter_thread local)

  enter_times-some :
      (n : ℕ) (context : ComInitializeContext) (w : World)
      → enter_times n (some context, w) ≡ (some context, w)
  unfolding enter_times enter_thread
  enter_times-some zero context w = refl
  enter_times-some (suc n) context w = enter_times-some n context w

  -- However many events a thread raises, COM is initialised in it at the first alone.
  pub enter_times-first :
      (n : ℕ) (w : World) → enter_times (suc n) (none, w) ≡ enter_thread (none, w)
  unfolding enter_times enter_thread
  enter_times-first n w = enter_times-some n _ _
