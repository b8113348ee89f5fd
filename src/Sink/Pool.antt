-- ===== src/Sink/Pool.antt =====
-- Nested calls of sinks and the threads of the pool that run them: Invoke and InvokeInThread of
-- src/sink.cc. The control raises its events on one thread, whose waits dispatch other calls. Of
-- QThreadPool the steps use what it documents: `size` threads, of which each runs one call, and a
-- call that waits for a free one.
use axhost.Common.{
  ℕ, ◌+◌, ◌<◌, ◌≡◌, Bool, true, false, ◌||◌, ◌==◌, if◌then◌else◌, List, [], ◌∷◌, Option, none, some,
  length,
}

-- The thread's part of a call: it waits for a thread, runs, has set the event, or has returned
-- without that, since it could not reach the client's sink.
pub data Phase : Type 0 where
  queued running finished silent : Phase

-- A call of Invoke that has not returned. `caller`: the call in whose client's sink the control was
-- called when it raised this event, if it was in one. `reaches`: GetInterfaceFromGlobal yields the
-- client's sink in the thread.
pub record Call : Type 0 where
  pub caller : Option ℕ
  pub reaches : Bool
  pub phase : Phase

-- The calls that wait on the control's thread, the innermost first; a call is named by the number
-- of calls below it.
abbrev pub Stack : Type 0
Stack = List Call

unfoldable pub phase_of : ℕ → Stack → Option Phase
phase_of i [] = none
phase_of i (c ∷ cs) = if length cs == i then some c.phase else phase_of i cs

unfoldable pub reaches_of : ℕ → Stack → Bool
reaches_of i [] = false
reaches_of i (c ∷ cs) = if length cs == i then c.reaches else reaches_of i cs

unfoldable pub set_phase : ℕ → Phase → Stack → Stack
set_phase i p [] = []
set_phase i p (c ∷ cs) =
    if length cs == i then record c { phase = p } ∷ cs else c ∷ set_phase i p cs

unfoldable pub is_caller : ℕ → Option ℕ → Bool
is_caller i none = false
is_caller i (some j) = j == i

-- The client's sink of a call waits for the control, which waits in a call further in.
unfoldable pub is_blocked : ℕ → Stack → Bool
is_blocked i [] = false
is_blocked i (c ∷ cs) = is_caller i c.caller || is_blocked i cs

abbrev pub is_running : Phase → Bool
is_running queued = false
is_running running = true
is_running finished = false
is_running silent = false

unfoldable pub threads_in_use : Stack → ℕ
threads_in_use [] = 0
threads_in_use (c ∷ cs) = (if is_running c.phase then 1 else 0) + threads_in_use cs

-- Invoke, up to its wait.
unfoldable pub raise : Option ℕ → Bool → Stack → Stack
raise caller reaches s = record { caller = caller; reaches = reaches; phase = queued } ∷ s

-- InvokeInThread gets a thread; it returns at once where it does not reach the client's sink, and
-- else sets the event when that has returned; and the innermost wait ends with the event.
pub data Quiet (size : ℕ) : Stack → Stack → Type 0 where
  starts :
      (s : Stack) (i : ℕ)
      → phase_of i s ≡ some queued
      → threads_in_use s < size
      → Quiet size s (set_phase i running s)
  finishes :
      (s : Stack) (i : ℕ)
      → phase_of i s ≡ some running
      → reaches_of i s ≡ true
      → is_blocked i s ≡ false
      → Quiet size s (set_phase i finished s)
  gives_up :
      (s : Stack) (i : ℕ)
      → phase_of i s ≡ some running
      → reaches_of i s ≡ false
      → Quiet size s (set_phase i silent s)
  returns : (c : Call) (s : Stack) → c.phase ≡ finished → Quiet size (c ∷ s) s

-- And the control raises a further event, by itself or in a call of any other client, or in a call
-- of a client's sink that runs.
pub data Step (size : ℕ) : Stack → Stack → Type 0 where
  quiet : {s t : Stack} → Quiet size s t → Step size s t
  raises : (s : Stack) (reaches : Bool) → Step size s (raise none reaches s)
  calls_back :
      (s : Stack) (i : ℕ) (reaches : Bool)
      → phase_of i s ≡ some running
      → reaches_of i s ≡ true
      → is_blocked i s ≡ false
      → Step size s (raise (some i) reaches s)

pub data Reach (size : ℕ) (s : Stack) : Stack → Type 0 where
  here : Reach size s s
  next : {t u : Stack} → Reach size s t → Step size t u → Reach size s u

-- Whatever happens, as long as no further event is raised, all calls return.
pub data Ends (size : ℕ) : Stack → Type 0 where
  ended : Ends size []
  ends : {s t : Stack} → Quiet size s t → ((u : Stack) → Quiet size s u → Ends size u) → Ends size s
