-- ===== src/ReadyEvent.antt =====
-- HostReadyEvent, src/ready_event.cc: the named event that a standalone host sets when its classes
-- are registered.
use axhost.Common.{Text, codes, Bool, true, false, ◌==◌, if◌then◌else◌, ◌++◌, is_empty}
use axhost.Com.{Pointer}

-- Events of Windows; a world is their state.
pub record Events : Type 1 where
  pub World : Type 0
  -- The number of the process in decimal digits.
  pub process_id : Text
  -- CreateEventW of a manual event that is not set: the handle, 0 if it fails.
  pub create_event : Text → World → World × Pointer
  -- ::SetEvent of a handle.
  pub set_event : Pointer → World → World × Bool

module _ (events : Events) where
  open events use {World}

  unfoldable pub create_default_host_ready_event_name : Text
  create_default_host_ready_event_name = codes "Local\\AxHost_Ready_" ++ events.process_id

  -- CreateEventHandle, and the constructor with a name.
  unfoldable pub create_event_handle : Text → World → World × Pointer
  create_event_handle event w =
      events.create_event (if is_empty event then create_default_host_ready_event_name else event) w

  -- The constructor without a name.
  unfoldable pub create_default_event : World → World × Pointer
  create_default_event w = create_event_handle create_default_host_ready_event_name w

  -- HostReadyEvent::SetEvent of a handle.
  unfoldable pub set_event : Pointer → World → World × Bool
  set_event handle w = if handle == 0 then (w, false) else events.set_event handle w

  unfoldable pub is_valid : Pointer → Bool
  is_valid handle = if handle == 0 then false else true
