-- ===== src/Com.antt =====
-- The parts of COM that the host calls, whose code is not in the repository. A world is the state
-- of COM in the process; an interface pointer is its address, and 0 is null.
pub mod Table
use axhost.Common.{ℕ, ◌+◌, ◌-◌, ◌<◌, Bool, true, false, ◌==◌, if◌then◌else◌, ◌≡◌, ◌≢◌}
use axhost.Common.Hresult.{failed}
use axhost.ClassSpec.{Uuid}

abbrev pub Pointer : Type 0
Pointer = ℕ

-- The class objects that are registered: a HostContainerFactory of src/container_factory.h, or a
-- factory that COM handed out.
pub data Factory : Type 0 where
  host : Uuid → ℕ → Pointer → Pointer → Factory
  original : Pointer → Factory

pub record Com : Type 1 where
  pub World : Type 0
  -- CoGetClassObject for IClassFactory: class and context; the HRESULT and the pointer.
  pub get_class_object : Uuid → ℕ → World → World × ℕ × Pointer
  -- QueryInterface of a pointer for IUnknown.
  pub query_unknown : Pointer → World → ℕ × Pointer
  -- CoRegisterClassObject: class, object, context, REGCLS; the HRESULT and the cookie.
  pub register_class_object : Uuid → Factory → ℕ → ℕ → World → World × ℕ × ℕ
  -- CoRevokeClassObject.
  pub revoke_class_object : ℕ → World → World × ℕ
  pub suspend_class_objects : World → World × ℕ
  pub resume_class_objects : World → World × ℕ
  -- CoRegisterSurrogate.
  pub register_surrogate : World → World × ℕ
  -- CoAddRefServerProcess and CoReleaseServerProcess: the new count.
  pub add_ref_server_process : World → World × ℕ
  pub release_server_process : World → World × ℕ
  pub get_last_error : World → ℕ

-- What the host relies on: which cookies are registered, and how many references the process has.
pub record Laws (c : Com) : Type 0 where
  pub live : c.World → ℕ → Bool
  pub count : c.World → ℕ
  pub live-get_class_object :
      (id : Uuid) (context : ℕ) (w : c.World) (k : ℕ)
      → live (c.get_class_object id context w).0 k ≡ live w k
  pub live-register :
      (id : Uuid) (f : Factory) (context flags : ℕ) (w : c.World) (k : ℕ)
      → live (c.register_class_object id f context flags w).0 k ≡ (
          if failed (c.register_class_object id f context flags w).1
          then live w k
          else (if k == (c.register_class_object id f context flags w).2 then true else live w k))
  pub live-revoke :
      (j : ℕ) (w : c.World) (k : ℕ)
      → live (c.revoke_class_object j w).0 k ≡ (
          if failed (c.revoke_class_object j w).1
          then live w k
          else (if k == j then false else live w k))
  pub live-suspend : (w : c.World) (k : ℕ) → live (c.suspend_class_objects w).0 k ≡ live w k
  pub live-resume : (w : c.World) (k : ℕ) → live (c.resume_class_objects w).0 k ≡ live w k
  pub live-add_ref : (w : c.World) (k : ℕ) → live (c.add_ref_server_process w).0 k ≡ live w k
  pub live-release : (w : c.World) (k : ℕ) → live (c.release_server_process w).0 k ≡ live w k
  pub count-get_class_object :
      (id : Uuid) (context : ℕ) (w : c.World) → count (c.get_class_object id context w).0 ≡ count w
  pub count-register :
      (id : Uuid) (f : Factory) (context flags : ℕ) (w : c.World)
      → count (c.register_class_object id f context flags w).0 ≡ count w
  pub count-suspend : (w : c.World) → count (c.suspend_class_objects w).0 ≡ count w
  pub count-resume : (w : c.World) → count (c.resume_class_objects w).0 ≡ count w
  pub count-add_ref : (w : c.World) → count (c.add_ref_server_process w).0 ≡ count w + 1
  pub result-add_ref : (w : c.World) → (c.add_ref_server_process w).1 ≡ count w + 1
  pub count-release : (w : c.World) → count (c.release_server_process w).0 ≡ count w - 1
  pub result-release : (w : c.World) → (c.release_server_process w).1 ≡ count w - 1
