-- ===== src/Container.antt =====
-- HostContainer, src/container.cc, and HostContainerFactory, src/container_factory.cc: the object
-- that a client gets for a control, its references, and its references to the runtime.
pub mod Creating
pub mod Methods
use axhost.Common.{
  ℕ, Bool, true, false, not, ◌||◌, ◌&&◌, ◌==◌, ◌+◌, ◌-◌, ◌%◌, ◌^◌, if◌then◌else◌, Option, none,
  some,
}
use axhost.Common.Hresult.{
  s_ok, e_pointer, e_nointerface, class_e_noaggregation, class_e_classnotavailable,
}
use axhost.ClassSpec.{Uuid}
use axhost.Com.{Com, Pointer}
use axhost.Runtime.{Runtime, Mode, step, acquired, released}

-- The interfaces that the host's own objects know, and all others.
pub data Iid : Type 0 where
  unknown provide_class_info provide_class_info2 connection_point_container : Iid
  external_connection class_factory marshal : Iid
  other : ℕ → Iid

-- What is given out: nothing, the host's object, or a pointer of the control's.
pub data Interface : Type 0 where
  null own : Interface
  of_control : Pointer → Interface

-- QAxWidget, which loads a control; a world is its state.
pub record Widget : Type 1 where
  pub World : Type 0
  -- setControl with a class and a context: whether it succeeds and the widget is not null.
  pub set_control : Uuid → ℕ → World → World × Bool
  -- queryInterface: the HRESULT and the pointer.
  pub query_interface : Iid → World → World × ℕ × Pointer

-- The control's interfaces that the parts of a container stand before, each 0 if the control does
-- not have it: m_provideClassInfo, m_connectionPointContainer and m_externalConnection.
pub record Parts : Type 0 where
  pub class_info : Pointer
  pub class_info2 : Pointer
  pub connection_points : Pointer
  pub external : Pointer

-- HostContainer; `initialized`: its control is loaded; `parts`: none, while they are null. A
-- deleted container stays in the model.
pub record Container : Type 0 where
  pub class_id : Uuid
  pub class_context : ℕ
  pub ref : ℕ
  pub initialized : Bool
  pub parts : Option Parts
  pub deleted : Bool

-- Which interfaces QueryInterface of a container answers itself.
unfoldable pub answers : Iid → Bool
answers unknown = true
answers provide_class_info = true
answers provide_class_info2 = true
answers connection_point_container = true
answers external_connection = true
answers class_factory = false
answers marshal = false
answers (other i) = false

-- AddRef; the count is a 32-bit ULONG.
unfoldable pub add_ref : Container → Container
add_ref c = record c { ref = (c.ref + 1) % 2 ^ 32 }

module _ (ole : Com) (mode : Mode) (widget : Widget) where
  -- `HostSurrogateRuntime::instance()` with AddServerReference or ReleaseServerReference.
  unfoldable pub add_server_reference_if : Option (Runtime ole) → Option (Runtime ole)
  add_server_reference_if none = none
  add_server_reference_if (some r) = some (step ole mode acquired r)

  unfoldable pub release_server_reference_if : Option (Runtime ole) → Option (Runtime ole)
  release_server_reference_if none = none
  release_server_reference_if (some r) = some (step ole mode released r)

  -- What the constructor asks the control for, to make the parts of it. A failing query leaves
  -- the pointer null.
  unfoldable pub make_parts : widget.World → Parts × widget.World
  make_parts w =
      let (w1, hr1, class_info) = widget.query_interface provide_class_info w in
      let (w2, hr2, class_info2) = widget.query_interface provide_class_info2 w1 in
      let (w3, hr3, points) = widget.query_interface connection_point_container w2 in
      let (w4, hr4, external) = widget.query_interface external_connection w3 in
      (
        record {
          class_info = class_info;
          class_info2 = class_info2;
          connection_points = points;
          external = external;
        },
        w4,
      )

  unfoldable pub parts_if : Bool → widget.World → Option Parts × widget.World
  parts_if false w = (none, w)
  parts_if true w = let (parts, w1) = make_parts w in (some parts, w1)

  -- The constructor.
  unfoldable pub construct :
      Uuid
      → ℕ
      → Option (Runtime ole)
      → widget.World
      → Container × Option (Runtime ole) × widget.World
  construct clsid clsctx rt w =
      let (w1, loaded) = widget.set_control clsid clsctx w in
      let (parts, w2) = parts_if loaded w1 in
      (
        record {
          class_id = clsid;
          class_context = clsctx;
          ref = 0;
          initialized = loaded;
          parts = parts;
          deleted = false;
        },
        add_server_reference_if rt,
        w2,
      )

  -- Release, with the destructor when the count is 0; `n <= 0` of a ULONG is `n == 0`.
  unfoldable pub release : Container → Option (Runtime ole) → Container × Option (Runtime ole)
  release c rt =
      let n : ℕ = (c.ref + (2 ^ 32 - 1)) % 2 ^ 32 in
      if n == 0
      then (record c { ref = n; deleted = true }, release_server_reference_if rt)
      else (record c { ref = n }, rt)

  -- QueryInterface of a container.
  unfoldable pub query_interface :
      Bool → Iid → Container → widget.World → ℕ × Interface × Container × widget.World
  query_interface wanted riid c w =
      if not wanted
      then (e_pointer, null, c, w)
      else if answers riid
      then (s_ok, own, add_ref c, w)
      else if not c.initialized
      then (e_nointerface, null, c, w)
      else let (w1, hr, p) = widget.query_interface riid w in
        (hr, (if p == 0 then null else of_control p), c, w1)

  -- What CreateInstance gives: the HRESULT, the interface, the container if one was made, and the
  -- runtime and the widget after it.
  abbrev pub Created : Type 0
  Created = ℕ × Interface × Option Container × Option (Runtime ole) × widget.World

  -- HostContainerFactory::CreateInstance. A smart pointer holds the container while it runs.
  unfoldable pub create_instance :
      Bool → Bool → Iid → Uuid → ℕ → Option (Runtime ole) → widget.World → Created
  create_instance outer wanted riid clsid clsctx rt w =
      if not wanted
      then (e_pointer, null, none, rt, w)
      else if outer
      then (class_e_noaggregation, null, none, rt, w)
      else let (made, rt1, w1) = construct clsid clsctx rt w in
        let held = add_ref made in
        if not held.initialized
        then (let (c, rt2) = release held rt1 in (class_e_classnotavailable, null, some c, rt2, w1))
        else let (hr, given, asked, w2) = query_interface true riid held w1 in
          let (c, rt2) = release asked rt1 in (hr, given, some c, rt2, w2)

  -- HostContainerFactory::LockServer.
  unfoldable pub lock_server : Bool → Option (Runtime ole) → ℕ × Option (Runtime ole)
  lock_server lock rt =
      (s_ok, (if lock then add_server_reference_if rt else release_server_reference_if rt))

-- HostContainerFactory::QueryInterface: whether it answers; it then adds a reference.
pub factory_answers : Iid → Bool
factory_answers unknown = true
factory_answers class_factory = true
factory_answers marshal = true
factory_answers _ = false

-- GetInterfaceToBeMarshaled: the factory itself, or the control's factory if there is one.
pub interface_to_be_marshaled : Iid → Pointer → Interface
interface_to_be_marshaled class_factory underlying = own
interface_to_be_marshaled unknown underlying = own
interface_to_be_marshaled _ underlying = if underlying == 0 then own else of_control underlying
