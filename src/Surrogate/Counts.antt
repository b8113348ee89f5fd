-- ===== src/Surrogate/Counts.antt =====
-- Registering class objects does not use the process.
use axhost.Common.{ℕ, ◌≡◌, refl, ◌∙◌, Bool, List, [], ◌∷◌, arith}
use axhost.Common.Flags.{bit_or, regcls_multipleuse, regcls_multi_separate}
use axhost.ClassSpec.{ClassSpec, Uuid, sanitize}
use axhost.Com.{Com, Laws, Pointer, original}
use axhost.Surrogate.{
  insert, original_factory, register_original, load_dll_server_ex, register_spec, register_loop,
  new_factory, register_all_class_factories,
}

module _ (ole : Com) (laws : Laws ole) where
  open laws use {count, count-get_class_object, count-register}

  new_factory-count :
      (clsid : Uuid) (clsctx : ℕ) (w : ole.World)
      → count (new_factory ole clsid clsctx w).0 ≡ count w
  unfolding new_factory
  new_factory-count clsid clsctx w = ground (arith, count-get_class_object clsid clsctx w)

  original_factory-count :
      (clsid : Uuid) (create register flags : ℕ) (w : ole.World)
      → count (original_factory ole clsid create register flags w).0 ≡ count w
  unfolding original_factory
  original_factory-count clsid create register flags w =
      ground (arith, count-get_class_object clsid create w)

  register_original-count :
      (clsid : Uuid) (create : ℕ) (found : Pointer) (state : List ℕ × ole.World)
      → count (register_original ole clsid create found state).1 ≡ count state.1
  unfolding register_original
  register_original-count clsid create found state =
      let flags : ℕ = bit_or regcls_multipleuse regcls_multi_separate in
      ground (arith, count-register clsid (original found) create flags state.1)

  load_dll_server_ex-count :
      (clsid alias : Uuid) (create register flags : ℕ) (state : List ℕ × ole.World)
      → count (load_dll_server_ex ole clsid alias create register flags state).2 ≡ count state.1
  unfolding load_dll_server_ex
  load_dll_server_ex-count clsid alias create register flags state =
      let org = original_factory ole clsid create register flags state.1 in
      let made = new_factory ole clsid create org.0 in
      let reg = ole.register_class_object alias made.1 register flags made.0 in
      ground (
        arith,
        original_factory-count clsid create register flags state.1,
        new_factory-count clsid create org.0,
        count-register alias made.1 register flags made.0,
        register_original-count clsid create org.2 (insert reg.2 state.0, reg.0),
      )

  register_spec-count :
      (regcls : ℕ) (given : ClassSpec) (state : List ℕ × ole.World)
      → count (register_spec ole regcls given state).2 ≡ count state.1
  unfolding register_spec
  register_spec-count regcls given state =
      let spec : ClassSpec = sanitize regcls given in
      ground (
        arith,
        load_dll_server_ex-count spec.clsid spec.alias spec.clsctx_create spec.clsctx_register
            spec.regcls state,
      )

  register_loop-count :
      (regcls : ℕ) (specs : List ClassSpec) (overall : ℕ) (state : List ℕ × ole.World)
      → count (register_loop ole regcls specs overall state).3 ≡ count state.1
  unfolding register_loop
  register_loop-count regcls [] overall state = refl
  register_loop-count regcls (given ∷ specs) overall state =
      let out = register_spec ole regcls given state in
      register_loop-count regcls specs _ (out.1, out.2) ∙ register_spec-count regcls given state

  pub register_all_class_factories-count :
      (specs : List ClassSpec) (suspend : Bool) (regcls : ℕ) (state : List ℕ × ole.World)
      → count (register_all_class_factories ole specs suspend regcls state).3 ≡ count state.1
  unfolding register_all_class_factories
  register_all_class_factories-count specs suspend regcls state =
      register_loop-count _ specs _ state
