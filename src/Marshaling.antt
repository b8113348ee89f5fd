-- ===== src/Marshaling.antt =====
-- The IMarshal of HostContainerFactory, src/container_factory.cc: every method hands its arguments
-- to the standard marshaler of the factory or of the control's factory.
use axhost.Common.{ℕ, if◌then◌else◌}
use axhost.Common.Hresult.{failed}
use axhost.Com.{Pointer}
use axhost.Container.{Iid, unknown, Interface, interface_to_be_marshaled}

-- MSHCTX_LOCAL and MSHLFLAGS_NORMAL.
abbrev pub mshctx_local : ℕ
mshctx_local = 0

abbrev pub mshlflags_normal : ℕ
mshlflags_normal = 0

-- The standard marshaler of COM; a world is its state and that of the streams.
pub record Standard : Type 1 where
  pub World : Type 0
  -- CoGetStandardMarshal: interface, object, context and flags.
  pub get_standard_marshal : Iid → Interface → ℕ → ℕ → World → World × ℕ × Pointer
  pub get_unmarshal_class : Pointer → Iid → ℕ → ℕ → World → World × ℕ × ℕ
  pub get_marshal_size_max : Pointer → Iid → ℕ → ℕ → World → World × ℕ × ℕ
  pub marshal_interface : Pointer → Pointer → Iid → ℕ → ℕ → World → World × ℕ
  pub unmarshal_interface : Pointer → Pointer → Iid → World → World × ℕ × Pointer
  pub release_marshal_data : Pointer → Pointer → World → World × ℕ
  pub disconnect_object : Pointer → ℕ → World → World × ℕ

-- `underlying`: the control's factory, 0 if there is none.
module _ (standard : Standard) (underlying : Pointer) where
  open standard use {World}

  -- The marshaler that each method asks for.
  unfoldable pub marshaler : Iid → ℕ → ℕ → World → World × ℕ × Pointer
  marshaler riid context flags w =
      standard.get_standard_marshal riid (interface_to_be_marshaled riid underlying) context flags w

  -- The HRESULT and the class.
  unfoldable pub get_unmarshal_class : Iid → ℕ → ℕ → World → World × ℕ × ℕ
  get_unmarshal_class riid context flags w =
      let (w1, hr, marshal) = marshaler riid context flags w in
      if failed hr then (w1, hr, 0) else standard.get_unmarshal_class marshal riid context flags w1

  -- The HRESULT and the size.
  unfoldable pub get_marshal_size_max : Iid → ℕ → ℕ → World → World × ℕ × ℕ
  get_marshal_size_max riid context flags w =
      let (w1, hr, marshal) = marshaler riid context flags w in
      if failed hr then (w1, hr, 0) else standard.get_marshal_size_max marshal riid context flags w1

  unfoldable pub marshal_interface : Pointer → Iid → ℕ → ℕ → World → World × ℕ
  marshal_interface stream riid context flags w =
      let (w1, hr, marshal) = marshaler riid context flags w in
      if failed hr
      then (w1, hr)
      else standard.marshal_interface marshal stream riid context flags w1

  unfoldable pub unmarshal_interface : Pointer → Iid → World → World × ℕ × Pointer
  unmarshal_interface stream riid w =
      let (w1, hr, marshal) = marshaler riid mshctx_local mshlflags_normal w in
      if failed hr then (w1, hr, 0) else standard.unmarshal_interface marshal stream riid w1

  unfoldable pub release_marshal_data : Pointer → World → World × ℕ
  release_marshal_data stream w =
      let (w1, hr, marshal) = marshaler unknown mshctx_local mshlflags_normal w in
      if failed hr then (w1, hr) else standard.release_marshal_data marshal stream w1

  unfoldable pub disconnect_object : ℕ → World → World × ℕ
  disconnect_object reserved w =
      let (w1, hr, marshal) = marshaler unknown mshctx_local mshlflags_normal w in
      if failed hr then (w1, hr) else standard.disconnect_object marshal reserved w1
