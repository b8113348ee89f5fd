-- ===== src/Surrogate/Failures.antt =====
-- What registering and revoking report.
use axhost.Common.{
  ℕ, Bool, true, false, not, ◌≡◌, ◌⊎◌, refl, subst, if◌then◌else◌, List, [], ◌∷◌, map, arith,
  is_empty, Bool-cases, inl, inr,
}
use axhost.Common.Hresult.{failed, succeeded, s_ok}
use axhost.ClassSpec.{ClassSpec, sanitize}
use axhost.Common.Flags.{bit_or, regcls_suspended, regcls_multi_separate}
use axhost.Com.{Com}
use axhost.Surrogate.{
  load_dll_server_ex, register_spec, register_loop, register_all_class_factories, revoke_loop,
  revoke_all_class_factories, has_registered_class,
}

-- The first result that is a failure, and success if there is none.
abbrev pub first_failure : List ℕ → ℕ
first_failure [] = s_ok
first_failure (hr ∷ hrs) = if failed hr then hr else first_failure hrs

abbrev pub results : List ClassSpec → List ℕ
results = map (λ s. s.result)

-- The flags of every registration.
abbrev pub all_flags : Bool → ℕ → ℕ
all_flags suspend regcls =
    bit_or (if suspend then bit_or regcls regcls_suspended else regcls) regcls_multi_separate

module _ (ole : Com) where
  register_loop-keeps :
      (regcls : ℕ) (specs : List ClassSpec) (overall : ℕ) (state : List ℕ × ole.World)
      → failed overall ≡ true
      → (register_loop ole regcls specs overall state).1 ≡ overall
  unfolding register_loop
  register_loop-keeps regcls [] overall state h = refl
  register_loop-keeps regcls (g ∷ specs) overall state h =
      let out = register_spec ole regcls g state in
      let after = register_loop-keeps regcls specs overall (out.1, out.2) h in
      elim (Bool-cases (failed out.0.result)) [
        | inl bad ↦ rw (bad, h) after
        | inr fine ↦ rw fine after
      ]

  register_loop-first_failure :
      (regcls : ℕ) (specs : List ClassSpec) (state : List ℕ × ole.World)
      → (register_loop ole regcls specs s_ok state).1
        ≡ first_failure (results (register_loop ole regcls specs s_ok state).0)
  unfolding register_loop
  register_loop-first_failure regcls [] state = refl
  register_loop-first_failure regcls (g ∷ specs) state =
      let out = register_spec ole regcls g state in
      elim (Bool-cases (failed out.0.result)) [
        | inl bad ↦ rw bad (register_loop-keeps regcls specs out.0.result (out.1, out.2) bad)
        | inr fine ↦ rw fine (register_loop-first_failure regcls specs (out.1, out.2))
      ]

  -- LoadDllServerEx for one specification, with its defaults.
  abbrev pub own_load : ℕ → ClassSpec → List ℕ × ole.World → ℕ × List ℕ × ole.World
  own_load regcls g state =
      let spec = sanitize regcls g in
      load_dll_server_ex ole spec.clsid spec.alias spec.clsctx_create spec.clsctx_register
        spec.regcls state

  register_spec-own_load :
      (regcls : ℕ) (g : ClassSpec) (state : List ℕ × ole.World)
      → let loaded = own_load regcls g state in
        let o = register_spec ole regcls g state in
        (o.0.clsid ≡ g.clsid)
        × (o.0.result ≡ loaded.0)
        × ((failed o.0.result ≡ false) ⊎ (o.0.error ≡ ole.get_last_error loaded.2))
        × (o.1 ≡ loaded.1)
        × (o.2 ≡ loaded.2)
  unfolding register_spec sanitize
  register_spec-own_load regcls g state = ground arith

  -- Each specification was tried, in order, in the state that the one before left, whether or not
  -- that failed; and it came back with its class, the result of its own registration, and the last
  -- error if that failed.
  pub data Tried (regcls : ℕ)
      : List ClassSpec → List ClassSpec → List ℕ × ole.World → List ℕ × ole.World → Type 0 where
    all_tried : (state : List ℕ × ole.World) → Tried regcls [] [] state state
    tried :
        {given out : List ClassSpec} {state last : List ℕ × ole.World} (g o : ClassSpec)
        → o.clsid ≡ g.clsid
        → o.result ≡ (own_load regcls g state).0
        → (failed o.result ≡ false) ⊎ (o.error ≡ ole.get_last_error (own_load regcls g state).2)
        → Tried regcls given out ((own_load regcls g state).1, (own_load regcls g state).2) last
        → Tried regcls (g ∷ given) (o ∷ out) state last

  register_loop-Tried :
      (regcls : ℕ) (specs : List ClassSpec) (overall : ℕ) (state : List ℕ × ole.World)
      → let out = register_loop ole regcls specs overall state in
        Tried regcls specs out.0 state (out.2, out.3)
  unfolding register_loop
  register_loop-Tried regcls [] overall state = all_tried state
  register_loop-Tried regcls (g ∷ specs) overall state =
      let o = register_spec ole regcls g state in
      let (class, own, error, cookies, world) = register_spec-own_load regcls g state in
      let overall' : ℕ =
        (if failed o.0.result
          then (if succeeded overall then o.0.result else overall)
          else overall) in
      let out = register_loop ole regcls specs overall' (o.1, o.2) in
      let last : List ℕ × ole.World = (out.2, out.3) in
      let rest = register_loop-Tried regcls specs overall' (o.1, o.2) in
      tried g o.0 class own error (
        subst (λ v. Tried regcls specs out.0 ((own_load regcls g state).1, v) last) world
          (subst (λ c. Tried regcls specs out.0 (c, o.2) last) cookies rest))

  -- Registering all classes goes on behind a failure: every specification is tried, in order, and
  -- comes back with the result of its own registration; and the result of the whole is the first of
  -- them that is a failure.
  pub register_all_class_factories-Tried :
      (specs : List ClassSpec) (suspend : Bool) (regcls : ℕ) (state : List ℕ × ole.World)
      → let out = register_all_class_factories ole specs suspend regcls state in
        Tried (all_flags suspend regcls) specs out.0 state (out.2, out.3)
        × (out.1 ≡ first_failure (results out.0))
  unfolding register_all_class_factories
  register_all_class_factories-Tried specs suspend regcls state =
      (register_loop-Tried _ specs s_ok state, register_loop-first_failure _ specs state)

  revoke_loop-keeps :
      (cookies : List ℕ) (overall : ℕ) (w : ole.World)
      → failed overall ≡ true
      → (revoke_loop ole cookies overall w).0 ≡ overall
  unfolding revoke_loop
  revoke_loop-keeps [] overall w h = refl
  revoke_loop-keeps (c ∷ cookies) overall w h =
      let out = ole.revoke_class_object c w in
      let after = revoke_loop-keeps cookies overall out.0 h in
      elim (Bool-cases (failed out.1)) [ inl bad ↦ rw (bad, h) after | inr fine ↦ rw fine after ]

  revoke_loop-failed :
      (cookies : List ℕ) (w : ole.World)
      → failed (revoke_loop ole cookies s_ok w).0
        ≡ not (is_empty (revoke_loop ole cookies s_ok w).1)
  unfolding revoke_loop
  revoke_loop-failed [] w = refl
  revoke_loop-failed (c ∷ cookies) w =
      let out = ole.revoke_class_object c w in
      elim (Bool-cases (failed out.1)) [
        | inl bad ↦ rw (bad, revoke_loop-keeps cookies out.1 out.0 bad, bad)
        | inr fine ↦ rw fine (revoke_loop-failed cookies out.0)
      ]

  -- Revoking all classes fails exactly when a cookie is left in the set.
  pub revoke_all_class_factories-failed :
      (cookies : List ℕ) (w : ole.World)
      → let out = revoke_all_class_factories ole cookies w in
        failed out.0 ≡ has_registered_class out.1
  unfolding revoke_all_class_factories has_registered_class
  revoke_all_class_factories-failed cookies w = revoke_loop-failed cookies w
