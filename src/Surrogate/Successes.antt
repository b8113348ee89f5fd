-- ===== src/Surrogate/Successes.antt =====
-- Whether a class object is registered, by the results of the registrations.
use axhost.Common.{
  ℕ, Bool, true, false, not, ◌||◌, ◌≡◌, refl, if◌then◌else◌, List, [], ◌∷◌, arith, Bool-cases, inl,
  inr,
}
use axhost.Common.Hresult.{failed, succeeded, s_ok}
use axhost.ClassSpec.{ClassSpec, Uuid, sanitize}
use axhost.Com.{Com, Pointer, original}
use axhost.Surrogate.{
  original_factory, new_factory, insert, contains, register_original, load_dll_server_ex,
  register_spec, register_loop, register_all_class_factories, has_registered_class,
}
use axhost.Surrogate.Failures.{results, first_failure}

-- A registration succeeded.
abbrev pub any_succeeded : List ℕ → Bool
any_succeeded [] = false
any_succeeded (hr ∷ hrs) = succeeded hr || any_succeeded hrs

abbrev pub any_failed : List ℕ → Bool
any_failed [] = false
any_failed (hr ∷ hrs) = failed hr || any_failed hrs

pub first_failure-any_failed : (hrs : List ℕ) → succeeded (first_failure hrs) ≡ not (any_failed hrs)
first_failure-any_failed [] = refl
first_failure-any_failed (hr ∷ hrs) = ground (arith, first_failure-any_failed hrs)

insert_has : (c : ℕ) (cookies : List ℕ) → has_registered_class (insert c cookies) ≡ true
unfolding insert has_registered_class contains
insert_has c [] = refl
insert_has c (d ∷ cookies) = ground arith

module _ (ole : Com) where
  register_original_has :
      (id : Uuid) (context : ℕ) (found : Pointer) (cookies : List ℕ) (w : ole.World)
      → has_registered_class cookies ≡ true
      → has_registered_class (register_original ole id context found (cookies, w)).0 ≡ true
  unfolding register_original
  register_original_has id context found cookies w h =
      let cookie = (ole.register_class_object id (original found) context 3 w).2 in
      ground (arith, h, insert_has cookie cookies)

  load_dll_server_ex_has :
      (id alias : Uuid) (create register regcls : ℕ) (cookies : List ℕ) (w : ole.World)
      → let out = load_dll_server_ex ole id alias create register regcls (cookies, w) in
        has_registered_class out.1 ≡ (has_registered_class cookies || succeeded out.0)
  unfolding load_dll_server_ex
  load_dll_server_ex_has id alias create register regcls cookies w =
      let org = original_factory ole id create register regcls w in
      let fac = new_factory ole id create org.0 in
      let out = ole.register_class_object alias fac.1 register regcls fac.0 in
      elim (Bool-cases (failed out.1)) [
        | inl bad ↦ rw bad ground (arith, bad)
        | inr fine ↦ rw fine ground (
          arith,
          fine,
          register_original_has id create org.2 (insert out.2 cookies) out.0
              (insert_has out.2 cookies),
        )
      ]

  register_spec_has :
      (regcls : ℕ) (g : ClassSpec) (cookies : List ℕ) (w : ole.World)
      → let out = register_spec ole regcls g (cookies, w) in
        has_registered_class out.1 ≡ (has_registered_class cookies || succeeded out.0.result)
  unfolding register_spec
  register_spec_has regcls g cookies w =
      let spec = sanitize regcls g in
      let has =
        load_dll_server_ex_has spec.clsid spec.alias spec.clsctx_create spec.clsctx_register
          spec.regcls cookies w in
      ground (arith, has)

  register_loop_has :
      (regcls : ℕ) (specs : List ClassSpec) (overall : ℕ) (cookies : List ℕ) (w : ole.World)
      → let out = register_loop ole regcls specs overall (cookies, w) in
        has_registered_class out.2 ≡ (has_registered_class cookies || any_succeeded (results out.0))
  unfolding register_loop
  register_loop_has regcls [] overall cookies w = ground arith
  register_loop_has regcls (g ∷ specs) overall cookies w =
      let o = register_spec ole regcls g (cookies, w) in
      ground (
        arith,
        register_spec_has regcls g cookies w,
        register_loop_has regcls specs
            (if failed o.0.result
              then (if succeeded overall then o.0.result else overall)
              else overall)
            o.1 o.2,
      )

  -- RegisterAllClassFactories, from no registration on.
  pub register_all_class_factories_has :
      (specs : List ClassSpec) (suspend : Bool) (regcls : ℕ) (w : ole.World)
      → let out = register_all_class_factories ole specs suspend regcls ([], w) in
        has_registered_class out.2 ≡ any_succeeded (results out.0)
  unfolding register_all_class_factories has_registered_class
  register_all_class_factories_has specs suspend regcls w = register_loop_has _ specs s_ok [] w
