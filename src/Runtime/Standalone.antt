-- ===== src/Runtime/Standalone.antt =====
-- What the constructor and the destructor of RunAsStandalone leave behind.
use axhost.Common.{
  ℕ, Bool, false, not, ◌&&◌, ◌||◌, ◌≡◌, sym, if◌then◌else◌, List, [], ◌∷◌, ◌++◌, arith, ◌∙◌,
  Bool-cases, inl, inr,
}
use axhost.Common.Hresult.{succeeded, s_ok}
use axhost.ClassSpec.{ClassSpec}
use axhost.Com.{Com, Laws}
use axhost.Surrogate.{
  register_all_class_factories, revoke_all_class_factories, has_registered_class,
}
use axhost.Surrogate.Cookies.{
  Tracks, contains-nil, stay-Tracks, register_all_class_factories-Tracks,
}
use axhost.Surrogate.Revoking.{Revokes, revoke_loop-nil, revoke_all_class_factories-Tracks}
use axhost.Surrogate.Failures.{results, register_all_class_factories-Tried}
use axhost.Surrogate.Successes.{
  any_succeeded, any_failed, first_failure-any_failed, register_all_class_factories_has,
}
use axhost.Runtime.{
  Runtime, start, no_class_registered, exit_application_later, check_multiple_use,
  after_registration, run_as_standalone, end_standalone,
}

module _ (ole : Com) where
  check_multiple_use-start :
      (specs : List ClassSpec) (regcls : ℕ) (w : ole.World)
      → let r = check_multiple_use ole specs regcls (start ole w) in
        (r.world ≡ w)
        × (r.cookies ≡ [])
        × (r.exiting ≡ false)
        × (r.ready ≡ false)
        × (r.notices ≡ [])
  unfolding check_multiple_use start
  check_multiple_use-start specs regcls w = ground arith

  after_registration_lem :
      (suspended : Bool) (hr : ℕ) (r : Runtime ole)
      → let out = after_registration ole suspended hr r in
        (out.cookies ≡ r.cookies)
        × (out.ready ≡ (r.ready || succeeded hr))
        × (out.exiting ≡ (r.exiting || not (has_registered_class r.cookies)))
        × (out.notices ≡ (
            if has_registered_class r.cookies
            then r.notices
            else r.notices ++ no_class_registered ∷ []))
  unfolding after_registration exit_application_later
  after_registration_lem suspended hr r = ground arith

  -- The registrations that the constructor makes.
  abbrev pub registrations :
      List ClassSpec → ℕ → ole.World → List ClassSpec × ℕ × List ℕ × ole.World
  registrations specs regcls w =
      let sus = ole.suspend_class_objects w in
      register_all_class_factories ole specs (succeeded sus.1) regcls ([], sus.0)

  pub run_as_standalone_lem :
      (specs : List ClassSpec) (regcls : ℕ) (w : ole.World)
      → run_as_standalone ole specs regcls w
        ≡ after_registration ole
            (succeeded (ole.suspend_class_objects w).1)
            (registrations specs regcls w).1
            (record (check_multiple_use ole specs regcls (start ole w)) {
              cookies = (registrations specs regcls w).2;
              world = (registrations specs regcls w).3;
            })
  unfolding run_as_standalone
  run_as_standalone_lem specs regcls w =
      let base = check_multiple_use-start specs regcls w in rw (base.0, base.1)

  -- A standalone host signals the ready event exactly when no registration failed, and queues its
  -- exit, with a message, exactly when none succeeded.
  pub run_as_standalone-any_succeeded :
      (specs : List ClassSpec) (regcls : ℕ) (w : ole.World)
      → let r = run_as_standalone ole specs regcls w in
        let hrs = results (registrations specs regcls w).0 in
        (r.ready ≡ not (any_failed hrs))
        × (r.exiting ≡ not (any_succeeded hrs))
        × (r.notices ≡ (if any_succeeded hrs then [] else no_class_registered ∷ []))
  run_as_standalone-any_succeeded specs regcls w =
      let base = check_multiple_use-start specs regcls w in
      let sus = ole.suspend_class_objects w in
      let out = registrations specs regcls w in
      let all = register_all_class_factories-Tried ole specs (succeeded sus.1) regcls ([], sus.0) in
      let has = register_all_class_factories_has ole specs (succeeded sus.1) regcls sus.0 in
      let ready = first_failure-any_failed (results out.0) in
      let after =
        after_registration_lem (succeeded sus.1) out.1
          (record (check_multiple_use ole specs regcls (start ole w)) {
            cookies = out.2;
            world = out.3;
          }) in
      rw (run_as_standalone_lem specs regcls w) (ground (arith, after, base, all.1, has, ready))

module _ (ole : Com) (laws : Laws ole) where
  after_registration-Tracks :
      (suspended : Bool) (hr : ℕ) (r : Runtime ole)
      → Tracks ole laws (r.cookies, r.world)
      → let out = after_registration ole suspended hr r in Tracks ole laws (out.cookies, out.world)
  unfolding after_registration exit_application_later
  after_registration-Tracks suspended hr r t =
      let resumed = stay-Tracks ole laws r.cookies r.world _ t (laws.live-resume r.world) in
      ground (arith, t, resumed)

  -- A standalone host that starts with nothing registered knows all that it has registered: its
  -- cookies are those that COM holds.
  pub run_as_standalone-Tracks :
      (specs : List ClassSpec) (regcls : ℕ) (w : ole.World)
      → ((k : ℕ) → laws.live w k ≡ false)
      → let r = run_as_standalone ole specs regcls w in Tracks ole laws (r.cookies, r.world)
  run_as_standalone-Tracks specs regcls w none =
      let sus = ole.suspend_class_objects w in
      let empty : Tracks ole laws ([], sus.0) = record {
        distinct = tt;
        same = λ k. laws.live-suspend w k ∙ none k ∙ sym (contains-nil k);
      } in
      let out = registrations ole specs regcls w in
      rw (run_as_standalone_lem ole specs regcls w) (
        after_registration-Tracks (succeeded sus.1) out.1 _ (
          register_all_class_factories-Tracks ole laws specs (succeeded sus.1) regcls [] sus.0
            empty))

  -- At its end a standalone host revokes what it knows, and the cookies that it keeps are those
  -- that COM still holds.
  pub end_standalone-Tracks :
      (r : Runtime ole)
      → Tracks ole laws (r.cookies, r.world)
      → let r' = end_standalone ole r in Tracks ole laws (r'.cookies, r'.world)
  unfolding end_standalone
  end_standalone-Tracks r t =
      let sus = ole.suspend_class_objects r.world in
      let before = stay-Tracks ole laws r.cookies r.world sus.0 t (laws.live-suspend r.world) in
      let out = revoke_all_class_factories ole r.cookies sus.0 in
      let after = revoke_all_class_factories-Tracks ole laws r.cookies sus.0 before in
      elim (Bool-cases (succeeded sus.1 && has_registered_class out.1)) [
        | inl resumed ↦ rw resumed (
            stay-Tracks ole laws out.1 out.2 (ole.resume_class_objects out.2).0 after
              (laws.live-resume out.2))
        | inr left ↦ rw left after
      ]

  -- If COM revokes what it holds, no cookie is left.
  pub end_standalone-nil :
      (r : Runtime ole)
      → Revokes ole laws
      → Tracks ole laws (r.cookies, r.world)
      → (end_standalone ole r).cookies ≡ []
  unfolding end_standalone revoke_all_class_factories
  end_standalone-nil r revokes t =
      revoke_loop-nil ole laws r.cookies s_ok (ole.suspend_class_objects r.world).0 revokes
        t.distinct (λ k h. laws.live-suspend r.world k ∙ t.same k ∙ h)
