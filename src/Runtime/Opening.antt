-- ===== src/Runtime/Opening.antt =====
-- How a standalone host starts out: nobody uses it, and whether it stays unused.
use axhost.Common.{ℕ, Bool, ◌||◌, ◌≡◌, ◌∙◌, List, [], arith}
use axhost.Common.Flags.{has, regcls_multipleuse}
use axhost.Common.Hresult.{succeeded}
use axhost.ClassSpec.{ClassSpec}
use axhost.Com.{Com, Laws}
use axhost.Surrogate.Counts.{register_all_class_factories-count}
use axhost.Runtime.{
  Runtime, start, exit_application_later, any_multiple_use, check_multiple_use, after_registration,
  run_as_standalone,
}
use axhost.Runtime.Standalone.{run_as_standalone_lem}

module _ (ole : Com) where
  check_multiple_use-has :
      (specs : List ClassSpec) (regcls : ℕ) (w : ole.World)
      → (check_multiple_use ole specs regcls (start ole w)).has_multiple_use
        ≡ (has regcls regcls_multipleuse || any_multiple_use ole specs)
  unfolding check_multiple_use start
  check_multiple_use-has specs regcls w = ground arith

  after_registration-has :
      (suspended : Bool) (hr : ℕ) (r : Runtime ole)
      → (after_registration ole suspended hr r).has_multiple_use ≡ r.has_multiple_use
  unfolding after_registration exit_application_later
  after_registration-has suspended hr r = ground arith

  -- A standalone host stays unused if `--multiple-use` or any of its classes asks for it.
  pub run_as_standalone-has :
      (specs : List ClassSpec) (regcls : ℕ) (w : ole.World)
      → (run_as_standalone ole specs regcls w).has_multiple_use
        ≡ (has regcls regcls_multipleuse || any_multiple_use ole specs)
  run_as_standalone-has specs regcls w =
      rw (run_as_standalone_lem ole specs regcls w)
        (after_registration-has _ _ _ ∙ check_multiple_use-has specs regcls w)

module _ (ole : Com) (laws : Laws ole) where
  open laws use {count, count-resume}

  after_registration-count :
      (suspended : Bool) (hr : ℕ) (r : Runtime ole)
      → count (after_registration ole suspended hr r).world ≡ count r.world
  unfolding after_registration exit_application_later
  after_registration-count suspended hr r = ground (arith, count-resume r.world)

  -- The start of a standalone host leaves the references of the process as they are.
  pub run_as_standalone-count :
      (specs : List ClassSpec) (regcls : ℕ) (w : ole.World)
      → count (run_as_standalone ole specs regcls w).world ≡ count w
  run_as_standalone-count specs regcls w =
      let sus = ole.suspend_class_objects w in
      rw (run_as_standalone_lem ole specs regcls w) (
        after_registration-count _ _ _
        ∙ register_all_class_factories-count ole laws specs (succeeded sus.1) regcls ([], sus.0)
        ∙ laws.count-suspend w)
