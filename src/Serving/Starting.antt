-- ===== src/Serving/Starting.antt =====
-- A standalone host from main of src/main.cc on: what it was started with decides how it ends.
use axhost.Common.{
  ◌≢◌, ℕ, Text, Bool, true, false, ◌||◌, ◌<◌, ◌+◌, ◌≡◌, ◌⊎◌, refl, ap, ◌∙◌, [], Option, some, arith,
}
use axhost.Common.Flags.{has, regcls_multipleuse}
use axhost.ClassSpec.{Uuid}
use axhost.Com.{Com, Laws}
use axhost.Registry.{Registry}
use axhost.Runtime.{Runtime, any_multiple_use, run_as_standalone}
use axhost.Runtime.Opening.{run_as_standalone-has, run_as_standalone-count}
use axhost.Container.{Iid, Widget}
use axhost.Startup.{ParsedResult, serves, dispatch, register_entries, unregister_entries}
use axhost.Serving.{Server, create, Reach}
use axhost.Serving.Uses.{live}
use axhost.Serving.Exit.{IsBusy-create}

-- The host that a runtime begins with.
abbrev pub opened : (ole : Com) (widget : Widget) → Runtime ole → widget.World → Server ole widget
opened ole widget r v = record { runtime = r; control = v; containers = []; locks = 0 }

module _ (rg : Registry) (ole : Com) where
  register_entries-serves :
      (admin : Bool) (exe : Text) (p : ParsedResult) (s : rg.Reg) (r : Option (Runtime ole))
      → register_entries rg ole admin exe p s ≢ serves r
  unfolding register_entries
  register_entries-serves admin exe p s r = ground arith

  -- Where main serves without `-Embedding`, the runtime is that of RunAsStandalone.
  pub dispatch-standalone :
      (admin : Bool) (exe : Text) (p : ParsedResult) (s : rg.Reg) (w : ole.World) (r : Runtime ole)
      → p.embedding ≡ false
      → dispatch rg ole admin exe p s w ≡ serves (some r)
      → r ≡ run_as_standalone ole p.specs p.regcls w
  unfolding dispatch unregister_entries
  dispatch-standalone admin exe p s w r e h =
      ground (arith, e, h, register_entries-serves admin exe p s (some r))

module _ (rg : Registry) (ole : Com) (laws : Laws ole) (widget : Widget) where
  -- From main on: where its dispatch serves without `-Embedding`, in a process without
  -- references, and neither the command line nor any of its classes asks for multiple use, then
  -- once CreateInstance was called, with an address for the result and no outer object,
  -- successfully or not, the process is used or about to exit in every later state.
  pub IsBusy-dispatch :
      (admin : Bool) (exe : Text) (p : ParsedResult) (s : rg.Reg) (w : ole.World) (r : Runtime ole)
      (v : widget.World) (riid : Iid) (clsid : Uuid) (clsctx : ℕ) {t u : Server ole widget}
      → dispatch rg ole admin exe p s w ≡ serves (some r)
      → p.embedding ≡ false
      → laws.count w ≡ 0
      → (has p.regcls regcls_multipleuse || any_multiple_use ole p.specs) ≡ false
      → Reach ole widget (opened ole widget r v) t
      → Reach ole widget (create ole widget riid clsid clsctx t) u
      → (u.runtime.exiting ≡ true) ⊎ (0 < live u.containers + u.locks)
  IsBusy-dispatch admin exe p s w r v riid clsid clsctx served e n single before after =
      let made = dispatch-standalone rg ole admin exe p s w r e served in
      let count =
        ap (λ x. laws.count x.world) made
        ∙ run_as_standalone-count ole laws p.specs p.regcls w
        ∙ n in
      let unused =
        ap (λ x. x.has_multiple_use) made ∙ run_as_standalone-has ole p.specs p.regcls w ∙ single in
      IsBusy-create ole laws widget riid clsid clsctx (refl, refl, count) unused before after
