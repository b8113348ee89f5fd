-- ===== src/Serving/Ending.antt =====
-- A standalone host from its start over its clients to its destructor: what it leaves registered.
use axhost.Common.{
  if◌then◌else◌, ℕ, Text, Bool, true, false, ◌==◌, ◌+◌, ◌-◌, ◌%◌, ◌^◌, ◌≡◌, ap, sym, subst, ◌∙◌,
  Option, some, arith, Bool-cases, inl, inr,
}
use axhost.ClassSpec.{Uuid}
use axhost.Com.{Com, Laws}
use axhost.Registry.{Registry}
use axhost.Surrogate.Cookies.{Tracks, stay-Tracks, contains-nil}
use axhost.Surrogate.{contains}
use axhost.Surrogate.Revoking.{Revokes}
use axhost.Runtime.{
  Runtime, Event, standalone, acquired, released, timed_out, step, end_standalone,
  add_server_reference, release_server_reference, check_for_exit, warn_idle, exit_application_later,
  check_for_exit_later,
}
use axhost.Runtime.Standalone.{run_as_standalone-Tracks, end_standalone-Tracks, end_standalone-nil}
use axhost.Container.{
  answers, Iid, Widget, Container, release, lock_server, add_server_reference_if,
  release_server_reference_if,
}
use axhost.Container.Creating.{
  create_instance-answers, create_instance_unavailable, create_instance-query_interface,
}
use axhost.Startup.{ParsedResult, serves, dispatch}
use axhost.Serving.{
  or_none, Server, create, drop, keep, ask, lock, time_out, Step, creates, drops, keeps, asks,
  locks, unlocks, times_out, Reach, here, next,
}
use axhost.Serving.Starting.{opened, dispatch-standalone}

-- What every event keeps of a runtime, every step of the host keeps.
module _ (ole : Com) (widget : Widget) (P : Runtime ole → Type 0)
    (keeps_P : (e : Event) (r : Runtime ole) → P r → P (step ole standalone e r)) where
  release-keeps :
      (c : Container) (r : Runtime ole)
      → P r
      → P (or_none (release ole standalone widget c (some r)).1 r)
  unfolding release release_server_reference_if
  release-keeps c r p = elim (Bool-cases ((c.ref + (2 ^ 32 - 1)) % 2 ^ 32 == 0)) [
    | inl last ↦ rw last (keeps_P released r p)
    | inr more ↦ rw more p
  ]

  create-keeps :
      (s : Server ole widget) (riid : Iid) (clsid : Uuid) (clsctx : ℕ)
      → P s.runtime
      → P (create ole widget riid clsid clsctx s).runtime
  unfolding create add_server_reference_if release_server_reference_if
  create-keeps s riid clsid clsctx p =
      let rt : Option (Runtime ole) = some s.runtime in
      let used = keeps_P acquired s.runtime p in
      let away = keeps_P released (step ole standalone acquired s.runtime) used in
      elim (Bool-cases (widget.set_control clsid clsctx s.control).1) [
        | inr f ↦
            rw (create_instance_unavailable ole standalone widget riid clsid clsctx rt s.control f)
              away
        | inl t ↦ elim (Bool-cases (answers riid)) [
          | inl own ↦
              rw
                (create_instance-answers ole standalone widget riid clsid clsctx rt s.control own t)
                used
          | inr other ↦
              rw
                (create_instance-query_interface ole standalone widget riid clsid clsctx rt
                  s.control other t)
                away
        ]
      ]

  lock-keeps :
      (s : Server ole widget) (locked : Bool) → P s.runtime → P (lock ole widget locked s).runtime
  unfolding lock lock_server add_server_reference_if release_server_reference_if
  lock-keeps s true p = keeps_P acquired s.runtime p
  lock-keeps s false p = keeps_P released s.runtime p

  Step-keeps : {s t : Server ole widget} → Step ole widget s t → P s.runtime → P t.runtime
  unfolding drop keep ask time_out
  Step-keeps (creates s riid clsid clsctx) p = create-keeps s riid clsid clsctx p
  Step-keeps (drops s i c e d) p = release-keeps c s.runtime p
  Step-keeps (keeps s i c e d h) p = p
  Step-keeps (asks s i riid c e d h) p = p
  Step-keeps (locks s) p = lock-keeps s true p
  Step-keeps (unlocks s h) p = lock-keeps s false p
  Step-keeps (times_out s) p = keeps_P timed_out s.runtime p

  pub Reach-keeps : {s t : Server ole widget} → Reach ole widget s t → P s.runtime → P t.runtime
  Reach-keeps here p = p
  Reach-keeps (next reach st) p = Step-keeps st (Reach-keeps reach p)

module _ (ole : Com) (laws : Laws ole) where
  Known : Runtime ole → Type 0
  Known r = Tracks ole laws (r.cookies, r.world)

  -- The references of the process leave the class objects alone.
  two-live :
      (w : ole.World) (k : ℕ)
      → laws.live (ole.release_server_process (ole.add_ref_server_process w).0).0 k ≡ laws.live w k
  two-live w k = laws.live-release _ k ∙ laws.live-add_ref w k

  released_same :
      (r : Runtime ole)
      → let r' = step ole standalone released r in
        (r'.cookies ≡ r.cookies) × (r'.world ≡ (ole.release_server_process r.world).0)
  unfolding step release_server_reference exit_application_later check_for_exit_later
  released_same r = ground arith

  timed_out_same :
      (r : Runtime ole)
      → let r' = step ole standalone timed_out r in
        (r'.cookies ≡ r.cookies)
        × (r'.world ≡ (
            if r.armed
            then (ole.release_server_process (ole.add_ref_server_process r.world).0).0
            else r.world))
  unfolding step check_for_exit warn_idle exit_application_later check_for_exit_later
  timed_out_same r = ground arith

  step-Known : (e : Event) (r : Runtime ole) → Known r → Known (step ole standalone e r)
  unfolding Known step add_server_reference
  step-Known acquired r t = stay-Tracks ole laws r.cookies r.world _ t (laws.live-add_ref r.world)
  step-Known released r t =
      let same = released_same r in
      rw (same.0, same.1) (stay-Tracks ole laws r.cookies r.world _ t (laws.live-release r.world))
  step-Known timed_out r t =
      let same = timed_out_same r in
      rw (same.0, same.1)
        (elim (Bool-cases r.armed) [
          | inl armed ↦ rw armed (stay-Tracks ole laws r.cookies r.world _ t (two-live r.world))
          | inr idle ↦ rw idle t
        ])

module _ (rg : Registry) (ole : Com) (laws : Laws ole) (widget : Widget) where
  reached-Tracks :
      (admin : Bool) (exe : Text) (p : ParsedResult) (s : rg.Reg) (w : ole.World) (r : Runtime ole)
      (v : widget.World) {t : Server ole widget}
      → dispatch rg ole admin exe p s w ≡ serves (some r)
      → p.embedding ≡ false
      → ((k : ℕ) → laws.live w k ≡ false)
      → Reach ole widget (opened ole widget r v) t
      → Tracks ole laws (t.runtime.cookies, t.runtime.world)
  unfolding Known
  reached-Tracks admin exe p s w r v {t} served e none reach =
      let made = dispatch-standalone rg ole admin exe p s w r e served in
      let begun : Known ole laws r =
        subst (Known ole laws) (sym made)
          (run_as_standalone-Tracks ole laws p.specs p.regcls w none) in
      Reach-keeps ole widget (Known ole laws) (step-Known ole laws) reach begun

  -- The whole life of a standalone host: where the dispatch of main serves without `-Embedding` in a
  -- process that has nothing registered, then after any history of clients and of the timer, and the
  -- destructor of the runtime, the cookies that the host still has are those that COM holds.
  pub ended-Tracks :
      (admin : Bool) (exe : Text) (p : ParsedResult) (s : rg.Reg) (w : ole.World) (r : Runtime ole)
      (v : widget.World) {t : Server ole widget}
      → dispatch rg ole admin exe p s w ≡ serves (some r)
      → p.embedding ≡ false
      → ((k : ℕ) → laws.live w k ≡ false)
      → Reach ole widget (opened ole widget r v) t
      → let r' = end_standalone ole t.runtime in Tracks ole laws (r'.cookies, r'.world)
  ended-Tracks admin exe p s w r v {t} served e none reach =
      end_standalone-Tracks ole laws t.runtime
        (reached-Tracks admin exe p s w r v served e none reach)

  -- And if COM revokes whatever it holds, it holds none.
  pub ended_none :
      (admin : Bool) (exe : Text) (p : ParsedResult) (s : rg.Reg) (w : ole.World) (r : Runtime ole)
      (v : widget.World) {t : Server ole widget}
      → dispatch rg ole admin exe p s w ≡ serves (some r)
      → p.embedding ≡ false
      → ((k : ℕ) → laws.live w k ≡ false)
      → Revokes ole laws
      → Reach ole widget (opened ole widget r v) t
      → (k : ℕ) → laws.live (end_standalone ole t.runtime).world k ≡ false
  ended_none admin exe p s w r v {t} served e none revokes reach k =
      let known = reached-Tracks admin exe p s w r v served e none reach in
      (end_standalone-Tracks ole laws t.runtime known).same k
      ∙ ap (contains k) (end_standalone-nil ole laws t.runtime revokes known)
      ∙ contains-nil k
