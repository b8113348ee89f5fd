-- ===== src/Serving/Exit.antt =====
-- When a standalone host exits.
use axhost.Common.{
  ℕ, ◌+◌, ◌<◌, ◌≡◌, true, false, refl, sym, subst, ◌∙◌, ◌⊎◌, inl, inr, Option, some, arith,
  Bool-cases,
}
use axhost.ClassSpec.{Uuid}
use axhost.Com.{Com, Laws}
use axhost.Runtime.{Runtime, standalone, acquired, released, step}
use axhost.Container.{answers, Iid, Widget, add_server_reference_if, release_server_reference_if}
use axhost.Container.Creating.{
  create_instance-answers, create_instance_unavailable, create_instance-query_interface,
}
use axhost.Serving.{creates, Server, create, Step, Reach, here, next}
use axhost.Serving.Views.{
  View, Move, comes, goes, passes, ends, runtime_view, acquired-view, released-view,
}
use axhost.Serving.Uses.{live, Inv}
use axhost.Serving.Refinement.{Step-Move, IsFresh, Step-Moves, Reach-Inv, server_view_lem}

-- The exit is queued, or there are users.
abbrev pub IsBusy : View → Type 0
IsBusy v = (v.exiting ≡ true) ⊎ (0 < v.users)

Move-IsBusy :
    {v w : View}
    → Move v w
    → v.stays_unused ≡ false
    → IsBusy v
    → (w.stays_unused ≡ false) × IsBusy w
Move-IsBusy (comes v) h b = (h, inr (omega arith))
Move-IsBusy (goes v w n e s) h b = (s ∙ h, ground (arith, n, e, h))
Move-IsBusy (passes v) h b = (h, b)
Move-IsBusy (ends v n) h b = (h, inl refl)

Move-stays : {v w : View} → Move v w → w.stays_unused ≡ v.stays_unused
Move-stays (comes v) = refl
Move-stays (goes v w n e s) = s
Move-stays (passes v) = refl
Move-stays (ends v n) = refl

Move-exits : {v w : View} → Move v w → v.exiting ≡ false → w.exiting ≡ true → w.users ≡ 0
Move-exits (comes v) a b = cc
Move-exits (goes v w n e s) a b = ground (arith, e)
Move-exits (passes v) a b = cc
Move-exits (ends v n) a b = n

module _ (ole : Com) (laws : Laws ole) (widget : Widget) where
  acquired-IsBusy :
      (r : Runtime ole) → IsBusy (runtime_view ole laws (step ole standalone acquired r))
  acquired-IsBusy r = subst IsBusy (sym (acquired-view ole laws r)) (inr (omega arith))

  twice-IsBusy :
      (r : Runtime ole)
      → r.has_multiple_use ≡ false
      → IsBusy
          (runtime_view ole laws (step ole standalone released (step ole standalone acquired r)))
  twice-IsBusy r h =
      let r1 = step ole standalone acquired r in
      ground (arith, acquired-view ole laws r, released-view ole laws r1)

  create-IsBusy :
      (s : Server ole widget) (riid : Iid) (clsid : Uuid) (clsctx : ℕ)
      → s.runtime.has_multiple_use ≡ false
      → IsBusy (runtime_view ole laws (create ole widget riid clsid clsctx s).runtime)
  unfolding create add_server_reference_if release_server_reference_if
  create-IsBusy s riid clsid clsctx h =
      let r : Runtime ole = s.runtime in
      let rt : Option (Runtime ole) = some r in
      elim (Bool-cases (widget.set_control clsid clsctx s.control).1) [
        | inr f ↦
            rw (create_instance_unavailable ole standalone widget riid clsid clsctx rt s.control f)
              (twice-IsBusy r h)
        | inl t ↦ elim (Bool-cases (answers riid)) [
          | inl own ↦
              rw
                (create_instance-answers ole standalone widget riid clsid clsctx rt s.control own t)
                (acquired-IsBusy r)
          | inr other ↦
              rw
                (create_instance-query_interface ole standalone widget riid clsid clsctx rt
                  s.control other t)
                (twice-IsBusy r h)
        ]
      ]

  Reach-stays :
      {s t : Server ole widget}
      → IsFresh ole laws widget s
      → Reach ole widget s t
      → t.runtime.has_multiple_use ≡ s.runtime.has_multiple_use
  Reach-stays h here = refl
  Reach-stays h (next r st) =
      Move-stays (Step-Moves ole laws widget st (Reach-Inv ole laws widget h r)).1 ∙ Reach-stays h r

  Reach-IsBusy :
      {s t : Server ole widget}
      → Inv ole laws widget s
      → s.runtime.has_multiple_use ≡ false
      → IsBusy (runtime_view ole laws s.runtime)
      → Reach ole widget s t
      → Inv ole laws widget t
        × (t.runtime.has_multiple_use ≡ false)
        × IsBusy (runtime_view ole laws t.runtime)
  Reach-IsBusy v m b here = (v, m, b)
  Reach-IsBusy v m b (next r st) =
      let before = Reach-IsBusy v m b r in
      let moves = Step-Moves ole laws widget st before.0 in
      let after = Move-IsBusy moves.1 before.1 before.2 in (moves.0, after.0, after.1)

  -- A standalone host for single use, once CreateInstance was called, successfully or not, is
  -- used or about to exit in every later state, whatever its clients do.
  pub IsBusy-create :
      {s t u : Server ole widget} (riid : Iid) (clsid : Uuid) (clsctx : ℕ)
      → IsFresh ole laws widget s
      → s.runtime.has_multiple_use ≡ false
      → Reach ole widget s t
      → Reach ole widget (create ole widget riid clsid clsctx t) u
      → (u.runtime.exiting ≡ true) ⊎ (0 < live u.containers + u.locks)
  IsBusy-create {t} {u} riid clsid clsctx h m r r' =
      let same = Reach-stays h r ∙ m in
      let r1 = next r (creates t riid clsid clsctx) in
      let v = Reach-Inv ole laws widget h r1 in
      let at_end =
        Reach-IsBusy v (Reach-stays h r1 ∙ m) (create-IsBusy t riid clsid clsctx same) r' in
      subst IsBusy (sym (server_view_lem ole laws widget u at_end.0)) at_end.2

  -- The exit of a standalone host is queued by a step only if no container lives and no lock is
  -- held after it.
  pub Step-exits :
      {s t u : Server ole widget}
      → IsFresh ole laws widget s
      → Reach ole widget s t
      → Step ole widget t u
      → t.runtime.exiting ≡ false
      → u.runtime.exiting ≡ true
      → (live u.containers ≡ 0) × (u.locks ≡ 0)
  Step-exits h r st a b =
      let none_left = Move-exits (Step-Move ole laws widget h r st) a b in
      (omega (arith, none_left), omega (arith, none_left))
