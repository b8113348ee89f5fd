-- ===== src/Serving/Methods.antt =====
-- What clients may call of the containers of a standalone host.
use axhost.Common.{
  ℕ, zero, suc, Bool, true, false, ◌||◌, ◌≡◌, refl, sym, subst, ap, ◌∙◌, List, [], ◌∷◌, Option,
  none, some, get_elem?, All, arith, Bool-cases, inl, inr,
}
use axhost.Common.Assoc.{is_some}
use axhost.ClassSpec.{Uuid}
use axhost.Com.{Com, Laws, Pointer}
use axhost.Runtime.{Runtime, standalone}
use axhost.Container.{
  Iid, Widget, Container, Parts, answers, add_ref, release, query_interface, parts_if,
}
use axhost.Container.Creating.{
  create_instance-answers, create_instance_unavailable, create_instance-query_interface,
}
use axhost.Container.Methods.{ClassInfo, with_part, underlying, get_class_info, get_guid}
use axhost.TypeInfo.{TypeSource}
use axhost.TypeInfo.Ending.{Ends, get_class_info-Returns, get_guid-Returns}
use axhost.Serving.{
  Server, create, drop, keep, ask, lock, time_out, set, Step, creates, drops, keeps, asks, locks,
  unlocks, times_out, Reach, here, next,
}
use axhost.Serving.Refinement.{IsFresh}

-- The container was deleted, or it has its parts.
abbrev pub IsReady : Container → Type 0
IsReady c = (c.deleted || is_some c.parts) ≡ true

set-IsReady :
    (cs : List Container) (i : ℕ) (d : Container)
    → All IsReady cs
    → IsReady d
    → All IsReady (set cs i d)
set-IsReady [] i d h k = tt
set-IsReady (x ∷ cs) zero d h k = (k, h.1)
set-IsReady (x ∷ cs) (suc i) d h k = (h.0, set-IsReady cs i d h.1 k)

get_elem?-IsReady :
    (cs : List Container) (i : ℕ) (c : Container)
    → get_elem? cs i ≡ some c
    → All IsReady cs
    → IsReady c
get_elem?-IsReady [] i c e h = cc
get_elem?-IsReady (x ∷ cs) zero c e h = ground (arith, e)
get_elem?-IsReady (x ∷ cs) (suc i) c e h = get_elem?-IsReady cs i c e h.1

add_ref-IsReady : (c : Container) → IsReady c → IsReady (add_ref c)
unfolding add_ref
add_ref-IsReady c h = h

some-parts : (o : Option Parts) → is_some o ≡ true → (p : Parts) × (o ≡ some p)
some-parts none h = cc
some-parts (some p) h = (p, refl)

with_part-some :
    {A : Type 0} (o : Option Parts) (call : Parts → A) (p : Parts)
    → o ≡ some p
    → with_part o call ≡ some (call p)
unfolding with_part
with_part-some o call p h = ap (λ x. with_part x call) h

module _ (ole : Com) (widget : Widget) where
  release-IsReady :
      (c : Container) (rt : Option (Runtime ole))
      → IsReady c
      → IsReady (release ole standalone widget c rt).0
  unfolding release
  release-IsReady c rt h = ground (arith, h)

  query_interface-IsReady :
      (riid : Iid) (c : Container) (w : widget.World)
      → IsReady c
      → IsReady (query_interface ole standalone widget true riid c w).2
  unfolding query_interface add_ref
  query_interface-IsReady riid c w h = ground (arith, h)

  create-IsReady :
      (s : Server ole widget) (riid : Iid) (clsid : Uuid) (clsctx : ℕ)
      → All IsReady s.containers
      → All IsReady (create ole widget riid clsid clsctx s).containers
  unfolding create parts_if
  create-IsReady s riid clsid clsctx h =
      let rt : Option (Runtime ole) = some s.runtime in
      elim (Bool-cases (widget.set_control clsid clsctx s.control).1) [
        | inr f ↦
            rw (create_instance_unavailable ole standalone widget riid clsid clsctx rt s.control f)
              (refl, h)
        | inl t ↦ elim (Bool-cases (answers riid)) [
          | inl own ↦
              rw
                (create_instance-answers ole standalone widget riid clsid clsctx rt s.control own t)
                (refl, h)
          | inr other ↦
              rw
                (create_instance-query_interface ole standalone widget riid clsid clsctx rt
                  s.control other t)
                (refl, h)
        ]
      ]

  Step-IsReady :
      {s t : Server ole widget}
      → Step ole widget s t
      → All IsReady s.containers
      → All IsReady t.containers
  unfolding drop keep ask lock time_out
  Step-IsReady (creates s riid clsid clsctx) h = create-IsReady s riid clsid clsctx h
  Step-IsReady (drops s i c e d) h =
      set-IsReady s.containers i _ h
        (release-IsReady c (some s.runtime) (get_elem?-IsReady s.containers i c e h))
  Step-IsReady (keeps s i c e d n) h =
      set-IsReady s.containers i _ h (add_ref-IsReady c (get_elem?-IsReady s.containers i c e h))
  Step-IsReady (asks s i riid c e d n) h =
      set-IsReady s.containers i _ h
        (query_interface-IsReady riid c s.control (get_elem?-IsReady s.containers i c e h))
  Step-IsReady (locks s) h = h
  Step-IsReady (unlocks s n) h = h
  Step-IsReady (times_out s) h = h

  Reach-IsReady :
      {s t : Server ole widget}
      → s.containers ≡ []
      → Reach ole widget s t
      → All IsReady t.containers
  Reach-IsReady {s} h here = subst (All IsReady) (sym h) tt
  Reach-IsReady h (next r st) = Step-IsReady st (Reach-IsReady h r)

module _ (ole : Com) (laws : Laws ole) (widget : Widget) (source : TypeSource) (ends : Ends source)
    (control : ClassInfo) where
  -- In every state that a fresh standalone host reaches, a container that was not deleted has its
  -- parts: its GetClassInfo and GetGUID meet no null pointer, and both return, whatever the
  -- control answers, if the subkeys of a type library and the types of a type information end
  -- before 2^32.
  pub Reach-answers :
      {s t : Server ole widget} (i : ℕ) (c : Container) (wanted : Bool) (kind : ℕ)
      → IsFresh ole laws widget s
      → Reach ole widget s t
      → get_elem? t.containers i ≡ some c
      → c.deleted ≡ false
      → ((answer : ℕ × Pointer) × (get_class_info source control wanted c ≡ some (some answer)))
        × ((answer : ℕ × ℕ) × (get_guid source control wanted kind c ≡ some (some answer)))
  unfolding get_class_info get_guid
  Reach-answers {s} {t} i c wanted kind fresh r e d =
      let ready = get_elem?-IsReady t.containers i c e (Reach-IsReady ole widget fresh.0 r) in
      let (p, has) = some-parts c.parts (ground (arith, ready, d)) in
      let info = underlying p.class_info (control.get_class_info p.class_info) in
      let guid = underlying p.class_info2 (control.get_guid p.class_info2 kind) in
      let one = get_class_info-Returns source ends info wanted c.class_id in
      let two = get_guid-Returns source ends info guid wanted c.class_id kind in
      (
        (one.0, with_part-some c.parts _ p has ∙ ap some one.1),
        (two.0, with_part-some c.parts _ p has ∙ ap some two.1),
      )
