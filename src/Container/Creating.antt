-- ===== src/Container/Creating.antt =====
-- What CreateInstance leaves behind.
use axhost.Common.{
  add_zero, ℕ, true, false, ◌&&◌, ◌==◌, ◌≡◌, refl, ap, sym, subst, ◌∙◌, inl, inr, Bool-cases, ◌+◌,
  ◌-◌, if◌then◌else◌, Option, none, some, arith,
}
use axhost.Common.Hresult.{s_ok, class_e_classnotavailable}
use axhost.ClassSpec.{Uuid}
use axhost.Com.{Com, Laws}
use axhost.Runtime.{
  exit_application_later, check_for_exit_later, add_server_reference, release_server_reference,
  Runtime, Mode, standalone, step,
}
use axhost.Container.{
  Parts, parts_if, Created, Iid, null, own, of_control, Widget, Container, answers, add_ref,
  construct, release, query_interface, create_instance, add_server_reference_if,
  release_server_reference_if,
}

module _ (ole : Com) (mode : Mode) (widget : Widget) (riid : Iid) (clsid : Uuid) (clsctx : ℕ) where
  abbrev pub made : Option (Runtime ole) → widget.World → Created ole mode widget
  made rt w = create_instance ole mode widget false true riid clsid clsctx rt w

  -- The parts of a container whose control loads, and the widget after them.
  abbrev pub loaded : widget.World → Option Parts × widget.World
  loaded w = parts_if ole mode widget true (widget.set_control clsid clsctx w).0

  -- CreateInstance for an interface that the container answers itself, with a control that loads:
  -- the client holds the one reference of a container that lives, and the runtime has gained
  -- the one reference of that container.
  pub create_instance-answers :
      (rt : Option (Runtime ole)) (w : widget.World)
      → answers riid ≡ true
      → (widget.set_control clsid clsctx w).1 ≡ true
      → made rt w ≡ (
        s_ok,
        own,
        some (record {
          class_id = clsid;
          class_context = clsctx;
          ref = 1;
          initialized = true;
          parts = (loaded w).0;
          deleted = false;
        }),
        add_server_reference_if ole mode widget rt,
        (loaded w).1,
      )
  unfolding create_instance construct add_ref release query_interface
  create_instance-answers rt w h t = rw t rw h refl

  -- CreateInstance of a control that does not load reports an unavailable class; the container is
  -- deleted, and the runtime has gained and lost its reference.
  pub create_instance_unavailable :
      (rt : Option (Runtime ole)) (w : widget.World)
      → (widget.set_control clsid clsctx w).1 ≡ false
      → made rt w ≡ (
        class_e_classnotavailable,
        null,
        some (record {
          class_id = clsid;
          class_context = clsctx;
          ref = 0;
          initialized = false;
          parts = none;
          deleted = true;
        }),
        release_server_reference_if ole mode widget (add_server_reference_if ole mode widget rt),
        (widget.set_control clsid clsctx w).0,
      )
  unfolding create_instance construct add_ref release parts_if
  create_instance_unavailable rt w f = rw f refl

  -- CreateInstance for an interface that the container does not answer itself, with a control
  -- that loads, gives the client what the control answers, while the container is deleted and the
  -- runtime has lost the reference that it gained: nothing counts the client's use of the control.
  pub create_instance-query_interface :
      (rt : Option (Runtime ole)) (w : widget.World)
      → answers riid ≡ false
      → (widget.set_control clsid clsctx w).1 ≡ true
      → let asked = widget.query_interface riid (loaded w).1 in
        made rt w ≡ (
          asked.1,
          (if asked.2 == 0 then null else of_control asked.2),
          some (record {
            class_id = clsid;
            class_context = clsctx;
            ref = 0;
            initialized = true;
            parts = (loaded w).0;
            deleted = true;
          }),
          release_server_reference_if ole mode widget (add_server_reference_if ole mode widget rt),
          asked.0,
        )
  unfolding create_instance construct add_ref release query_interface
  create_instance-query_interface rt w h t = rw t rw h refl

abbrev or_else : Container → Option Container → Container
or_else c none = c
or_else c (some d) = d

module _ (ole : Com) (laws : Laws ole) (widget : Widget) where
  -- The references of the process.
  abbrev pub references : Option (Runtime ole) → ℕ
  references none = 0
  references (some r) = laws.count r.world

  references-acquire :
      (r : Runtime ole)
      → references (add_server_reference_if ole standalone widget (some r))
        ≡ references (some r) + 1
  unfolding add_server_reference_if step add_server_reference
  references-acquire r = laws.count-add_ref r.world

  release-world :
      (r : Runtime ole)
      → (release_server_reference ole r).world ≡ (ole.release_server_process r.world).0
  unfolding release_server_reference exit_application_later check_for_exit_later
  release-world r = ground arith

  references-release :
      (rt : Option (Runtime ole))
      → references (release_server_reference_if ole standalone widget rt) ≡ references rt - 1
  unfolding release_server_reference_if step
  references-release none = refl
  references-release (some r) = ap laws.count (release-world r) ∙ laws.count-release r.world

  references-both :
      (r : Runtime ole)
      → references (
          release_server_reference_if ole standalone widget
            (add_server_reference_if ole standalone widget (some r)))
        ≡ references (some r) + 0
  references-both r =
      let rt = add_server_reference_if ole standalone widget (some r) in
      ground (arith, references-release rt, references-acquire r)

  -- With a standalone runtime, CreateInstance with an address for the result and no outer object
  -- adds one reference to the process if the control loads and the container answers the interface
  -- itself, and else none.
  pub references-create_instance :
      (riid : Iid) (clsid : Uuid) (clsctx : ℕ) (r : Runtime ole) (w : widget.World)
      → references (create_instance ole standalone widget false true riid clsid clsctx (some r) w).3
        ≡ references (some r)
          + (if (widget.set_control clsid clsctx w).1 && answers riid then 1 else 0)
  references-create_instance riid clsid clsctx r w =
      elim (Bool-cases (widget.set_control clsid clsctx w).1) [
        | inr f ↦
            rw (create_instance_unavailable ole standalone widget riid clsid clsctx (some r) w f) rw
              f (references-both r)
        | inl t ↦ elim (Bool-cases (answers riid)) [
          | inl h ↦
              rw (create_instance-answers ole standalone widget riid clsid clsctx (some r) w h t) rw
                t rw h (references-acquire r)
          | inr h ↦
              rw
                (create_instance-query_interface ole standalone widget riid clsid clsctx (some r) w
                  h t)
                rw t rw h (references-both r)
        ]
      ]

  -- The client's Release of the container that CreateInstance gave it deletes the container, and
  -- the process has the references that it had before.
  pub references-release-create_instance :
      (riid : Iid) (clsid : Uuid) (clsctx : ℕ) (r : Runtime ole) (w : widget.World) (c : Container)
      → answers riid ≡ true
      → (widget.set_control clsid clsctx w).1 ≡ true
      → let out = create_instance ole standalone widget false true riid clsid clsctx (some r) w in
        out.2 ≡ some c
        → let after = release ole standalone widget c out.3 in
          (after.0.deleted ≡ true) × (references after.1 ≡ references (some r))
  unfolding release
  references-release-create_instance riid clsid clsctx r w c h loaded given =
      let made =
        create_instance-answers ole standalone widget riid clsid clsctx (some r) w h loaded in
      let rt = add_server_reference_if ole standalone widget (some r) in
      let same = ap (or_else c) (sym (ap (λ o. o.2) made) ∙ given) in
      rw made (
        subst
          (λ x.
            let after = release ole standalone widget x rt in
            (after.0.deleted ≡ true) × (references after.1 ≡ references (some r)))
          same (refl, references-both r ∙ add_zero (references (some r))))
