-- ===== src/Surrogate/Cookies.antt =====
-- The set of cookies is exactly what is registered with COM.
use axhost.Common.{
  ℕ, Bool, true, false, ◌||◌, ◌==◌, ◌≡◌, refl, if◌then◌else◌, List, [], ◌∷◌, arith, Bool-cases, inl,
  inr, ◌∙◌,
}
use axhost.Common.Hresult.{failed, s_ok}
use axhost.ClassSpec.{ClassSpec, Uuid, sanitize}
use axhost.Com.{Com, Laws, Pointer, original}
use axhost.Surrogate.{
  contains, insert, new_factory, original_factory, register_original, load_dll_server_ex,
  register_spec, register_loop, register_all_class_factories,
}

-- No cookie twice.
abbrev pub Distinct : List ℕ → Type 0
Distinct [] = Unit {0}
Distinct (c ∷ cookies) = (contains c cookies ≡ false) × Distinct cookies

pub contains-nil : (k : ℕ) → contains k [] ≡ false
unfolding contains
contains-nil k = refl

pub contains-cons :
    (k c : ℕ) (cookies : List ℕ) → contains k (c ∷ cookies) ≡ (k == c || contains k cookies)
unfolding contains
contains-cons k c cookies = refl

contains-insert :
    (k c : ℕ) (cookies : List ℕ)
    → contains k (insert c cookies) ≡ (if k == c then true else contains k cookies)
unfolding insert
contains-insert k c cookies = ground (arith, contains-cons k c cookies)

insert-Distinct : (c : ℕ) (cookies : List ℕ) → Distinct cookies → Distinct (insert c cookies)
unfolding insert
insert-Distinct c cookies d = ground arith

module _ (ole : Com) (laws : Laws ole) where
  open laws use {live, live-get_class_object, live-register, live-revoke}

  -- The cookies are distinct, and are those of the class objects that COM holds.
  pub record Tracks (state : List ℕ × ole.World) : Type 0 where
    pub distinct : Distinct state.0
    pub same : (k : ℕ) → live state.1 k ≡ contains k state.0

  new_factory-live :
      (id : Uuid) (context : ℕ) (w : ole.World) (k : ℕ)
      → live (new_factory ole id context w).0 k ≡ live w k
  unfolding new_factory
  new_factory-live id context w k = ground (arith, live-get_class_object id context w k)

  original_factory-live :
      (id : Uuid) (a b c : ℕ) (w : ole.World) (k : ℕ)
      → live (original_factory ole id a b c w).0 k ≡ live w k
  unfolding original_factory
  original_factory-live id a b c w k = ground (arith, live-get_class_object id a w k)

  -- A registration that succeeds adds its cookie, on both sides.
  insert-Tracks :
      (cookies : List ℕ) (w w' : ole.World) (c : ℕ)
      → Tracks (cookies, w)
      → ((k : ℕ) → live w' k ≡ (if k == c then true else live w k))
      → Tracks (insert c cookies, w')
  insert-Tracks cookies w w' c t grows = record {
    distinct = insert-Distinct c cookies t.distinct;
    same = λ k. ground (arith, grows k, t.same k, contains-insert k c cookies);
  }

  -- A step that registers nothing.
  pub stay-Tracks :
      (cookies : List ℕ) (w w' : ole.World)
      → Tracks (cookies, w)
      → ((k : ℕ) → live w' k ≡ live w k)
      → Tracks (cookies, w')
  stay-Tracks cookies w w' t stays = record {
    distinct = t.distinct;
    same = λ k. stays k ∙ t.same k;
  }

  register_original-Tracks :
      (id : Uuid) (context : ℕ) (found : Pointer) (cookies : List ℕ) (w : ole.World)
      → Tracks (cookies, w)
      → Tracks (register_original ole id context found (cookies, w))
  unfolding register_original
  register_original-Tracks id context found cookies w t =
      let out = ole.register_class_object id (original found) context 3 w in
      let law = live-register id (original found) context 3 w in
      elim (Bool-cases (found == 0)) [
        | inl absent ↦ rw absent t
        | inr present ↦ elim (Bool-cases (failed out.1)) [
          | inl bad ↦ rw (present, bad) (stay-Tracks cookies w out.0 t (λ k. rw bad at (law k)))
          | inr fine ↦
              rw (present, fine) (insert-Tracks cookies w out.0 out.2 t (λ k. rw fine at (law k)))
        ]
      ]

  -- Loading a class keeps the cookies and COM in step, whether or not it succeeds.
  pub load_dll_server_ex-Tracks :
      (id alias : Uuid) (create register regcls : ℕ) (cookies : List ℕ) (w : ole.World)
      → Tracks (cookies, w)
      → let out = load_dll_server_ex ole id alias create register regcls (cookies, w) in
        Tracks (out.1, out.2)
  unfolding load_dll_server_ex
  load_dll_server_ex-Tracks id alias create register regcls cookies w t =
      let org = original_factory ole id create register regcls w in
      let fac = new_factory ole id create org.0 in
      let out = ole.register_class_object alias fac.1 register regcls fac.0 in
      let law = live-register alias fac.1 register regcls fac.0 in
      let before = stay-Tracks cookies w fac.0 t (λ k.
        new_factory-live id create org.0 k ∙ original_factory-live id create register regcls w k) in
      elim (Bool-cases (failed out.1)) [
        | inl bad ↦ rw bad (stay-Tracks cookies fac.0 out.0 before (λ k. rw bad at (law k)))
        | inr fine ↦ rw fine (
            register_original-Tracks id create org.2 (insert out.2 cookies) out.0
              (insert-Tracks cookies fac.0 out.0 out.2 before (λ k. rw fine at (law k))))
      ]

  register_spec-Tracks :
      (regcls : ℕ) (g : ClassSpec) (cookies : List ℕ) (w : ole.World)
      → Tracks (cookies, w)
      → let out = register_spec ole regcls g (cookies, w) in Tracks (out.1, out.2)
  unfolding register_spec
  register_spec-Tracks regcls g cookies w t =
      let s = sanitize regcls g in
      let after =
        load_dll_server_ex-Tracks s.clsid s.alias s.clsctx_create s.clsctx_register s.regcls cookies
          w t in
      elim (Bool-cases (
        failed
          (load_dll_server_ex ole s.clsid s.alias s.clsctx_create s.clsctx_register s.regcls
            (cookies, w)).0)) [ inl bad ↦ rw bad after | inr fine ↦ rw fine after ]

  register_loop-Tracks :
      (regcls : ℕ) (specs : List ClassSpec) (overall : ℕ) (cookies : List ℕ) (w : ole.World)
      → Tracks (cookies, w)
      → let out = register_loop ole regcls specs overall (cookies, w) in Tracks (out.2, out.3)
  unfolding register_loop
  register_loop-Tracks regcls [] overall cookies w t = t
  register_loop-Tracks regcls (g ∷ specs) overall cookies w t =
      register_loop-Tracks regcls specs _ _ _ (register_spec-Tracks regcls g cookies w t)

  -- Registering all classes keeps the cookies and COM in step.
  pub register_all_class_factories-Tracks :
      (specs : List ClassSpec) (suspend : Bool) (regcls : ℕ) (cookies : List ℕ) (w : ole.World)
      → Tracks (cookies, w)
      → let out = register_all_class_factories ole specs suspend regcls (cookies, w) in
        Tracks (out.2, out.3)
  unfolding register_all_class_factories
  register_all_class_factories-Tracks specs suspend regcls cookies w t =
      register_loop-Tracks _ specs s_ok cookies w t
