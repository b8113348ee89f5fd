-- ===== src/Com/Table.antt =====
-- A COM that keeps its class objects in a table: the laws can hold. The null class cannot be
-- registered, and a cookie that is not registered cannot be revoked.
use axhost.Common.{
  ℕ, ◌+◌, ◌-◌, Bool, true, false, ◌==◌, if◌then◌else◌, ◌≡◌, refl, Bool-cases, inl, inr,
}
use axhost.Common.Hresult.{failed, s_ok, e_fail}
use axhost.Com.{Com, Laws}
use axhost.ClassSpec.{Uuid}

pub record Objects : Type 0 where
  pub registered : ℕ → Bool
  pub next : ℕ
  pub references : ℕ

abbrev pub no_objects : Objects
no_objects = record { registered = λ k. false; next = 1; references = 0 }

abbrev pub register : Uuid → Objects → Objects × ℕ × ℕ
register id w = if id == 0 then (w, e_fail, 0) else (
  record w { registered = λ k. if k == w.next then true else w.registered k; next = w.next + 1 },
  s_ok,
  w.next,
)

abbrev pub revoke : ℕ → Objects → Objects × ℕ
revoke j w =
    if w.registered j
    then (record w { registered = λ k. if k == j then false else w.registered k }, s_ok)
    else (w, e_fail)

abbrev pub objects : Com
objects = record {
  World = Objects;
  get_class_object = λ id context w. (w, s_ok, 100);
  query_unknown = λ p w. (s_ok, p + 1);
  register_class_object = λ id f context flags w. register id w;
  revoke_class_object = revoke;
  suspend_class_objects = λ w. (w, s_ok);
  resume_class_objects = λ w. (w, s_ok);
  register_surrogate = λ w. (w, s_ok);
  add_ref_server_process = λ w. (record w { references = w.references + 1 }, w.references + 1);
  release_server_process = λ w. (record w { references = w.references - 1 }, w.references - 1);
  get_last_error = λ w. 5;
}

pub register_lem :
    (id : Uuid) (w : Objects) (k : ℕ)
    → (register id w).0.registered k ≡ (
        if failed (register id w).1
        then w.registered k
        else (if k == (register id w).2 then true else w.registered k))
register_lem id w k = elim (Bool-cases (id == 0)) [ inl e ↦ rw e | inr e ↦ rw e ]

pub register_references : (id : Uuid) (w : Objects) → (register id w).0.references ≡ w.references
register_references id w = elim (Bool-cases (id == 0)) [ inl e ↦ rw e refl | inr e ↦ rw e refl ]

pub revoke_lem :
    (j : ℕ) (w : Objects) (k : ℕ)
    → (revoke j w).0.registered k ≡ (
        if failed (revoke j w).1
        then w.registered k
        else (if k == j then false else w.registered k))
revoke_lem j w k = elim (Bool-cases (w.registered j)) [ inl e ↦ rw e | inr e ↦ rw e ]

abbrev pub object_laws : Laws objects
object_laws = record {
  live = λ w. w.registered;
  count = λ w. w.references;
  live-get_class_object = λ id context w k. refl;
  live-register = λ id f context flags w k. register_lem id w k;
  live-revoke = revoke_lem;
  live-suspend = λ w k. refl;
  live-resume = λ w k. refl;
  live-add_ref = λ w k. refl;
  live-release = λ w k. refl;
  count-get_class_object = λ id context w. refl;
  count-register = λ id f context flags w. register_references id w;
  count-suspend = λ w. refl;
  count-resume = λ w. refl;
  count-add_ref = λ w. refl;
  result-add_ref = λ w. refl;
  count-release = λ w. refl;
  result-release = λ w. refl;
}
