-- ===== src/Surrogate/Revoking.antt =====
-- Revoking keeps the cookies and COM in step.
use axhost.Common.{
  ℕ, Bool, true, false, ◌||◌, ◌==◌, ◌≡◌, refl, sym, if◌then◌else◌, List, [], ◌∷◌, arith, All,
  Bool-cases, inl, inr,
}
use native.Mathlib.Decide.{ℕ_discrete}
use axhost.Common.Hresult.{failed, succeeded, s_ok}
use axhost.Com.{Com, Laws}
use axhost.Surrogate.{contains, revoke_loop, revoke_all_class_factories}
use axhost.Surrogate.Cookies.{Distinct, Tracks, contains-cons}

-- None of the cookies is among those before.
abbrev Fresh : (ℕ → Bool) → List ℕ → Type 0
Fresh before = All (λ c. before c ≡ false)

insert-Fresh :
    (before : ℕ → Bool) (c : ℕ) (cookies : List ℕ)
    → contains c cookies ≡ false
    → Fresh before cookies
    → Fresh (λ k. k == c || before k) cookies
insert-Fresh before c [] h f = tt
insert-Fresh before c (d ∷ cookies) h f = (
  ground (arith, contains-cons c d cookies),
  insert-Fresh before c cookies (ground (arith, contains-cons c d cookies)) f.1,
)

module _ (ole : Com) where
  revoke_loop-contains :
      (cookies : List ℕ) (overall : ℕ) (w : ole.World) (k : ℕ)
      → contains k cookies ≡ false
      → contains k (revoke_loop ole cookies overall w).1 ≡ false
  unfolding revoke_loop
  revoke_loop-contains [] overall w k h = h
  revoke_loop-contains (c ∷ cookies) overall w k h =
      let out = ole.revoke_class_object c w in
      elim (Bool-cases (failed out.1)) [
        | inl bad ↦ rw bad (
            ground (
              arith,
              contains-cons k c cookies,
              contains-cons k c
                  (revoke_loop ole cookies (if succeeded overall then out.1 else overall) out.0).1,
              revoke_loop-contains cookies (if succeeded overall then out.1 else overall) out.0 k,
            ))
        | inr fine ↦ rw fine (
            revoke_loop-contains cookies overall out.0 k
              (ground (arith, contains-cons k c cookies)))
      ]

  revoke_loop-Distinct :
      (cookies : List ℕ) (overall : ℕ) (w : ole.World)
      → Distinct cookies
      → Distinct (revoke_loop ole cookies overall w).1
  unfolding revoke_loop
  revoke_loop-Distinct [] overall w d = tt
  revoke_loop-Distinct (c ∷ cookies) overall w d =
      let out = ole.revoke_class_object c w in
      elim (Bool-cases (failed out.1)) [
        | inl bad ↦
            rw bad
              (revoke_loop-contains cookies _ out.0 c d.0, revoke_loop-Distinct cookies _ out.0 d.1)
        | inr fine ↦ rw fine (revoke_loop-Distinct cookies _ out.0 d.1)
      ]

module _ (ole : Com) (laws : Laws ole) where
  open laws use {live, live-revoke}

  still_live :
      (c : ℕ) (cookies : List ℕ) (w : ole.World) (before : ℕ → Bool)
      → ((k : ℕ) → live w k ≡ (contains k (c ∷ cookies) || before k))
      → failed (ole.revoke_class_object c w).1 ≡ true
      → (j : ℕ)
      → live (ole.revoke_class_object c w).0 j ≡ (contains j cookies || (j == c || before j))
  still_live c cookies w before h bad j =
      ground (arith, live-revoke c w j, h j, contains-cons j c cookies)

  gone :
      (c : ℕ) (cookies : List ℕ) (w : ole.World) (before : ℕ → Bool)
      → contains c cookies ≡ false
      → before c ≡ false
      → ((k : ℕ) → live w k ≡ (contains k (c ∷ cookies) || before k))
      → failed (ole.revoke_class_object c w).1 ≡ false
      → (j : ℕ) → live (ole.revoke_class_object c w).0 j ≡ (contains j cookies || before j)
  gone c cookies w before new free h fine j = elim (ℕ_discrete j c) [
    | yes e ↦ rw e (ground (arith, live-revoke c w c))
    | no e ↦ ground (arith, live-revoke c w j, h j, contains-cons j c cookies)
  ]

  none_before : (cookies : List ℕ) → Fresh (λ j. false) cookies
  none_before [] = tt
  none_before (c ∷ cookies) = (refl, none_before cookies)

  -- What is live besides the cookies that the loop has still to walk.
  revoke_loop-live :
      (cookies : List ℕ) (overall : ℕ) (w : ole.World) (before : ℕ → Bool)
      → Distinct cookies
      → Fresh before cookies
      → ((k : ℕ) → live w k ≡ (contains k cookies || before k))
      → (k : ℕ)
      → live (revoke_loop ole cookies overall w).2 k
        ≡ (contains k (revoke_loop ole cookies overall w).1 || before k)
  unfolding revoke_loop
  revoke_loop-live [] overall w before d f h k = h k
  revoke_loop-live (c ∷ cookies) overall w before d f h k =
      let out = ole.revoke_class_object c w in
      let also : ℕ → Bool = λ j. j == c || before j in
      elim (Bool-cases (failed out.1)) [
        | inl bad ↦
            let overall' : ℕ = if succeeded overall then out.1 else overall in
            rw bad (
              ground (
                arith,
                revoke_loop-live cookies overall' out.0 also d.1
                    (insert-Fresh before c cookies d.0 f.1) (still_live c cookies w before h bad) k,
                contains-cons k c (revoke_loop ole cookies overall' out.0).1,
              ))
        | inr fine ↦ rw fine (
            revoke_loop-live cookies overall out.0 before d.1 f.1
              (gone c cookies w before d.0 f.0 h fine) k)
      ]

  -- Revoking all classes keeps the cookies and COM in step: what is left in the set is exactly
  -- what COM still holds.
  pub revoke_all_class_factories-Tracks :
      (cookies : List ℕ) (w : ole.World)
      → Tracks ole laws (cookies, w)
      → let out = revoke_all_class_factories ole cookies w in Tracks ole laws (out.1, out.2)
  unfolding revoke_all_class_factories
  revoke_all_class_factories-Tracks cookies w t = record {
    distinct = revoke_loop-Distinct ole cookies s_ok w t.distinct;
    same = λ k. ground (
      arith,
      revoke_loop-live cookies s_ok w (λ j. false) t.distinct (none_before cookies)
          (λ j. ground (arith, t.same j)) k,
    );
  }

  -- What COM holds, it revokes.
  abbrev pub Revokes : Type 0
  Revokes =
      (j : ℕ) (w : ole.World) → live w j ≡ true → failed (ole.revoke_class_object j w).1 ≡ false

  other_live :
      (c : ℕ) (cookies : List ℕ) (w : ole.World)
      → contains c cookies ≡ false
      → ((k : ℕ) → contains k (c ∷ cookies) ≡ true → live w k ≡ true)
      → (k : ℕ) → contains k cookies ≡ true
      → live (ole.revoke_class_object c w).0 k ≡ true
  other_live c cookies w new held k h =
      let all : contains k (c ∷ cookies) ≡ true = ground (arith, contains-cons k c cookies, h) in
      let was = held k all in
      elim (ℕ_discrete k c) [
        | yes e ↦ absurd (let twice : contains c cookies ≡ true = rw (sym e) h in cc)
        | no e ↦ ground (arith, live-revoke c w k, was)
      ]

  -- Then no cookie is left.
  pub revoke_loop-nil :
      (cookies : List ℕ) (overall : ℕ) (w : ole.World)
      → Revokes
      → Distinct cookies
      → ((k : ℕ) → contains k cookies ≡ true → live w k ≡ true)
      → (revoke_loop ole cookies overall w).1 ≡ []
  unfolding revoke_loop
  revoke_loop-nil [] overall w revokes d h = refl
  revoke_loop-nil (c ∷ cookies) overall w revokes d h =
      let here : contains c (c ∷ cookies) ≡ true = ground (arith, contains-cons c c cookies) in
      let fine = revokes c w (h c here) in
      rw fine (
        revoke_loop-nil cookies overall (ole.revoke_class_object c w).0 revokes d.1
          (other_live c cookies w d.0 h))
