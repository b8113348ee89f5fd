-- ===== src/Serving/Uses.antt =====
-- Which containers live, and what calls of a container change.
use axhost.Common.{
  ◌%◌, ℕ, zero, suc, ◌+◌, ◌-◌, ◌<◌, ◌^◌, ◌≡◌, true, false, ◌==◌, if◌then◌else◌, refl, ap, ◌⊎◌, inl,
  inr, List, [], ◌∷◌, some, get_elem?, All, arith, Bool-cases,
}
use axhost.Com.{Com, Laws}
use axhost.Runtime.{Runtime, standalone, acquired, released, step}
use axhost.Container.{
  answers, Iid, Widget, Container, release, add_ref, query_interface, release_server_reference_if,
}
use axhost.Serving.{Server, set, drop, ask}
use axhost.Serving.Views.{passes, Move, runtime_view, acquired-view, released-view, released-Move}

abbrev pub alive : Container → ℕ
alive c = if c.deleted then 0 else 1

-- The containers that live.
abbrev pub live : List Container → ℕ
live [] = 0
live (c ∷ cs) = alive c + live cs

-- A container that lives has references, and fewer than 2^32.
abbrev pub IsSound : Container → Type 0
IsSound c = (c.deleted ≡ true) ⊎ ((0 < c.ref) × (c.ref < 2 ^ 32))

live-set :
    (cs : List Container) (i : ℕ) (c d : Container)
    → get_elem? cs i ≡ some c
    → live (set cs i d) + alive c ≡ live cs + alive d
live-set [] i c d h = cc
live-set (x ∷ cs) zero c d h = ground (arith, h)
live-set (x ∷ cs) (suc i) c d h = omega (arith, live-set cs i c d h)

set-IsSound :
    (cs : List Container) (i : ℕ) (d : Container)
    → All IsSound cs
    → IsSound d
    → All IsSound (set cs i d)
set-IsSound [] i d h k = tt
set-IsSound (x ∷ cs) zero d h k = (k, h.1)
set-IsSound (x ∷ cs) (suc i) d h k = (h.0, set-IsSound cs i d h.1 k)

get_elem?-IsSound :
    (cs : List Container) (i : ℕ) (c : Container)
    → get_elem? cs i ≡ some c
    → All IsSound cs
    → IsSound c
get_elem?-IsSound [] i c e h = cc
get_elem?-IsSound (x ∷ cs) zero c e h = ground (arith, e)
get_elem?-IsSound (x ∷ cs) (suc i) c e h = get_elem?-IsSound cs i c e h.1

live_pos :
    (cs : List Container) (i : ℕ) (c : Container)
    → get_elem? cs i ≡ some c
    → c.deleted ≡ false
    → 0 < live cs
live_pos [] i c e h = cc
live_pos (x ∷ cs) zero c e h = ground (arith, e)
live_pos (x ∷ cs) (suc i) c e h = omega (arith, live_pos cs i c e h)

add_ref_lem : (c : Container) → c.ref + 1 < 2 ^ 32 → add_ref c ≡ record c { ref = c.ref + 1 }
unfolding add_ref
add_ref_lem c h = let fits : (c.ref + 1) % 2 ^ 32 ≡ c.ref + 1 = omega arith in rw fits

module _ (ole : Com) (widget : Widget) where
  release_last :
      (c : Container) (r : Runtime ole)
      → c.ref ≡ 1
      → release ole standalone widget c (some r)
        ≡ (record c { ref = 0; deleted = true }, some (step ole standalone released r))
  unfolding release release_server_reference_if
  release_last c r h = let n : (c.ref + (2 ^ 32 - 1)) % 2 ^ 32 ≡ 0 = omega arith in rw n

  release_more :
      (c : Container) (r : Runtime ole)
      → 1 < c.ref
      → c.ref < 2 ^ 32
      → release ole standalone widget c (some r) ≡ (record c { ref = c.ref - 1 }, some r)
  unfolding release
  release_more c r h k =
      let n : (c.ref + (2 ^ 32 - 1)) % 2 ^ 32 ≡ c.ref - 1 = omega arith in
      let m : (c.ref - 1 == 0) ≡ false = ground arith in rw n rw m

module _ (ole : Com) (laws : Laws ole) (widget : Widget) where
  pub record Inv (s : Server ole widget) : Type 0 where
    pub sound : All IsSound s.containers
    pub counted : laws.count s.runtime.world ≡ live s.containers + s.locks

  -- What each step keeps, and how it moves the runtime.
  abbrev pub Moves : Server ole widget → Server ole widget → Type 0
  Moves s t = Inv t × Move (runtime_view ole laws s.runtime) (runtime_view ole laws t.runtime)

  -- One container is replaced, and the runtime's references change with it.
  replace-Inv :
      (s : Server ole widget) (r : Runtime ole) (w : widget.World) (i : ℕ) (c d : Container)
      → get_elem? s.containers i ≡ some c
      → IsSound d
      → laws.count r.world + alive c ≡ laws.count s.runtime.world + alive d
      → Inv s
      → Inv (record s { runtime = r; control = w; containers = set s.containers i d })
  replace-Inv s r w i c d e sound_d same v = record {
    sound = set-IsSound s.containers i d v.sound sound_d;
    counted = omega (arith, live-set s.containers i c d e, v.counted, same);
  }

  pub released-count :
      (r : Runtime ole) → laws.count (step ole standalone released r).world ≡ laws.count r.world - 1
  released-count r = ap (λ v. v.users) (released-view ole laws r)

  pub acquired-count :
      (r : Runtime ole) → laws.count (step ole standalone acquired r).world ≡ laws.count r.world + 1
  acquired-count r = ap (λ v. v.users) (acquired-view ole laws r)

  pub drop-Moves :
      (s : Server ole widget) (i : ℕ) (c : Container)
      → get_elem? s.containers i ≡ some c
      → c.deleted ≡ false
      → Inv s
      → Moves s (drop ole widget i c s)
  unfolding drop
  drop-Moves s i c e d v =
      let used = live_pos s.containers i c e d in
      let sound_c = get_elem?-IsSound s.containers i c e v.sound in
      let some_used : 0 < laws.count s.runtime.world = omega (arith, used, v.counted) in
      elim (Bool-cases (c.ref == 1)) [
        | inl one ↦
            let last : c.ref ≡ 1 = ground (arith, one) in
            rw (release_last ole widget c s.runtime last) (
              replace-Inv s _ s.control i c _ e (inl refl)
                  (ground (arith, released-count s.runtime)) v,
              released-Move ole laws s.runtime some_used,
            )
        | inr more ↦
            let rest : (1 < c.ref) × (c.ref < 2 ^ 32) = ground (arith, more) in
            rw (release_more ole widget c s.runtime rest.0 rest.1) (
              replace-Inv s s.runtime s.control i c _ e (inr (omega arith)) (ground arith) v,
              passes _,
            )
      ]

  pub keep-Inv :
      (s : Server ole widget) (w : widget.World) (i : ℕ) (c : Container)
      → get_elem? s.containers i ≡ some c
      → c.deleted ≡ false
      → c.ref + 1 < 2 ^ 32
      → Inv s
      → Inv (record s { control = w; containers = set s.containers i (add_ref c) })
  keep-Inv s w i c e d h v =
      rw (add_ref_lem c h) (replace-Inv s s.runtime w i c _ e (inr (omega arith)) (ground arith) v)

  pub ask-Moves :
      (s : Server ole widget) (i : ℕ) (riid : Iid) (c : Container)
      → get_elem? s.containers i ≡ some c
      → c.deleted ≡ false
      → c.ref + 1 < 2 ^ 32
      → Inv s
      → Moves s (ask ole widget i riid c s)
  unfolding ask query_interface
  ask-Moves s i riid c e d h v =
      let sound_c = get_elem?-IsSound s.containers i c e v.sound in
      elim (Bool-cases (answers riid)) [
        | inl own ↦ rw own (keep-Inv s s.control i c e d h v, passes _)
        | inr not_own ↦ rw not_own (elim (Bool-cases c.initialized) [
          | inl loaded ↦ rw loaded (replace-Inv s s.runtime _ i c _ e sound_c refl v, passes _)
          | inr empty ↦ rw empty (replace-Inv s s.runtime _ i c _ e sound_c refl v, passes _)
        ])
      ]
