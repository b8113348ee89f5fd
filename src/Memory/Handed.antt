-- ===== src/Memory/Handed.antt =====
-- What the methods hand out.
use axhost.Common.{ℕ, suc, ◌≡◌, refl, ap, sym, subst, List, [], ◌∷◌, ◌++◌, some, get_elem?, arith}
use axhost.Memory.{Address, Kind, members, Memory, and_then}
use axhost.Memory.Balance.{
  Returns, returns, bind, fresh, mono, Balanced, shape, shape_of, Lives, owned-Lives,
}
use axhost.Memory.Kinds.{Fits, Fits-SameKinds}
use axhost.Memory.Owned.{
  Stable, Stable-trans, add_reference-Returns, release_reference-Returns, allocate-Returns,
}
use axhost.Memory.Methods.{construct, hand_out}

pub head-Lives :
    (n : ℕ) (owners : List Address) (m : Memory) (i : Address)
    → Balanced n (i ∷ owners) m
    → Lives i m
head-Lives n owners m i b = owned-Lives n (i ∷ owners) m i b (ground arith)

pub hand_out-Returns :
    (n : ℕ) (owners : List Address) (m : Memory) (e : Address)
    → Lives e m
    → Balanced (suc (suc n)) owners m
    → Returns (λ r m'. (r ≡ e) × Stable n (e ∷ owners) m m') (hand_out e m)
unfolding hand_out
hand_out-Returns n owners m e live b =
    bind (add_reference-Returns (suc n) owners m e live b) λ u1 m1 s1.
      bind (add_reference-Returns n (e ∷ owners) m1 e (head-Lives _ _ m1 e s1.balanced) s1.balanced)
        λ u2 m2 s2.
          bind (release_reference-Returns n (e ∷ owners) m2 e s2.balanced)
            λ u3 m3 s3. returns (refl, Stable-trans s1 (Stable-trans s2 s3))

pub construct-Returns :
    (n : ℕ) (owners : List Address) (m : Memory) (member : Address) (kind : Kind)
    → members kind ≡ member ∷ []
    → Fits m kind
    → Lives member m
    → Balanced (suc n) owners m
    → Returns
        (λ e m'. Stable n owners m m' × (get_elem? m' e ≡ some (fresh kind)))
        (construct member kind m)
unfolding construct
construct-Returns n owners m member kind one fits live b =
    bind (add_reference-Returns n owners m member live b) λ u m1 s1.
      let taken : Balanced n (members kind ++ owners) m1 =
        subst (λ ms. Balanced n (ms ++ owners) m1) (sym one) s1.balanced in
      let (c, at, d) = live in
      mono
        (allocate-Returns n owners m1 kind (omega (arith, b.room member c at))
          (Fits-SameKinds m m1 kind s1.kinds fits) taken)
        λ e m2 h. (Stable-trans s1 h.0, h.1)

-- A new object whose one member points to an object that lives is handed out with one reference,
-- and nothing else is owned.
pub construct-hand_out :
    (n : ℕ) (owners : List Address) (m : Memory) (member : Address) (kind : Kind)
    → members kind ≡ member ∷ []
    → Fits m kind
    → Lives member m
    → Balanced (suc (suc (suc n))) owners m
    → Returns
        (λ e m'. Stable n (e ∷ owners) m m' × (shape_of (get_elem? m' e) ≡ some (shape kind)))
        (and_then (construct member kind m) hand_out)
construct-hand_out n owners m member kind one fits live b =
    bind (construct-Returns (suc (suc n)) owners m member kind one fits live b) λ e m1 h.
      mono (hand_out-Returns n owners m1 e (fresh kind, h.1, refl) h.0.balanced) λ r m2 k. (
        subst (λ x. Stable n (x ∷ owners) m m2) (sym k.0) (Stable-trans h.0 k.1),
        subst (λ x. shape_of (get_elem? m2 x) ≡ some (shape kind)) (sym k.0)
            (k.1.kinds e (shape kind) (ap shape_of h.1)),
      )
