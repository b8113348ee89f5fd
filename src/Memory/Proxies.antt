-- ===== src/Memory/Proxies.antt =====
-- What HostConnectionPointContainer::GetProxyConnectionPoint hands out.
use axhost.Common.{
  ℕ, suc, ◌<◌, ◌≡◌, refl, sym, subst, Bool, true, false, ◌==◌, List, [], ◌∷◌, ◌++◌, Option, none,
  some, get_elem?, arith, Bool-cases, Option-cases, inl, inr,
}
use axhost.Memory.{
  Address, Kind, point_container, point, point_enum, connection_enum, sink, values, members, Cell,
  Memory,
}
use axhost.Memory.Counts.{occ, weight, inner-get}
use axhost.Memory.Balance.{
  Returns, returns, bind, Balanced, shape_of, Lives, strong-Lives, load-Lives,
}
use axhost.Memory.Cycle.{Linked}
use axhost.Memory.Owned.{Stable, Stable-refl, Balanced-less, Anchored, Anchored-Lives}
use axhost.Memory.Methods.{
  lookup, entry_of, copy_proxy, proxy_or_new, get_proxy_connection_point, hand_out,
}
use axhost.Memory.Handed.{hand_out-Returns}
use axhost.Memory.Entered.{make_proxy-Returns}

-- What a call that may fail hands out.
abbrev pub given : Option Address → List Address
given none = []
given (some p) = p ∷ []

pub lookup-values :
    (k : ℕ) (es : List (ℕ × Address)) (p : Address) → lookup k es ≡ some p → 0 < occ p (values es)
lookup-values k [] p h = cc
lookup-values k (e ∷ es) p h = elim (Bool-cases (e.0 == k)) [
  | inl t ↦ ground (arith, t, h)
  | inr f ↦ ground (arith, f, h, lookup-values k es p)
]

pub entry_of-members :
    (k : ℕ) (kind : Kind) (p : Address) → entry_of k kind ≡ some p → 0 < occ p (members kind)
entry_of-members k (point_container proxies) p h = lookup-values k proxies p h
entry_of-members k (point container connections) p h =
    omega (arith, lookup-values k connections p h)
entry_of-members k (point_enum container) p h = cc
entry_of-members k (connection_enum q) p h = cc
entry_of-members k sink p h = cc

-- What a map of an object that lives has, lives.
pub entry-Lives :
    (n : ℕ) (owners : List Address) (m : Memory) (this : Address) (cell : Cell) (k : ℕ)
    (p : Address)
    → Balanced n owners m
    → get_elem? m this ≡ some cell
    → cell.object.deleted ≡ false
    → entry_of k cell.kind ≡ some p
    → Lives p m
entry-Lives n owners m this cell k p b e d h =
    let inside : 0 < weight p cell = ground (arith, d, entry_of-members k cell.kind p h) in
    strong-Lives (get_elem? m p) (omega (arith, b.counted p, inner-get m p this cell e, inside))

pub copy_proxy-Returns :
    (n : ℕ) (owners : List Address) (m : Memory) (p : Address)
    → Lives p m
    → Balanced (suc (suc n)) owners m
    → Returns (λ r m'. (r ≡ p) × Stable n (p ∷ owners) m m') (copy_proxy p m)
unfolding copy_proxy hand_out
copy_proxy-Returns n owners m p live b = hand_out-Returns n owners m p live b

new_proxy-Returns :
    (n : ℕ) (owners : List Address) (m : Memory) (this : Address) (identity : ℕ) (is_point : Bool)
    → Anchored this owners m
    → shape_of (get_elem? m this) ≡ some (point_container [])
    → Balanced (suc (suc (suc (suc (suc n))))) owners m
    → Returns
        (λ r m'. Stable n (given r ++ owners) m m')
        (proxy_or_new this identity is_point none m)
unfolding proxy_or_new
new_proxy-Returns n owners m this identity false anchor at b =
    returns (Stable-refl (Balanced-less (omega arith) b))
new_proxy-Returns n owners m this identity true anchor at b =
    bind (make_proxy-Returns n owners m this identity anchor at b) λ p m1 h. returns h.0

pub new_proxy-Linked :
    (n : ℕ) (owners : List Address) (m : Memory) (this : Address) (identity : ℕ)
    → Anchored this owners m
    → shape_of (get_elem? m this) ≡ some (point_container [])
    → Balanced (suc (suc (suc (suc (suc n))))) owners m
    → Returns
        (λ r m'. (p : Address) × (r ≡ some p) × Stable n (p ∷ owners) m m' × Linked this p m')
        (proxy_or_new this identity true none m)
unfolding proxy_or_new
new_proxy-Linked n owners m this identity anchor at b =
    bind (make_proxy-Returns n owners m this identity anchor at b)
      λ p m1 h. returns (p, refl, h.0, h.1)

-- GetProxyConnectionPoint returns; it hands out one reference to the proxy if it succeeds, and
-- the counts are the references again.
pub get_proxy_connection_point-Returns :
    (n : ℕ) (owners : List Address) (m : Memory) (this : Address) (identity : ℕ) (is_point : Bool)
    → Anchored this owners m
    → shape_of (get_elem? m this) ≡ some (point_container [])
    → Balanced (suc (suc (suc (suc (suc n))))) owners m
    → Returns
        (λ r m'. Stable n (given r ++ owners) m m')
        (get_proxy_connection_point this identity is_point m)
unfolding get_proxy_connection_point proxy_or_new
get_proxy_connection_point-Returns n owners m this identity is_point anchor at b =
    let (cell, e, d) = Anchored-Lives _ owners m this b anchor in
    rw (load-Lives this m cell e d) (elim (Option-cases (entry_of identity cell.kind)) [
      | inr (p, found) ↦ rw found (
          bind
            (copy_proxy-Returns n owners m p
              (entry-Lives _ owners m this cell identity p b e d found)
              (Balanced-less (omega arith) b))
            λ q m1 h. returns (subst (λ x. Stable n (x ∷ owners) m m1) (sym h.0) h.1))
      | inl absent ↦ rw absent (new_proxy-Returns n owners m this identity is_point anchor at b)
    ])
