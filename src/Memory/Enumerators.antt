-- ===== src/Memory/Enumerators.antt =====
-- What the methods that make or copy an enumerator hand out.
use axhost.Common.{ℕ, suc, ◌≡◌, refl, List, ◌∷◌, some, get_elem?, arith}
use axhost.Memory.{Address, point_enum, connection_enum, Memory}
use axhost.Memory.Balance.{Returns, returns, bind, Balanced, shape_of, Lives, Dead, fresh}
use axhost.Memory.Kinds.{IsPoint, IsContainer}
use axhost.Memory.Owned.{Stable, Stable-trans, add_reference-counts, add_reference-Returns}
use axhost.Memory.Methods.{
  enum_connection_points, enum_connections, clone_points, get_connection_point_container,
  clone_connections,
}
use axhost.Memory.Handed.{construct-Returns, construct-hand_out}
use axhost.Memory.Freed.{release_reference-more, release_reference-last}

-- EnumConnectionPoints hands out one reference to a new enumerator of its container, and no more.
pub enum_connection_points-Returns :
    (n : ℕ) (owners : List Address) (m : Memory) (this : Address)
    → IsContainer this m
    → Lives this m
    → Balanced (suc (suc (suc n))) owners m
    → Returns
        (λ e m'. Stable n (e ∷ owners) m m' × (shape_of (get_elem? m' e) ≡ some (point_enum this)))
        (enum_connection_points this m)
unfolding enum_connection_points
enum_connection_points-Returns n owners m this class live b =
    construct-hand_out n owners m this (point_enum this) refl class live b

-- EnumConnections hands out one reference to a new enumerator of its point, and no more.
pub enum_connections-Returns :
    (n : ℕ) (owners : List Address) (m : Memory) (this : Address)
    → IsPoint this m
    → Lives this m
    → Balanced (suc (suc (suc n))) owners m
    → Returns
        (λ e m'.
          Stable n (e ∷ owners) m m' × (shape_of (get_elem? m' e) ≡ some (connection_enum this)))
        (enum_connections this m)
unfolding enum_connections
enum_connections-Returns n owners m this class live b =
    construct-hand_out n owners m this (connection_enum this) refl class live b

pub clone_points-Returns :
    (n : ℕ) (owners : List Address) (m : Memory) (container : Address)
    → IsContainer container m
    → Lives container m
    → Balanced (suc (suc (suc n))) owners m
    → Returns
        (λ e m'.
          Stable n (e ∷ owners) m m' × (shape_of (get_elem? m' e) ≡ some (point_enum container)))
        (clone_points container m)
unfolding clone_points
clone_points-Returns n owners m container class live b =
    construct-hand_out n owners m container (point_enum container) refl class live b

pub get_connection_point_container-Returns :
    (n : ℕ) (owners : List Address) (m : Memory) (container : Address)
    → Lives container m
    → Balanced (suc n) owners m
    → Returns
        (λ c m'. (c ≡ container) × Stable n (c ∷ owners) m m')
        (get_connection_point_container container m)
unfolding get_connection_point_container
get_connection_point_container-Returns n owners m container live b =
    bind (add_reference-Returns n owners m container live b) λ u m1 s. returns (refl, s)

-- HostEnumConnections::Clone, of an enumerator of a point that lives, where the counts are the
-- references with room for three more, hands out a pointer to an object that it has deleted, and no
-- reference: those that there were are those that there are.
pub clone_connections-Dead :
    (n : ℕ) (owners : List Address) (m : Memory) (p : Address)
    → IsPoint p m
    → Lives p m
    → Balanced (suc (suc (suc n))) owners m
    → Returns (λ e m'. Stable n owners m m' × Dead e m') (clone_connections p m)
unfolding clone_connections
clone_connections-Dead n owners m p class live b =
    bind (construct-Returns (suc (suc n)) owners m p (connection_enum p) refl class live b)
      λ e m1 h1.
        bind
          (add_reference-counts (suc n) owners m1 e (fresh (connection_enum p)) h1.1 refl
            h1.0.balanced)
          λ u2 m2 h2.
            bind (add_reference-counts n (e ∷ owners) m2 e _ h2.1 refl h2.0.balanced) λ u3 m3 h3.
              bind (release_reference-more n (e ∷ owners) m3 e _ h3.1 (omega arith) h3.0.balanced)
                λ u4 m4 h4.
                  bind (release_reference-last n owners m4 e _ h4.1 refl h4.0.balanced) λ u5 m5 h5.
                    returns (
                      Stable-trans h1.0
                          (Stable-trans h2.0 (Stable-trans h3.0 (Stable-trans h4.0 h5.0))),
                      h5.1,
                    )
