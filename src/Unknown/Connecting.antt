-- ===== src/Unknown/Connecting.antt =====
-- The count of external connections.
use axhost.Common.{◌⊎◌, inl, inr, ℕ, Bool, true, false, ◌≡◌, ◌<◌, ◌^◌, refl, arith}
use axhost.Unknown.{External, increment, decrement, add_connection, release_connection}

decrement-increment : (n : ℕ) → n < 2 ^ 32 → decrement (increment n) ≡ n
decrement-increment n h = omega arith

-- A connection that is added and released leaves the count of connections as it was, whether or
-- not the control counts connections too; the release returns that count, if it does not.
pub release_connection-add_connection :
    (ext : External) (underlying : Bool) (extconn reserved : ℕ) (closes : Bool) (con : ℕ)
    (w : ext.World)
    → con < 2 ^ 32
    → let added = add_connection ext underlying extconn reserved (con, w) in
      let out = release_connection ext underlying extconn reserved closes (added.1, added.2) in
      (out.1 ≡ con) × ((underlying ≡ true) ⊎ (out.0 ≡ con))
unfolding add_connection release_connection
release_connection-add_connection ext true extconn reserved closes con w h =
    (decrement-increment con h, inl refl)
release_connection-add_connection ext false extconn reserved closes con w h =
    (decrement-increment con h, inr (decrement-increment con h))
