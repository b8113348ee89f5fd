-- ===== src/ComContext/Balance.antt =====
-- Every initialisation of COM that succeeded is undone, and no other.
use axhost.Common.{ℕ, ◌+◌, ◌-◌, ◌≡◌, refl, if◌then◌else◌, arith, List, [], ◌∷◌}
use axhost.Common.Hresult.{failed}
use axhost.ComContext.{Threading, construct, destruct}

-- What is documented: how often COM is initialised in the thread.
pub record Laws (threading : Threading) : Type 0 where
  pub count : threading.World → ℕ
  pub count-co_initialize :
      (mode : ℕ) (w : threading.World)
      → count (threading.co_initialize mode w).0
        ≡ (if failed (threading.co_initialize mode w).1 then count w else count w + 1)
  pub count-co_uninitialize :
      (w : threading.World) → count (threading.co_uninitialize w) ≡ count w - 1

module _ (threading : Threading) (laws : Laws threading) where
  open laws use {count}

  -- Contexts that are constructed one inside the other, each in its mode, and destroyed in turn.
  unfoldable pub nested : List ℕ → threading.World → threading.World
  nested [] w = w
  nested (mode ∷ modes) w =
      let (w1, context) = construct threading mode w in destruct threading context (nested modes w1)

  -- However many contexts are nested and whichever of them fail, COM is initialised in the thread
  -- as often after them as before.
  pub count-nested : (modes : List ℕ) (w : threading.World) → count (nested modes w) ≡ count w
  unfolding nested construct destruct
  count-nested [] w = refl
  count-nested (mode ∷ modes) w =
      let made = threading.co_initialize mode w in
      let inner = nested modes made.0 in
      ground (
        arith,
        count-nested modes made.0,
        laws.count-co_initialize mode w,
        laws.count-co_uninitialize inner,
      )
