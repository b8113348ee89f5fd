-- ===== src/Instance/Single.antt =====
-- The first runtime stays the one that clients are counted with.
use axhost.Common.{◌≡◌, ◌≢◌, refl, sym, List, [], ◌∷◌, ==_of_ne}
use axhost.Com.{Pointer}
use axhost.Instance.{Life, constructed, destroyed, live_on, initialize_static_instance, destroy}

-- The runtimes that a history constructs, the last first, behind those before it.
abbrev pub constructions : List Life → List Pointer → List Pointer
constructions [] before = before
constructions (constructed this ∷ lives) before = constructions lives (this ∷ before)
constructions (destroyed this ∷ lives) before = constructions lives before

-- The runtime is not destroyed.
abbrev pub Spares : Pointer → List Life → Type 0
Spares p [] = Unit
Spares p (constructed this ∷ lives) = Spares p lives
Spares p (destroyed this ∷ lives) = (this ≢ p) × Spares p lives

-- While the first runtime, which is not null, lives, it is the instance, and every other that is
-- constructed is refused, whichever of the others are destroyed between.
pub live_on-Spares :
    (p : Pointer) (lives : List Life) (refused : List Pointer)
    → p ≢ 0
    → Spares p lives
    → live_on lives (p, refused) ≡ (p, constructions lives refused)
unfolding live_on initialize_static_instance destroy
live_on-Spares p [] refused h s = refl
live_on-Spares p (constructed this ∷ lives) refused h s =
    rw (==_of_ne p 0 h) (live_on-Spares p lives (this ∷ refused) h s)
live_on-Spares p (destroyed this ∷ lives) refused h s =
    rw (==_of_ne p this (λ e. s.0 (sym e))) (live_on-Spares p lives refused h s.1)
