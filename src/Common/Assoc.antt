-- ===== src/Common/Assoc.antt =====
-- std::unordered_map with numbers as keys, as an association list.
use axhost.Common.{
  ℕ, Bool, true, false, List, [], ◌∷◌, Option, none, some, ◌≡◌, ◌==◌, if◌then◌else◌, arith,
}

abbrev pub is_some {ℓ} : {A : Type ℓ} → Option A → Bool
is_some none = false
is_some (some a) = true

module _ {ℓ} {V : Type ℓ} where
  unfoldable pub find : ℕ → List (ℕ × V) → Option V
  find k [] = none
  find k ((j, v) ∷ m) = if k == j then some v else find k m

  -- A key that is there keeps its value.
  unfoldable pub emplace : ℕ → V → List (ℕ × V) → List (ℕ × V)
  emplace k v m = if is_some (find k m) then m else (k, v) ∷ m

  unfoldable pub erase : ℕ → List (ℕ × V) → List (ℕ × V)
  erase k [] = []
  erase k ((j, v) ∷ m) = let rest = erase k m in if k == j then rest else (j, v) ∷ rest

  pub find-emplace :
      (j k : ℕ) (v : V) (m : List (ℕ × V))
      → find j (emplace k v m)
        ≡ (if is_some (find k m) then find j m else (if j == k then some v else find j m))
  unfolding find emplace
  find-emplace j k v m = ground arith

  pub find-erase :
      (j k : ℕ) (m : List (ℕ × V)) → find j (erase k m) ≡ (if j == k then none else find j m)
  unfolding find erase
  find-erase j k [] = ground arith
  find-erase j k ((i, v) ∷ m) = ground (arith, find-erase j k m)
