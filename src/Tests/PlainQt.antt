-- ===== src/Tests/PlainQt.antt =====
-- Text operations by which the laws of Qt's can be met; numbers have one digit.
use axhost.Common.{
  ℕ, ◌+◌, ◌-◌, ◌%◌, Bool, true, false, Text, List, [], ◌∷◌, ◌++◌, ◌≡◌, refl, ◌==◌, if◌then◌else◌,
  Lacks, arith,
}
use axhost.Common.Qt.{Qt}

abbrev join : List Text → ℕ → Text
join [] c = []
join (s ∷ []) c = s
join (s ∷ t ∷ r) c = s ++ c ∷ join (t ∷ r) c

abbrev replace : Text → ℕ → ℕ → Text
replace [] a b = []
replace (c ∷ s) a b = (if c == a then b else c) ∷ replace s a b

abbrev cons_head : ℕ → List Text → List Text
cons_head d [] = (d ∷ []) ∷ []
cons_head d (p ∷ ps) = (d ∷ p) ∷ ps

abbrev split : Text → ℕ → List Text
split [] c = [] ∷ []
split (d ∷ s) c = let rest = split s c in if d == c then [] ∷ rest else cons_head d rest

abbrev to_uint : Text → ℕ × Bool
to_uint (c ∷ []) = (c - b'0', true)
to_uint _ = (0, false)

pub split-last : (s : Text) (c : ℕ) → Lacks c s → split s c ≡ s ∷ []
split-last [] c h = refl
split-last (d ∷ s) c (h, hs) = ground (arith, split-last s c hs)

pub split-append : (s rest : Text) (c : ℕ) → Lacks c s → split (s ++ c ∷ rest) c ≡ s ∷ split rest c
split-append [] rest c h = ground arith
split-append (d ∷ s) rest c (h, hs) = ground (arith, split-append s rest c hs)

abbrev pub plain : Qt
plain = record {
  join = join;
  join-nil = λ c. refl;
  join-one = λ s c. refl;
  join-cons = λ s t r c. refl;
  replace = replace;
  replace-nil = λ a b. refl;
  replace-cons = λ c s a b. refl;
  split = split;
  split-last = split-last;
  split-append = split-append;
  trimmed = λ s. s;
  to_uint = to_uint;
  number = λ n. (b'0' + n % 10) ∷ [];
  to_lower = λ s. s;
}
