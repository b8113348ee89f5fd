-- ===== src/Common/Qt.antt =====
-- What the program uses of Qt's text classes, whose code is not in the repository: the operations
-- as fields, with the documented behaviour that the proofs rely on.
use axhost.Common.{ℕ, Bool, Text, List, [], ◌∷◌, ◌++◌, ◌≡◌, ◌==◌, if◌then◌else◌, Lacks}

pub record Qt : Type 0 where
  -- QStringList::join(QChar): the texts with the separator between them.
  pub join : List Text → ℕ → Text
  pub join-nil : (c : ℕ) → join [] c ≡ []
  pub join-one : (s : Text) (c : ℕ) → join (s ∷ []) c ≡ s
  pub join-cons :
      (s t : Text) (r : List Text) (c : ℕ) → join (s ∷ t ∷ r) c ≡ s ++ c ∷ join (t ∷ r) c
  -- QString::replace(QChar, QChar): every occurrence.
  pub replace : Text → ℕ → ℕ → Text
  pub replace-nil : (a b : ℕ) → replace [] a b ≡ []
  pub replace-cons :
      (c : ℕ) (s : Text) (a b : ℕ) → replace (c ∷ s) a b ≡ (if c == a then b else c) ∷ replace s a b
  -- QString::split(QString) with a one-character separator.
  pub split : Text → ℕ → List Text
  pub split-last : (s : Text) (c : ℕ) → Lacks c s → split s c ≡ s ∷ []
  pub split-append :
      (s rest : Text) (c : ℕ) → Lacks c s → split (s ++ c ∷ rest) c ≡ s ∷ split rest c
  -- QString::trimmed.
  pub trimmed : Text → Text
  -- QString::toUInt(&ok, 0): the value, and whether the whole text is a number below 2^32.
  pub to_uint : Text → ℕ × Bool
  -- A number in decimal digits.
  pub number : ℕ → Text
  -- QString::toLower.
  pub to_lower : Text → Text
