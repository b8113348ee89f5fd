-- ===== src/OptionValues/Normal.antt =====
-- A class identifier is put into one form.
use axhost.Common.{Text, ◌≡◌, refl, ap, arith, false}
use axhost.Common.Hresult.{failed}
use axhost.ClassSpec.{Uuid}
use axhost.OptionValues.{Identifiers, as_class_id}

-- What Windows and Qt promise: a printed identifier is read back.
abbrev pub ReadsBack : Identifiers → Type 0
ReadsBack ids =
    (u : Uuid)
    → (failed (ids.clsid_from_string (ids.upper_text u)).0 ≡ false)
      × ((ids.clsid_from_string (ids.upper_text u)).1 ≡ u)

-- If every identifier that is printed is read back, two valid inputs for one class become the
-- same text, and what an input becomes is valid and stays as it is.
pub as_class_id_normal :
    (ids : Identifiers) (a b : Text)
    → ReadsBack ids
    → failed (ids.clsid_from_string a).0 ≡ false
    → failed (ids.clsid_from_string b).0 ≡ false
    → (ids.clsid_from_string a).1 ≡ (ids.clsid_from_string b).1
    → (as_class_id ids a ≡ as_class_id ids b)
      × (as_class_id ids (as_class_id ids a).0 ≡ as_class_id ids a)
unfolding as_class_id
as_class_id_normal ids a b back ok ok1 same =
    let u = (ids.clsid_from_string a).1 in
    (ground (arith, ap ids.upper_text same), rw ok rw (back u).0 rw (back u).1 refl)
