-- ===== src/Registry.antt =====
-- The Windows registry below HKEY_CLASSES_ROOT, as the program reaches it through WIL: its code is
-- not in the repository. A key handle is the path that it was opened with.
pub mod Table
use axhost.Common.{ℕ, Text, Bool, true, false, ◌≡◌, ◌&&◌, ◌⊎◌, ◌++◌, length}
use axhost.Common.Hresult.{failed, succeeded, s_ok}

pub data Access : Type 0 where
  read readwrite : Access

pub record Registry : Type 1 where
  pub Reg : Type 0
  -- create_unique_key_nothrow: the new registry and the HRESULT.
  pub create_key : Text → Reg → Reg × ℕ
  -- open_unique_key_nothrow.
  pub open_key : Text → Access → Reg → ℕ
  -- set_value_string_nothrow and set_value_nothrow at a DWORD: path, name, value.
  pub set_string : Text → Text → Text → Reg → Reg × ℕ
  pub set_dword : Text → Text → ℕ → Reg → Reg × ℕ
  -- get_value_string_nothrow and get_value_nothrow: the HRESULT and the value.
  pub get_string : Text → Text → Reg → ℕ × Text
  pub get_dword : Text → Text → Reg → ℕ × ℕ
  -- RegDeleteValueW: the new registry and the LSTATUS.
  pub delete_value : Text → Text → Reg → Reg × ℕ

-- What the program relies on. Names and paths are compared without regard to case, so two that are
-- the same have one length, and lead to the same key.
pub record Laws (r : Registry) : Type 0 where
  pub same_name : Text → Text → Bool
  pub same_name-length : (a b : Text) → same_name a b ≡ true → length a ≡ length b
  pub same_name-append : (p a b : Text) → same_name a b ≡ true → same_name (p ++ a) (p ++ b) ≡ true
  pub open-same :
      (p q : Text) (a : Access) (s : r.Reg)
      → same_name p q ≡ true
      → r.open_key p a s ≡ r.open_key q a s
  pub get_string-same :
      (p q n : Text) (s : r.Reg) → same_name p q ≡ true → r.get_string p n s ≡ r.get_string q n s
  pub open-create :
      (p : Text) (a : Access) (s : r.Reg)
      → failed (r.create_key p s).1 ≡ false
      → failed (r.open_key p a (r.create_key p s).0) ≡ false
  pub open-create_elsewhere :
      (p q : Text) (a : Access) (s : r.Reg)
      → failed (r.open_key q a s) ≡ false
      → failed (r.open_key q a (r.create_key p s).0) ≡ false
  pub get_string-create :
      (p q m : Text) (s : r.Reg) → r.get_string q m (r.create_key p s).0 ≡ r.get_string q m s
  pub open-set_string :
      (p n v q : Text) (a : Access) (s : r.Reg)
      → r.open_key q a (r.set_string p n v s).0 ≡ r.open_key q a s
  pub open-set_dword :
      (p n : Text) (v : ℕ) (q : Text) (a : Access) (s : r.Reg)
      → r.open_key q a (r.set_dword p n v s).0 ≡ r.open_key q a s
  pub get_string-set_string :
      (p n v : Text) (s : r.Reg)
      → failed (r.set_string p n v s).1 ≡ false
      → r.get_string p n (r.set_string p n v s).0 ≡ (s_ok, v)
  pub get_dword-set_dword :
      (p n : Text) (v : ℕ) (s : r.Reg)
      → failed (r.set_dword p n v s).1 ≡ false
      → r.get_dword p n (r.set_dword p n v s).0 ≡ (s_ok, v)
  pub get_string-set_string_ne :
      (p n v q m : Text) (s : r.Reg)
      → (same_name p q && same_name n m) ≡ false
      → r.get_string q m (r.set_string p n v s).0 ≡ r.get_string q m s
  pub get_dword-set_string_ne :
      (p n v q m : Text) (s : r.Reg)
      → (same_name p q && same_name n m) ≡ false
      → r.get_dword q m (r.set_string p n v s).0 ≡ r.get_dword q m s
  pub get_string-set_dword_ne :
      (p n : Text) (v : ℕ) (q m : Text) (s : r.Reg)
      → (same_name p q && same_name n m) ≡ false
      → r.get_string q m (r.set_dword p n v s).0 ≡ r.get_string q m s
  -- 0 is success and 2 is ERROR_FILE_NOT_FOUND: the value is not there afterwards.
  pub get_string-delete :
      (p n : Text) (s : r.Reg)
      → ((r.delete_value p n s).1 ≡ 0) ⊎ ((r.delete_value p n s).1 ≡ 2)
      → failed (r.get_string p n (r.delete_value p n s).0).0 ≡ true
  pub get_string-delete_ne :
      (p n q m : Text) (s : r.Reg)
      → (same_name p q && same_name n m) ≡ false
      → r.get_string q m (r.delete_value p n s).0 ≡ r.get_string q m s
  pub open-delete :
      (p n q : Text) (a : Access) (s : r.Reg)
      → r.open_key q a (r.delete_value p n s).0 ≡ r.open_key q a s
