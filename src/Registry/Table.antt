-- ===== src/Registry/Table.antt =====
-- A registry as a table of values, with paths and names in small letters, where every key can be
-- opened: the laws can hold.
use axhost.Common.{
  [], ◌∷◌, ◌++◌, ◌+◌, leb, suc, sym, ◌∙◌, Bool, true, ℕ, Text, false, ◌≡◌, ◌&&◌, refl, Option, none,
  some, text_eq, text_eq_refl, if◌then◌else◌, length, eq_of_text_eq, ap,
}
use axhost.Common.Hresult.{failed, s_ok, e_fail}
use axhost.Registry.{Registry, Laws}

pub data Value : Type 0 where
  string : Text → Value
  dword : ℕ → Value

abbrev pub Table : Type 0
Table = Text → Text → Option Value

-- In small letters, of those of ASCII.
abbrev lower : ℕ → ℕ
lower c = if leb b'A' c && leb c b'Z' then c + 32 else c

abbrev pub fold : Text → Text
fold [] = []
fold (c ∷ s) = lower c ∷ fold s

pub length-fold : (s : Text) → length (fold s) ≡ length s
length-fold [] = refl
length-fold (c ∷ s) = ap suc (length-fold s)

fold-append : (s t : Text) → fold (s ++ t) ≡ fold s ++ fold t
fold-append [] t = refl
fold-append (c ∷ s) t = ap (λ r. lower c ∷ r) (fold-append s t)

abbrev pub same : Text → Text → Bool
same a b = text_eq (fold a) (fold b)

pub same_append : (p a b : Text) → same a b ≡ true → same (p ++ a) (p ++ b) ≡ true
same_append p a b h =
    let e : fold a ≡ fold b = eq_of_text_eq (fold a) (fold b) h in
    rw (fold-append p a, fold-append p b, e) (text_eq_refl (fold p ++ fold b))

abbrev put : Text → Text → Option Value → Table → Table
put p n v t = λ q m. if text_eq (fold p) q && text_eq (fold n) m then v else t q m

abbrev look : Text → Text → Table → Option Value
look p n t = t (fold p) (fold n)

abbrev string_of : Option Value → ℕ × Text
string_of (some (string v)) = (s_ok, v)
string_of _ = (e_fail, [])

abbrev dword_of : Option Value → ℕ × ℕ
dword_of (some (dword v)) = (s_ok, v)
dword_of _ = (e_fail, 0)

abbrev pub table : Registry
table = record {
  Reg = Table;
  create_key = λ p t. (t, s_ok);
  open_key = λ p a t. s_ok;
  set_string = λ p n v t. (put p n (some (string v)) t, s_ok);
  set_dword = λ p n v t. (put p n (some (dword v)) t, s_ok);
  get_string = λ p n t. string_of (look p n t);
  get_dword = λ p n t. dword_of (look p n t);
  delete_value = λ p n t. (put p n none t, 0);
}

pub put_self : (p n : Text) (v : Option Value) (t : Table) → look p n (put p n v t) ≡ v
put_self p n v t = rw (text_eq_refl (fold p), text_eq_refl (fold n))

pub put_ne :
    (p n : Text) (v : Option Value) (t : Table) (q m : Text)
    → (same p q && same n m) ≡ false
    → look q m (put p n v t) ≡ look q m t
put_ne p n v t q m h = rw h

abbrev pub table_laws : Laws table
table_laws = record {
  same_name = same;
  same_name-length =
      λ a b h. sym (length-fold a) ∙ ap length (eq_of_text_eq (fold a) (fold b) h) ∙ length-fold b;
  same_name-append = same_append;
  open-same = λ p q a s h. refl;
  get_string-same =
      λ p q n s h. ap (λ k. string_of (s k (fold n))) (eq_of_text_eq (fold p) (fold q) h);
  open-create = λ p a s h. refl;
  open-create_elsewhere = λ p q a s h. refl;
  get_string-create = λ p q m s. refl;
  open-set_string = λ p n v q a s. refl;
  open-set_dword = λ p n v q a s. refl;
  get_string-set_string = λ p n v s h. ap string_of (put_self p n _ s);
  get_dword-set_dword = λ p n v s h. ap dword_of (put_self p n _ s);
  get_string-set_string_ne = λ p n v q m s h. ap string_of (put_ne p n _ s q m h);
  get_dword-set_string_ne = λ p n v q m s h. ap dword_of (put_ne p n _ s q m h);
  get_string-set_dword_ne = λ p n v q m s h. ap string_of (put_ne p n _ s q m h);
  get_string-delete = λ p n s h. ap (λ v. failed (string_of v).0) (put_self p n none s);
  get_string-delete_ne = λ p n q m s h. ap string_of (put_ne p n _ s q m h);
  open-delete = λ p n q a s. refl;
}
