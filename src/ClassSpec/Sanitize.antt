-- ===== src/ClassSpec/Sanitize.antt =====
-- What sanitizing fills in.
use axhost.Common.{
  ℕ, ◌≡◌, ◌≢◌, ◌⊎◌, inl, inr, ◌==◌, if◌then◌else◌, true, arith, is_empty, [], ◌∷◌, Text, refl, zero,
  suc,
}
use axhost.ClassSpec.{ClassSpec, sanitize}

-- Every default is filled in: both contexts are set, the alias is null only if the class is, and
-- the alias text is empty only if the class text is.
pub record IsComplete (s : ClassSpec) : Type 0 where
  pub create_set : s.clsctx_create ≢ 0
  pub register_set : s.clsctx_register ≢ 0
  pub alias_set : (s.alias ≢ 0) ⊎ (s.clsid ≡ 0)
  pub input_set : (s.alias_input ≢ []) ⊎ (s.clsid_input ≡ [])

input_or : (a c : Text) → ((if is_empty a then c else a) ≢ []) ⊎ (c ≡ [])
input_or [] [] = inr refl
input_or [] (x ∷ c) = inl (λ e. cc)
input_or (x ∷ a) c = inl (λ e. cc)

or_self : (a c : Text) → (a ≢ []) ⊎ (c ≡ []) → (if is_empty a then c else a) ≡ a
or_self [] c (inl h) = absurd (h refl)
or_self [] c (inr e) = e
or_self (x ∷ a) c h = refl

alias_or : (a c : ℕ) → ((if a == 0 then c else a) ≢ 0) ⊎ (c ≡ 0)
alias_or zero zero = inr refl
alias_or zero (suc c) = inl (λ e. omega arith)
alias_or (suc a) c = inl (λ e. ground arith)

-- Sanitizing fills in every default.
pub sanitize-IsComplete : (regcls : ℕ) (s : ClassSpec) → IsComplete (sanitize regcls s)
unfolding sanitize
sanitize-IsComplete regcls s = record {
  create_set = ground arith;
  register_set = ground arith;
  alias_set = alias_or s.alias s.clsid;
  input_set = input_or s.alias_input s.clsid_input;
}

-- A complete specification with an explicit REGCLS is used exactly as it was given, whatever the
-- flags of the command line.
pub sanitize-eq_self :
    (regcls : ℕ) (s : ClassSpec) → IsComplete s → s.regcls_explicit ≡ true → sanitize regcls s ≡ s
unfolding sanitize
sanitize-eq_self regcls s c h =
    ground (arith, or_self s.alias_input s.clsid_input c.input_set, c.alias_set)

-- Sanitizing twice with the same flags is sanitizing once.
pub sanitize_idem :
    (regcls : ℕ) (s : ClassSpec) → sanitize regcls (sanitize regcls s) ≡ sanitize regcls s
unfolding sanitize
sanitize_idem regcls s = ground arith
