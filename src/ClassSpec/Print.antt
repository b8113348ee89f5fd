-- ===== src/ClassSpec/Print.antt =====
-- A printed specification is read back.
use axhost.Common.{ℕ, Text, true, false, ◌≡◌, is_empty, Lacks, [], ◌∷◌}
use axhost.Common.Qt.{Qt}
use axhost.ClassSpec.{ClassSpec, Uuid, from_string, print}

module _ (qt : Qt) where
  open qt use {split, split-last, split-append, trimmed, to_uint, number}

  -- A number whose decimal digits are read back.
  pub record ReadsBack (n : ℕ) : Type 0 where
    pub no_slash : Lacks b'/' (number n)
    pub not_empty : is_empty (number n) ≡ false
    pub read_back : to_uint (number n) ≡ (n, true)

  -- A text that splitting and trimming leave whole.
  pub record IsField (s : Text) : Type 0 where
    pub no_slash : Lacks b'/' s
    pub not_empty : is_empty s ≡ false
    pub trimmed_same : trimmed s ≡ s

  -- What can be printed and read back.
  pub record IsPrintable (s : ClassSpec) : Type 0 where
    pub clsid_field : IsField s.clsid_input
    pub alias_field : IsField s.alias_input
    pub create_back : ReadsBack s.clsctx_create
    pub register_back : ReadsBack s.clsctx_register
    pub regcls_back : ReadsBack s.regcls

  split-print :
      (s : ClassSpec)
      → IsPrintable s
      → split (print qt s) b'/'
        ≡ s.clsid_input
          ∷ s.alias_input
          ∷ number s.clsctx_create
          ∷ number s.clsctx_register
          ∷ number s.regcls
          ∷ []
  unfolding print
  split-print s p = rw (
    split-append s.clsid_input _ b'/' p.clsid_field.no_slash,
    split-append s.alias_input _ b'/' p.alias_field.no_slash,
    split-append (number s.clsctx_create) _ b'/' p.create_back.no_slash,
    split-append (number s.clsctx_register) _ b'/' p.register_back.no_slash,
    split-last (number s.regcls) b'/' p.regcls_back.no_slash,
  )

  -- A printed specification whose texts are trimmed, not empty and without a slash is read back
  -- with the same texts and flags. The identifiers are what its texts stand for, and its REGCLS
  -- now counts as explicit, also where it was a default.
  pub from_string-print :
      (clsid_from_string : Text → ℕ × Uuid) (s : ClassSpec)
      → IsPrintable s
      → (from_string qt clsid_from_string (print qt s)).0 ≡ record s {
        clsid = (clsid_from_string s.clsid_input).1;
        alias = (clsid_from_string s.alias_input).1;
        regcls_explicit = true;
        result = 0;
        error = 0;
      }
  unfolding from_string
  from_string-print clsid_from_string s p = rw (
    split-print s p,
    p.clsid_field.not_empty,
    p.clsid_field.trimmed_same,
    p.alias_field.not_empty,
    p.alias_field.trimmed_same,
    p.create_back.not_empty,
    p.create_back.read_back,
    p.register_back.not_empty,
    p.register_back.read_back,
    p.regcls_back.not_empty,
    p.regcls_back.read_back,
  )
