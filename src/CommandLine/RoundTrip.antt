-- ===== src/CommandLine/RoundTrip.antt =====
-- A created command line is read back as its program and arguments.
use axhost.Common.{
  ℕ, ◌≡◌, ◌≢◌, refl, sym, ap, ◌∙◌, List, [], ◌∷◌, ◌++◌, map, append_assoc, append-nil, Text, true,
  false, is_empty, replicate, arith, Bool-cases, inl, inr,
}
use axhost.Common.Qt.{Qt}
use axhost.CommandLine.{
  backslash, quote, space, specials, contains, any_special, arg_needs_quotes, quote_single_arg,
  quoted_arg, create_command_line,
}
use axhost.CommandLine.Argv.{Reading, read_step, read, read_end, between, holding, to_argv}
use axhost.CommandLine.Emitted.{quote_single_arg-emitted, read-emitted}

-- A text that is read as one argument.
abbrev Reads : Text → Text → Type 0
Reads token arg =
    (rest : Text) (args : List Text)
    → read (token ++ rest) (between args) ≡ read rest (holding arg args)

read_open :
    (rest : Text) (args : List Text)
    → read (quote ∷ rest) (between args)
      ≡ read rest
          (record { quoted = true; backslashes = 0; started = true; current = []; args = args })
unfolding read
read_open rest args = refl

quote_single_arg-Reads : (arg : Text) → Reads (quote_single_arg arg) arg
quote_single_arg-Reads arg rest args =
    rw (quote_single_arg-emitted arg, read_open, read-emitted arg 0) refl

-- A character that reading keeps as it is, outside quotes.
record IsPlain (c : ℕ) : Type 0 where
  not_backslash : c ≢ backslash
  not_quote : c ≢ quote
  not_space : c ≢ space
  not_tab : c ≢ b'\t'

contains-IsPlain : (c : ℕ) → contains specials c ≡ false → IsPlain c
unfolding contains
contains-IsPlain c h = record {
  not_backslash = ground arith;
  not_quote = ground arith;
  not_space = ground arith;
  not_tab = ground arith;
}

read_plain :
    (c : ℕ) (rest cur : Text) (args : List Text)
    → IsPlain c
    → read (c ∷ rest) (holding cur args) ≡ read rest (holding (cur ++ c ∷ []) args)
unfolding read
read_plain c rest cur args h = ground (arith, append-nil cur)

read_first :
    (c : ℕ) (rest : Text) (args : List Text)
    → IsPlain c
    → read (c ∷ rest) (between args) ≡ read rest (holding (c ∷ []) args)
unfolding read
read_first c rest args h = ground arith

read_unquoted :
    (s rest cur : Text) (args : List Text)
    → any_special s ≡ false
    → read (s ++ rest) (holding cur args) ≡ read rest (holding (cur ++ s) args)
unfolding any_special
read_unquoted [] rest cur args h = simp append-nil
read_unquoted (c ∷ s) rest cur args h = elim (Bool-cases (contains specials c)) [
  | inl bad ↦ cc
  | inr fine ↦
      rw
        (
          read_plain c _ cur args (contains-IsPlain c fine),
          read_unquoted s rest _ args (rw fine at h),
        )
        (simp append_assoc)
]

pub quoted_arg-Reads : (arg : Text) → Reads (quoted_arg arg) arg
unfolding quoted_arg arg_needs_quotes
quoted_arg-Reads [] rest args = quote_single_arg-Reads [] rest args
quoted_arg-Reads (c ∷ s) rest args = elim (Bool-cases (any_special (c ∷ s))) [
  | inl special ↦ rw special (quote_single_arg-Reads (c ∷ s) rest args)
  | inr plain ↦ rw plain (unquoted plain)
]
  where
    unquoted :
        any_special (c ∷ s) ≡ false
        → read (c ∷ s ++ rest) (between args) ≡ read rest (holding (c ∷ s) args)
    unquoted h = elim (Bool-cases (contains specials c)) [
      | inl bad ↦ cc
      | inr fine ↦
          rw (read_first c _ args (contains-IsPlain c fine))
            (read_unquoted s rest (c ∷ []) args (rw fine at h))
    ]

read-space :
    (rest arg : Text) (args : List Text)
    → read (space ∷ rest) (holding arg args) ≡ read rest (between (args ++ arg ∷ []))
unfolding read
read-space rest arg args = ground (arith, append-nil arg)

-- Arguments that were read before stay in front.
abbrev behind : List Text → Reading → Reading
behind before r = record r { args = before ++ r.args }

read_step-behind :
    (before : List Text) (c : ℕ) (r : Reading)
    → read_step c (behind before r) ≡ behind before (read_step c r)
unfolding read_step
read_step-behind before c r =
    ground
      (arith, append_assoc before r.args ((r.current ++ replicate r.backslashes backslash) ∷ []))

read_cons : (c : ℕ) (s : Text) (r : Reading) → read (c ∷ s) r ≡ read s (read_step c r)
unfolding read
read_cons c s r = refl

read-behind :
    (before : List Text) (s : Text) (r : Reading)
    → read s (behind before r) ≡ behind before (read s r)
read-behind before [] r = unfold read in refl
read-behind before (c ∷ s) r =
    read_cons c s (behind before r)
    ∙ ap (read s) (read_step-behind before c r)
    ∙ read-behind before s (read_step c r)
    ∙ ap (behind before) (sym (read_cons c s r))

read_end-behind :
    (before : List Text) (r : Reading) → read_end (behind before r) ≡ before ++ read_end r
read_end-behind before r =
    ground
      (arith, append_assoc before r.args ((r.current ++ replicate r.backslashes backslash) ∷ []))

to_argv-behind :
    (before : List Text) (s : Text) → read_end (read s (between before)) ≡ before ++ to_argv s
unfolding to_argv
to_argv-behind before s =
    ap (λ b. read_end (read s (between b))) (sym (append-nil before))
    ∙ ap read_end (read-behind before s (between []))
    ∙ read_end-behind before (read s (between []))

to_argv_lem : (s : Text) → to_argv s ≡ read_end (read s (between []))
unfolding to_argv
to_argv_lem s = refl

quote_single_arg-ne-nil : (s : Text) → is_empty (quote_single_arg s) ≡ false
quote_single_arg-ne-nil s = rw quote_single_arg-emitted

module _ (qt : Qt) where
  open qt use {join, join-one, join-cons, replace}

  read-join :
      (arguments : List Text) (token arg : Text) (args : List Text)
      → Reads token arg
      → read_end (read (join (token ∷ map quoted_arg arguments) space) (between args))
        ≡ args ++ arg ∷ arguments
  read-join [] token arg args h =
      rw (join-one, ← append-nil token, h [] args) (unfold read in simp append-nil)
  read-join (b ∷ arguments) token arg args h =
      rw
        (
          join-cons,
          h _ args,
          read-space,
          read-join arguments (quoted_arg b) b (args ++ arg ∷ []) (quoted_arg-Reads b),
        )
        (simp append_assoc)

  -- The same with a blank and more behind it.
  read-join_blank :
      (arguments : List Text) (token arg native : Text) (args : List Text)
      → Reads token arg
      → read (join (token ∷ map quoted_arg arguments) space ++ space ∷ native) (between args)
        ≡ read native (between (args ++ arg ∷ arguments))
  read-join_blank [] token arg native args h = rw (join-one, h _ args, read-space)
  read-join_blank (b ∷ arguments) token arg native args h =
      rw
        (
          join-cons,
          append_assoc,
          h _ args,
          read-space,
          read-join_blank arguments (quoted_arg b) b native (args ++ arg ∷ []) (quoted_arg-Reads b),
        )
        (simp append_assoc)

  join-ne-nil :
      (token : Text) (rest : List Text)
      → is_empty token ≡ false
      → is_empty (join (token ∷ rest) space) ≡ false
  join-ne-nil [] rest h = cc
  join-ne-nil (c ∷ token) [] h = rw join-one
  join-ne-nil (c ∷ token) (t ∷ rest) h = rw join-cons

  -- A command line that is created for a program, arguments and native arguments is read back as
  -- the program with its slashes turned, the arguments, and what the native arguments are read as,
  -- whatever characters the arguments hold.
  pub to_argv-create_command_line :
      (program : Text) (arguments : List Text) (native_arguments : Text)
      → program ≢ []
      → to_argv (create_command_line qt program arguments native_arguments)
        ≡ (replace program b'/' backslash ∷ arguments) ++ to_argv native_arguments
  unfolding create_command_line
  to_argv-create_command_line [] arguments native_arguments h = absurd (h refl)
  to_argv-create_command_line (c ∷ p) arguments [] h =
      unfold to_argv in read-join arguments _ _ [] (quote_single_arg-Reads _) ∙ sym (append-nil _)
  to_argv-create_command_line (c ∷ p) arguments (n ∷ native) h =
      rw
        (
          join-ne-nil _ (map quoted_arg arguments)
              (quote_single_arg-ne-nil (replace (c ∷ p) b'/' backslash)),
          append_assoc,
        )
        (to_argv_lem _
          ∙ ap read_end (read-join_blank arguments _ _ (n ∷ native) [] (quote_single_arg-Reads _))
          ∙ to_argv-behind _ (n ∷ native))
