-- ===== src/CommandLine/Emitted.antt =====
-- What the loop of QuoteSingleArg emits, and how it is read back.
use axhost.Common.{
  ℕ, zero, suc, ◌+◌, ◌*◌, ◌/◌, ◌%◌, ◌≢◌, ◌≡◌, sym, List, [], ◌∷◌, ◌++◌, append_assoc, append-nil,
  Text, true, ◌==◌, if◌then◌else◌, replicate, replicate_shift, arith,
}
use native.Mathlib.Decide.{ℕ_discrete}
use native.Mathlib.Nat.{zero-add}
use axhost.CommandLine.{
  backslash, quote, flush, quote_step, quote_loop, quote_end, quote_single_arg,
}
use axhost.CommandLine.Argv.{Reading, read, holding}

-- What is emitted for the rest of the argument behind `n` pending backslashes.
pub emitted : Text → ℕ → Text
emitted [] n = replicate (n * 2) backslash ++ quote ∷ []
emitted (c ∷ s) n =
    if c == backslash
    then emitted s (n + 1)
    else if c == quote
    then replicate (n * 2) backslash ++ backslash ∷ quote ∷ emitted s 0
    else replicate n backslash ++ c ∷ emitted s 0

flush_twice :
    (out : Text) (n : ℕ)
    → flush (record { result = out; backslashes = n }) (n * 2) ≡ out ++ replicate (n * 2) backslash
unfolding flush
flush_twice out zero = sym (append-nil out)
flush_twice out (suc n) = ground arith

flush_once :
    (out : Text) (n : ℕ)
    → flush (record { result = out; backslashes = n }) n ≡ out ++ replicate n backslash
unfolding flush
flush_once out zero = sym (append-nil out)
flush_once out (suc n) = ground arith

quote_loop-emitted :
    (s out : Text) (n : ℕ)
    → quote_end (quote_loop s (record { result = out; backslashes = n })) ≡ out ++ emitted s n
unfolding quote_loop quote_step quote_end emitted
quote_loop-emitted [] out n = rw (flush_twice, append_assoc)
quote_loop-emitted (c ∷ s) out n =
    grind (arith, quote_loop-emitted s, append_assoc, flush_twice out n, flush_once out n)

pub quote_single_arg-emitted : (s : Text) → quote_single_arg s ≡ quote ∷ emitted s 0
quote_single_arg-emitted s = unfold quote_single_arg in quote_loop-emitted s (quote ∷ []) 0

-- Inside quotes, with `n` backslashes pending.
abbrev inside : ℕ → Text → List Text → Reading
inside n cur args = record {
  quoted = true;
  backslashes = n;
  started = true;
  current = cur;
  args = args;
}

read_backslashes :
    (k n : ℕ) (cur rest : Text) (args : List Text)
    → read (replicate k backslash ++ rest) (inside n cur args) ≡ read rest (inside (n + k) cur args)
unfolding read
read_backslashes zero n cur rest args = ground arith
read_backslashes (suc k) n cur rest args = ground (arith, read_backslashes k (n + 1) cur rest args)

read-quote :
    (n : ℕ) (cur rest : Text) (args : List Text)
    → read (quote ∷ rest) (inside (n * 2) cur args)
      ≡ read rest (holding (cur ++ replicate n backslash) args)
unfolding read
read-quote n cur rest args =
    let even : n * 2 % 2 ≡ 0 = omega arith in
    let half : n * 2 / 2 ≡ n = omega arith in ground (arith, even, half)

read_escaped :
    (n : ℕ) (cur rest : Text) (args : List Text)
    → read (backslash ∷ quote ∷ rest) (inside (n * 2) cur args)
      ≡ read rest (inside 0 (cur ++ replicate n backslash ++ quote ∷ []) args)
unfolding read
read_escaped n cur rest args =
    let odd : (n * 2 + 1) % 2 ≡ 1 = omega arith in
    let half : (n * 2 + 1) / 2 ≡ n = omega arith in ground (arith, odd, half)

read_plain :
    (c n : ℕ) (cur rest : Text) (args : List Text)
    → c ≢ backslash
    → c ≢ quote
    → read (c ∷ rest) (inside n cur args)
      ≡ read rest (inside 0 (cur ++ replicate n backslash ++ c ∷ []) args)
unfolding read
read_plain c n cur rest args h k = ground arith

emitted_plain :
    (c : ℕ) (s : Text) (n : ℕ)
    → c ≢ backslash
    → c ≢ quote
    → emitted (c ∷ s) n ≡ replicate n backslash ++ c ∷ emitted s 0
unfolding emitted
emitted_plain c s n h k = ground arith

pub read-emitted :
    (s : Text) (n : ℕ) (cur rest : Text) (args : List Text)
    → read (emitted s n ++ rest) (inside 0 cur args)
      ≡ read rest (holding (cur ++ replicate n backslash ++ s) args)
unfolding emitted
read-emitted [] n cur rest args =
    rw (append_assoc, read_backslashes (n * 2) 0, zero-add, read-quote) (simp append-nil)
read-emitted (c ∷ s) n cur rest args = elim (ℕ_discrete c backslash) [
  | yes p ↦ rw (p, read-emitted s (n + 1) cur rest args) (simp (append_assoc, replicate_shift))
  | no p ↦ elim (ℕ_discrete c quote) [
    | yes q ↦
        rw (q, append_assoc, read_backslashes (n * 2) 0, zero-add, read_escaped, read-emitted s 0)
          (simp append_assoc)
    | no q ↦
        rw
          (
            emitted_plain c s n p q,
            append_assoc,
            read_backslashes n 0,
            zero-add,
            read_plain c n _ _ args p q,
            read-emitted s 0,
          )
          (simp append_assoc)
  ]
]
