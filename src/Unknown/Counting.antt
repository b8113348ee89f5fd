-- ===== src/Unknown/Counting.antt =====
-- An object lives as long as a reference to it is held.
use axhost.Common.{
  ℕ, Bool, true, false, ◌==◌, ◌≡◌, ◌<◌, ◌+◌, ◌-◌, ◌^◌, refl, List, [], ◌∷◌, arith, ap, ◌∙◌,
}
use axhost.Unknown.{
  Asked, unknown, derived, other, Object, knows, increment, decrement, add_ref, release,
  query_interface,
}

-- A call of a client.
pub data Use : Type 0 where
  adds releases : Use
  queries : (wanted : Bool) (riid : Asked) → Use

unfoldable pub serve : List Use → Object → Object
serve [] o = o
serve (adds ∷ uses) o = serve uses (add_ref o).1
serve (releases ∷ uses) o = serve uses (release o).1
serve (queries wanted riid ∷ uses) o = serve uses (query_interface wanted riid o).1

-- How many references the clients hold after a call.
abbrev pub after_use : Use → ℕ → ℕ
after_use adds held = held + 1
after_use releases held = held - 1
after_use (queries true unknown) held = held + 1
after_use (queries true derived) held = held + 1
after_use (queries true other) held = held
after_use (queries false riid) held = held

abbrev pub held_after : List Use → ℕ → ℕ
held_after [] held = held
held_after (call ∷ uses) held = held_after uses (after_use call held)

-- Each call is made while a reference is held, and fewer than 2^32 are held after it.
abbrev pub Proper : List Use → ℕ → Type 0
Proper [] held = Unit
Proper (call ∷ uses) held =
    (0 < held) × (after_use call held < 2 ^ 32) × Proper uses (after_use call held)

-- The object that counts the references that are held.
abbrev pub counting : ℕ → Object
counting held = record { ref = held; deleted = held == 0 }

decrement_lem : (n : ℕ) → 0 < n → n < 2 ^ 32 → decrement n ≡ n - 1
decrement_lem n h i = omega arith

increment_lem : (n : ℕ) → n + 1 < 2 ^ 32 → increment n ≡ n + 1
increment_lem n h = omega arith

release-counting :
    (held : ℕ) → 0 < held → held < 2 ^ 32 → (release (counting held)).1 ≡ counting (held - 1)
unfolding release
release-counting held h i = rw (decrement_lem held h i) ground (arith, h)

add_ref-counting :
    (held : ℕ) → 0 < held → held + 1 < 2 ^ 32 → (add_ref (counting held)).1 ≡ counting (held + 1)
unfolding add_ref
add_ref-counting held h i = rw (increment_lem held i) ground (arith, h)

serve-counting_one :
    (call : Use) (held : ℕ)
    → 0 < held
    → held < 2 ^ 32
    → after_use call held < 2 ^ 32
    → serve (call ∷ []) (counting held) ≡ counting (after_use call held)
unfolding serve query_interface knows
serve-counting_one adds held h j i = add_ref-counting held h i
serve-counting_one releases held h j i = release-counting held h j
serve-counting_one (queries true unknown) held h j i = add_ref-counting held h i
serve-counting_one (queries true derived) held h j i = add_ref-counting held h i
serve-counting_one (queries true other) held h j i = refl
serve-counting_one (queries false riid) held h j i = refl

serve-cons :
    (call : Use) (uses : List Use) (o : Object)
    → serve (call ∷ uses) o ≡ serve uses (serve (call ∷ []) o)
unfolding serve
serve-cons adds uses o = refl
serve-cons releases uses o = refl
serve-cons (queries wanted riid) uses o = refl

-- After any calls of clients, each made while a reference is held and with fewer than 2^32
-- references at any time, the object's count is the number of references that are held, and the
-- object is deleted exactly if that number is 0.
pub serve-counting :
    (uses : List Use) (held : ℕ)
    → held < 2 ^ 32
    → Proper uses held
    → serve uses (counting held) ≡ counting (held_after uses held)
unfolding serve
serve-counting [] held i p = refl
serve-counting (call ∷ uses) held i p =
    serve-cons call uses (counting held)
    ∙ ap (serve uses) (serve-counting_one call held p.0 i p.1)
    ∙ serve-counting uses (after_use call held) p.1 p.2
