-- ===== src/Sink/Nesting.antt =====
-- How deep calls of sinks may nest.
use axhost.Common.{
  ℕ, zero, suc, ◌+◌, ◌≤◌, ◌<◌, ◌≡◌, refl, sym, subst, true, false, ◌==◌, [], ◌∷◌, Option, none,
  some, length, arith, Bool-cases, inl, inr,
}
use axhost.Sink.Pool.{
  Phase, queued, running, finished, silent, reaches_of, gives_up, Call, Stack, phase_of, set_phase,
  is_caller, is_blocked, threads_in_use, raise, Quiet, starts, finishes, returns, quiet, raises,
  calls_back, Reach, here, next, Ends, ended, ends,
}

abbrev weight : Phase → ℕ
weight queued = 3
weight running = 2
weight finished = 1
weight silent = 1

-- How many steps are left.
abbrev measure : Stack → ℕ
measure [] = 0
measure (c ∷ cs) = weight c.phase + measure cs

measure-set_phase :
    (s : Stack) (i : ℕ) (p q : Phase)
    → phase_of i s ≡ some p
    → measure (set_phase i q s) + weight p ≡ measure s + weight q
unfolding phase_of set_phase
measure-set_phase [] i p q h = cc
measure-set_phase (c ∷ cs) i p q h = elim (Bool-cases (length cs == i)) [
  | inl at ↦
      let same : some (weight c.phase) ≡ some (weight p) = ground (arith, at, h) in
      ground (arith, at, same)
  | inr deep ↦ ground (arith, deep, h, measure-set_phase cs i p q)
]

length-set_phase : (s : Stack) (i : ℕ) (q : Phase) → length (set_phase i q s) ≡ length s
unfolding set_phase
length-set_phase [] i q = refl
length-set_phase (c ∷ cs) i q = ground (arith, length-set_phase cs i q)

-- The caller of a call is further out.
Outer : Option ℕ → ℕ → Type 0
Outer none n = Unit
Outer (some i) n = i < n

Callers : Stack → Type 0
Callers [] = Unit
Callers (c ∷ cs) = Outer c.caller (length cs) × Callers cs

set_phase-Callers : (s : Stack) (i : ℕ) (q : Phase) → Callers s → Callers (set_phase i q s)
unfolding set_phase Callers
set_phase-Callers [] i q h = tt
set_phase-Callers (c ∷ cs) i q h = elim (Bool-cases (length cs == i)) [
  | inl at ↦ rw at h
  | inr deep ↦ rw deep rw (length-set_phase cs i q) (h.0, set_phase-Callers cs i q h.1)
]

phase_of-below : (s : Stack) (i : ℕ) (p : Phase) → phase_of i s ≡ some p → i < length s
unfolding phase_of
phase_of-below [] i p h = cc
phase_of-below (c ∷ cs) i p h = elim (Bool-cases (length cs == i)) [
  | inl at ↦ ground (arith, at)
  | inr deep ↦ ground (arith, deep, h, phase_of-below cs i p)
]

Quiet-Callers : (size : ℕ) {s t : Stack} → Quiet size s t → Callers s → Callers t
unfolding Callers
Quiet-Callers size (starts s i e h) k = set_phase-Callers s i running k
Quiet-Callers size (finishes s i e at h) k = set_phase-Callers s i finished k
Quiet-Callers size (gives_up s i e at) k = set_phase-Callers s i silent k
Quiet-Callers size (returns c s e) k = k.1

Reach-Callers : (size : ℕ) {s t : Stack} → Reach size s t → Callers s → Callers t
unfolding Callers Outer raise
Reach-Callers size here k = k
Reach-Callers size (next r (quiet q)) k = Quiet-Callers size q (Reach-Callers size r k)
Reach-Callers size (next r (raises s reaches)) k = (tt, Reach-Callers size r k)
Reach-Callers size (next r (calls_back s i reaches e at h)) k =
    (phase_of-below s i running e, Reach-Callers size r k)

Outer-is_caller :
    (caller : Option ℕ) (n k : ℕ) → k ≤ n → Outer caller k → is_caller n caller ≡ false
unfolding is_caller Outer
Outer-is_caller none n k le h = refl
Outer-is_caller (some i) n k le h = ground (arith, le, h)

not_called : (s : Stack) (n : ℕ) → length s ≤ n → Callers s → is_blocked n s ≡ false
unfolding is_blocked Callers
not_called [] n le k = refl
not_called (c ∷ cs) n le k =
    rw (Outer-is_caller c.caller n (length cs) (omega (arith, le)) k.0)
      (not_called cs n (omega (arith, le)) k.1)

Quiet-measure :
    (size : ℕ) {s t : Stack} → Quiet size s t → (measure t < measure s) × (length t ≤ length s)
Quiet-measure size (starts s i e h) = (
  omega (arith, measure-set_phase s i queued running e),
  omega (arith, length-set_phase s i running),
)
Quiet-measure size (finishes s i e at h) = (
  omega (arith, measure-set_phase s i running finished e),
  omega (arith, length-set_phase s i finished),
)
Quiet-measure size (gives_up s i e at) = (
  omega (arith, measure-set_phase s i running silent e),
  omega (arith, length-set_phase s i silent),
)
Quiet-measure size (returns c s e) = (ground (arith, e), omega arith)

threads-length : (s : Stack) → threads_in_use s ≤ length s
unfolding threads_in_use
threads-length [] = omega arith
threads-length (c ∷ cs) = ground (arith, threads-length cs)

phase_of-top : (c : Call) (cs : Stack) → phase_of (length cs) (c ∷ cs) ≡ some c.phase
unfolding phase_of
phase_of-top c cs = let same : (length cs == length cs) ≡ true = ground arith in rw same

-- Every call reaches its client's sink, and none has given up.
abbrev pub Heard : Phase → Type 0
Heard queued = Unit
Heard running = Unit
Heard finished = Unit
Heard silent = ⊥

abbrev pub Reached : Stack → Type 0
Reached [] = Unit
Reached (c ∷ cs) = (c.reaches ≡ true) × Heard c.phase × Reached cs

reaches_of-Reached :
    (s : Stack) (i : ℕ) (p : Phase) → phase_of i s ≡ some p → Reached s → reaches_of i s ≡ true
unfolding phase_of reaches_of
reaches_of-Reached [] i p e h = cc
reaches_of-Reached (c ∷ cs) i p e h = elim (Bool-cases (length cs == i)) [
  | inl at ↦ rw at h.0
  | inr deep ↦ rw deep (reaches_of-Reached cs i p (rw deep at e) h.2)
]

set_phase-Reached :
    (s : Stack) (i : ℕ) (q : Phase) → Heard q → Reached s → Reached (set_phase i q s)
unfolding set_phase
set_phase-Reached [] i q fine h = tt
set_phase-Reached (c ∷ cs) i q fine h = elim (Bool-cases (length cs == i)) [
  | inl at ↦ rw at (h.0, fine, h.2)
  | inr deep ↦ rw deep (h.0, h.1, set_phase-Reached cs i q fine h.2)
]

Quiet-Reached : (size : ℕ) {s t : Stack} → Quiet size s t → Reached s → Reached t
Quiet-Reached size (starts s i e h) k = set_phase-Reached s i running tt k
Quiet-Reached size (finishes s i e at h) k = set_phase-Reached s i finished tt k
Quiet-Reached size (gives_up s i e at) k =
    absurd (let no = reaches_of-Reached s i running e k in cc)
Quiet-Reached size (returns c s e) k = k.2

-- The innermost call can go on if it gets a thread.
top-Quiet :
    (size : ℕ) (caller : Option ℕ) (phase : Phase) (cs : Stack)
    → Callers cs
    → Heard phase
    → Outer caller (length cs)
    → length cs < size
    → (t : Stack) × Quiet size (record { caller = caller; reaches = true; phase = phase } ∷ cs) t
unfolding threads_in_use is_blocked reaches_of
top-Quiet size caller queued cs k fine o le =
    let s : Stack = record { caller = caller; reaches = true; phase = queued } ∷ cs in
    (_, starts s (length cs) (phase_of-top _ cs) (omega (arith, threads-length cs)))
top-Quiet size caller running cs k fine o le =
    let s : Stack = record { caller = caller; reaches = true; phase = running } ∷ cs in
    let free : is_blocked (length cs) s ≡ false =
      rw (Outer-is_caller caller (length cs) (length cs) (omega arith) o)
        (not_called cs (length cs) (omega arith) k) in
    (
      _,
      finishes s (length cs) (phase_of-top _ cs)
          (let same : (length cs == length cs) ≡ true = ground arith in rw same refl) free,
    )
top-Quiet size caller silent cs k fine o le = absurd fine
top-Quiet size caller finished cs k fine o le = (_, returns _ cs refl)

settles :
    (size n : ℕ) (s : Stack) → measure s < n → Callers s → Reached s → length s ≤ size → Ends size s
unfolding Callers
settles size zero s h k heard le = absurd (omega arith)
settles size (suc n) [] h k heard le = ended
settles size (suc n) (c ∷ cs) h k heard le =
    let (t, q) =
      subst
        (λ r.
          (t : Stack) × Quiet size (record { caller = c.caller; reaches = r; phase = c.phase } ∷ cs)
            t)
        (sym heard.0) (top-Quiet size c.caller c.phase cs k.1 heard.1 k.0 (omega (arith, le))) in
    ends q λ u r.
      let less = Quiet-measure size r in
      settles size n u (omega (arith, less, h)) (Quiet-Callers size r k)
        (Quiet-Reached size r heard) (omega (arith, less, le))

-- If no more calls of sinks are nested than the pool has threads, and every one of them reaches its
-- client's sink in its thread, then from any state that is reached, once no further event is
-- raised, all of them return, whichever thread goes on first.
pub Reach-Ends :
    (size : ℕ) (s : Stack) → Reach size [] s → Reached s → length s ≤ size → Ends size s
unfolding Callers
Reach-Ends size s r heard le =
    settles size (suc (measure s)) s (omega arith) (Reach-Callers size r tt) heard le
