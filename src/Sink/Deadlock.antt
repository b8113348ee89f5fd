-- ===== src/Sink/Deadlock.antt =====
-- Calls of sinks that nest deeper than the pool has threads.
use axhost.Common.{
  ℕ, zero, suc, ◌≤◌, ◌<◌, ◌≡◌, refl, subst, Bool, true, false, ◌==◌, [], ◌∷◌, Option, none, some,
  length, arith, Bool-cases, inl, inr, ◌⊎◌,
}
use axhost.Sink.Pool.{
  Phase, queued, running, reaches_of, gives_up, Call, Stack, phase_of, set_phase, is_caller,
  is_blocked, threads_in_use, raise, Quiet, starts, finishes, returns, quiet, raises, calls_back,
  Reach, here, next,
}

-- So many calls, each of which the client's sink of the one before has caused, and all run.
abbrev pub chain : ℕ → Stack
chain zero = []
chain (suc zero) = record { caller = none; reaches = true; phase = running } ∷ []
chain (suc (suc k)) = record { caller = some k; reaches = true; phase = running } ∷ chain (suc k)

-- And one more, for which there is no thread.
abbrev pub nested : ℕ → Stack
nested k = record { caller = some k; reaches = true; phase = queued } ∷ chain (suc k)

length-chain : (k : ℕ) → length (chain k) ≡ k
length-chain zero = refl
length-chain (suc zero) = refl
length-chain (suc (suc k)) = omega (arith, length-chain (suc k))

threads-chain : (k : ℕ) → threads_in_use (chain k) ≡ k
unfolding threads_in_use
threads-chain zero = refl
threads-chain (suc zero) = refl
threads-chain (suc (suc k)) = omega (arith, threads-chain (suc k))

-- What stays of a stack: nothing of it returns, and what is above it waits for a thread.
pub data Over (base : Stack) : Stack → Type 0 where
  same : Over base base
  above :
      {t : Stack} (caller : Option ℕ) (reaches : Bool)
      → Over base t
      → Over base (raise caller reaches t)

phase_of-chain : (k : ℕ) → phase_of k (chain (suc k)) ≡ some running
unfolding phase_of
phase_of-chain zero = refl
phase_of-chain (suc k) = ground (arith, length-chain (suc k))

reaches-chain : (k i : ℕ) → i ≤ k → reaches_of i (chain (suc k)) ≡ true
unfolding reaches_of
reaches-chain zero i h = ground (arith, h)
reaches-chain (suc k) i h = elim (Bool-cases (length (chain (suc k)) == i)) [
  | inl at ↦ rw at refl
  | inr deep ↦ rw deep (reaches-chain k i (ground (arith, deep, h, length-chain (suc k))))
]

unblocked-chain : (k n : ℕ) → k ≤ n → is_blocked n (chain (suc k)) ≡ false
unfolding is_blocked is_caller
unblocked-chain zero n le = refl
unblocked-chain (suc k) n le = ground (arith, le, unblocked-chain k n)

set_phase-top :
    (caller : Option ℕ) (p q : Phase) (cs : Stack)
    → set_phase (length cs) q (record { caller = caller; reaches = true; phase = p } ∷ cs)
      ≡ record { caller = caller; reaches = true; phase = q } ∷ cs
unfolding set_phase
set_phase-top caller p q cs = let top : (length cs == length cs) ≡ true = ground arith in rw top

phase_of-raise :
    (caller : Option ℕ) (reaches : Bool) (cs : Stack)
    → phase_of (length cs) (raise caller reaches cs) ≡ some queued
unfolding phase_of raise
phase_of-raise caller reaches cs =
    let top : (length cs == length cs) ≡ true = ground arith in rw top

threads-raise :
    (caller : Option ℕ) (reaches : Bool) (cs : Stack)
    → threads_in_use (raise caller reaches cs) ≡ threads_in_use cs
unfolding threads_in_use raise
threads-raise caller reaches cs = omega arith

-- A call that is raised gets a thread if there is one.
raise-Reach :
    (size : ℕ) (caller : Option ℕ) (cs : Stack)
    → threads_in_use cs < size
    → Reach size [] (raise caller true cs)
    → Reach size [] (record { caller = caller; reaches = true; phase = running } ∷ cs)
unfolding raise
raise-Reach size caller cs h r = subst (Reach size []) (set_phase-top caller queued running cs) (
    next r (
      quiet (
        starts (raise caller true cs) (length cs) (phase_of-raise caller true cs)
          (omega (arith, h, threads-raise caller true cs)))))

chain-Reach : (size k : ℕ) → k ≤ size → Reach size [] (chain k)
chain-Reach size zero le = here
chain-Reach size (suc zero) le =
    raise-Reach size none [] (omega (arith, le, threads-chain 0)) (next here (raises [] true))
chain-Reach size (suc (suc k)) le =
    raise-Reach size (some k) (chain (suc k)) (omega (arith, le, threads-chain (suc k))) (
      next (chain-Reach size (suc k) (omega (arith, le))) (
        calls_back (chain (suc k)) k true (phase_of-chain k) (reaches-chain k k (omega arith))
          (unblocked-chain k k (omega arith))))

nested-Reach : (k : ℕ) → Reach (suc k) [] (nested k)
unfolding raise
nested-Reach k = next (chain-Reach (suc k) (suc k) (omega arith)) (
    calls_back (chain (suc k)) k true (phase_of-chain k) (reaches-chain k k (omega arith))
      (unblocked-chain k k (omega arith)))

Reach-trans : (size : ℕ) {s t u : Stack} → Reach size s t → Reach size t u → Reach size s u
Reach-trans size r here = r
Reach-trans size r (next q st) = next (Reach-trans size r q) st

blocked-chain : (i k : ℕ) → i < k → is_blocked i (chain (suc k)) ≡ true
unfolding is_blocked is_caller
blocked-chain i zero h = absurd (omega arith)
blocked-chain i (suc k) h = elim (Bool-cases (k == i)) [
  | inl at ↦ ground (arith, at)
  | inr deep ↦ ground (arith, deep, h, blocked-chain i k)
]

running-chain : (k i : ℕ) → phase_of i (chain k) ≡ some running → i < k
unfolding phase_of
running-chain zero i h = cc
running-chain (suc zero) i h = ground (arith, h)
running-chain (suc (suc k)) i h = elim (Bool-cases (length (chain (suc k)) == i)) [
  | inl at ↦ ground (arith, at, length-chain (suc k))
  | inr deep ↦ ground (arith, deep, h, running-chain (suc k) i)
]

phase_of-raised :
    (i : ℕ) (caller : Option ℕ) (reaches : Bool) (cs : Stack)
    → phase_of i (raise caller reaches cs) ≡ some running
    → phase_of i cs ≡ some running
unfolding phase_of raise
phase_of-raised i caller reaches cs h = elim (Bool-cases (length cs == i)) [
  | inl at ↦ ground (arith, at, h)
  | inr deep ↦ ground (arith, deep, h)
]

is_blocked-raise :
    (i : ℕ) (caller : Option ℕ) (reaches : Bool) (cs : Stack)
    → (is_caller i caller ≡ true) ⊎ (is_blocked i cs ≡ true)
    → is_blocked i (raise caller reaches cs) ≡ true
unfolding is_blocked raise
is_blocked-raise i caller reaches cs (inl h) = ground (arith, h)
is_blocked-raise i caller reaches cs (inr h) = ground (arith, h)

-- Every call that runs waits for the control.
Over-blocked :
    (k i : ℕ) {t : Stack} → Over (nested k) t → phase_of i t ≡ some running → is_blocked i t ≡ true
unfolding is_caller raise
Over-blocked k i same h =
    let below = running-chain (suc k) i (phase_of-raised i (some k) true (chain (suc k)) h) in
    elim (Bool-cases (k == i)) [
      | inl last ↦ is_blocked-raise i (some k) true (chain (suc k)) (inl last)
      | inr other ↦
          is_blocked-raise i (some k) true (chain (suc k))
            (inr (blocked-chain i k (ground (arith, other, below))))
    ]
Over-blocked k i (above {t = t} caller reaches o) h =
    is_blocked-raise i caller reaches t
      (inr (Over-blocked k i o (phase_of-raised i caller reaches t h)))

reaches_of-raised :
    (i : ℕ) (caller : Option ℕ) (reaches : Bool) (cs : Stack)
    → phase_of i (raise caller reaches cs) ≡ some running
    → reaches_of i cs ≡ true
    → reaches_of i (raise caller reaches cs) ≡ true
unfolding phase_of reaches_of raise
reaches_of-raised i caller reaches cs h k = elim (Bool-cases (length cs == i)) [
  | inl at ↦ ground (arith, at, h)
  | inr deep ↦ rw deep k
]

-- And it has reached its client.
Over-reaches :
    (k i : ℕ) {t : Stack} → Over (nested k) t → phase_of i t ≡ some running → reaches_of i t ≡ true
unfolding raise
Over-reaches k i same h =
    let below = running-chain (suc k) i (phase_of-raised i (some k) true (chain (suc k)) h) in
    reaches_of-raised i (some k) true (chain (suc k)) h (reaches-chain k i (omega (arith, below)))
Over-reaches k i (above {t = t} caller reaches o) h =
    reaches_of-raised i caller reaches t h
      (Over-reaches k i o (phase_of-raised i caller reaches t h))

Over-threads : (k : ℕ) {t : Stack} → Over (nested k) t → threads_in_use t ≡ suc k
unfolding threads_in_use
Over-threads k same = omega (arith, threads-chain (suc k))
Over-threads k (above {t = t} caller reaches o) =
    omega (arith, threads-raise caller reaches t, Over-threads k o)

Over-top : (k : ℕ) {c : Call} {s : Stack} → Over (nested k) (c ∷ s) → c.phase ≡ queued
unfolding raise
Over-top k same = refl
Over-top k (above caller reaches o) = refl

-- None of the steps that would let a call return can be made.
Over-Quiet : (k : ℕ) {t u : Stack} → Over (nested k) t → Quiet (suc k) t u → Over (nested k) u
Over-Quiet k o (starts s i e h) = absurd (omega (arith, Over-threads k o, h))
Over-Quiet k o (finishes s i e at h) = absurd (let b = Over-blocked k i o e in cc)
Over-Quiet k o (gives_up s i e at) = absurd (let yes = Over-reaches k i o e in cc)
Over-Quiet k o (returns c s e) = absurd (let q = Over-top k o in cc)

Over-Reach : (k : ℕ) {t : Stack} → Reach (suc k) (nested k) t → Over (nested k) t
Over-Reach k here = same
Over-Reach k (next r (quiet q)) = Over-Quiet k (Over-Reach k r) q
Over-Reach k (next r (raises s reaches)) = above none reaches (Over-Reach k r)
Over-Reach k (next r (calls_back s i reaches e at h)) = above (some i) reaches (Over-Reach k r)

-- On a pool of k + 1 threads the control can raise k + 2 events, each in a call of the client's
-- sink of the one before. The last gets no thread, and in every state that is reached from there,
-- all of these calls still wait, and every further one waits for a thread.
pub nested-Over :
    (k : ℕ) (t : Stack) → Reach (suc k) (nested k) t → Reach (suc k) [] t × Over (nested k) t
nested-Over k t r = (Reach-trans (suc k) (nested-Reach k) r, Over-Reach k r)
